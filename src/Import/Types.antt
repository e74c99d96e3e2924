-- ===== src/Import/Types.antt =====
-- src/core.c: what the import of a job reads and changes.
use launchd.Base.{
  ℕ, Bool, false, not, ◌&&◌, ◌||◌, Option, none, some, List, [], ◌∷◌, ltb, ◌==◌, if◌then◌else◌,
  bytes_eq, codes, take, length,
}
use launchd.Data.Dict.{same_name}

-- struct jobmgr_s; managers are told apart by their address.
pub record Manager : Type 0 where
  pub id : ℕ
  pub name : List ℕ
  pub shutting_down : Bool
  -- BOOTSTRAP_PROPERTY_XPC_DOMAIN
  pub xpc_domain : Bool
  pub xpc_singleton : Bool

-- struct job_s: `table` is the manager whose label_hash the job is in, and `needs_session` tells whether
-- expected_audit_uuid is set.
pub record ImportedJob : Type 0 where
  pub label : List ℕ
  pub prog : Option (List ℕ)
  pub argv : Option (List (List ℕ))
  pub mgr : Manager
  pub table : ℕ
  pub removal_pending : Bool
  pub needs_session : Bool

-- errno(2): the values that an import gives, and any other that was left before.
pub data ImportErrno : Type 0 where
  ok einval eexist esrch eneedauth : ImportErrno
  other : ℕ → ImportErrno

-- The root manager with its submanagers and theirs, the jobs of all hash tables, the latest first, and
-- s_needing_sessions by label.
pub record State : Type 0 where
  pub root : Manager
  pub submgrs : List (Manager × List Manager)
  pub pid1_magic : Bool
  pub jobs : List ImportedJob
  pub needing_sessions : List (List ℕ)
  pub errno : ImportErrno

-- job_find_by_label, in the table of a manager.
unfoldable pub job_find_by_label : List ImportedJob → ℕ → List ℕ → Option ImportedJob
job_find_by_label [] table label = none
job_find_by_label (j ∷ js) table label =
    if (j.table == table)
      && not (j.removal_pending || j.mgr.shutting_down)
      && bytes_eq j.label label
    then some j
    else job_find_by_label js table label

-- iscntrl(3) in the C locale.
abbrev pub is_control : ℕ → Bool
is_control c = ltb c 32 || (c == 127)

unfoldable pub has_control : List ℕ → Bool
has_control [] = false
has_control (c ∷ cs) = is_control c || has_control cs

-- !strncasecmp(text, prefix, strlen(prefix))
unfoldable pub has_prefix : List ℕ → List ℕ → Bool
unfolding same_name
has_prefix text prefix = same_name (take (length prefix) text) prefix

unfoldable pub jobmgr_label_test : List ℕ → Bool
unfolding has_control has_prefix
jobmgr_label_test [] = false
jobmgr_label_test label =
    if has_control label
    then false
    else not (
        has_prefix label (codes "com.apple.launchd")
        || has_prefix label (codes "com.apple.launchctl"))

unfoldable pub find_inner : List Manager → List ℕ → Option Manager
unfolding same_name
find_inner [] name = none
find_inner (m ∷ ms) name = if same_name m.name name then some m else find_inner ms name

abbrev pub background : List ℕ
background = codes "Background"

-- The loop over the submanagers of the root. A submanager of the background session that is not found there
-- leaves the search to the next.
unfoldable pub find_among : Bool → List (Manager × List Manager) → List ℕ → Option Manager
unfolding find_inner same_name
find_among pid1 [] name = none
find_among pid1 ((m, inner) ∷ rest) name =
    let later = find_among pid1 rest name in
    if m.shutting_down
    then later
    else if m.xpc_domain
    then later
    else if same_name m.name name
    then some m
    else if same_name m.name background && pid1
    then elim (find_inner inner name) [ some i ↦ some i | none ↦ later ]
    else later

-- jobmgr_find_by_name, by a name that is not NULL.
unfoldable pub jobmgr_find_by_name : State → Manager → List ℕ → Option Manager
unfolding find_among same_name
jobmgr_find_by_name s jm name =
    if same_name jm.name name
    then some jm
    else if same_name name background && not s.pid1_magic
    then some s.root
    else find_among s.pid1_magic s.submgrs name
