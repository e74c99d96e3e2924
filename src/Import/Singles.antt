-- ===== src/Import/Singles.antt =====
-- src/core.c: what job_find_by_label and jobmgr_find_by_name find.
use launchd.Base.{
  ℕ, ◌≡◌, refl, inl, inr, Bool, true, false, not, ◌&&◌, ◌||◌, Option, none, some, List, [], ◌∷◌,
  arith, Bool-cases, if◌then◌else◌, ◌==◌, some_same, any, codes, bytes_eq, bytes_eq→eq, subst, sym,
  ◌∙◌, ap,
}
use launchd.Data.Types.{LaunchData, Slots}
use launchd.Data.Dict.{dict_lookup, same_name}
use launchd.Import.Types.{
  Manager, ImportedJob, State, job_find_by_label, find_inner, find_among, background,
  jobmgr_find_by_name,
}
use launchd.Import.Payload.{fault, refuse, accept, is_string, get_text}
use launchd.Import.Admit.{session_of, session_name}

pub record FoundKey (table : ℕ) (label : List ℕ) (j : ImportedJob) : Type 0 where
  pub table_is : j.table ≡ table
  pub label_is : j.label ≡ label

pub job_find_by_label-FoundKey :
    (js : List ImportedJob) (table : ℕ) (label : List ℕ) (j : ImportedJob)
    → job_find_by_label js table label ≡ some j
    → FoundKey table label j
unfolding job_find_by_label
job_find_by_label-FoundKey [] table label j e = cc
job_find_by_label-FoundKey (x ∷ xs) table label j e =
    elim (Bool-cases (
      (x.table == table)
      && not (x.removal_pending || x.mgr.shutting_down)
      && bytes_eq x.label label)) [
        | inl h ↦
            subst (FoundKey table label) (some_same x j (sym (rw (job_find_by_label, h) refl) ∙ e))
              (record {
                table_is = ground (arith, h);
                label_is = bytes_eq→eq x.label label (ground (arith, h));
              })
        | inr h ↦
            job_find_by_label-FoundKey xs table label j (sym (rw (job_find_by_label, h) refl) ∙ e)
      ]

-- The job that is found is found by its own table and label.
pub job_find_by_label-job_find_by_label :
    (js : List ImportedJob) (table : ℕ) (label : List ℕ) (j : ImportedJob)
    → job_find_by_label js table label ≡ some j
    → job_find_by_label js j.table j.label ≡ some j
job_find_by_label-job_find_by_label js table label j e =
    let key = job_find_by_label-FoundKey js table label j e in
    ap (λ t. job_find_by_label js t j.label) (key.table_is)
    ∙ (ap (job_find_by_label js table) (key.label_is) ∙ e)

-- A manager that gives the job that is there, where one is imported again.
abbrev single : Manager → Bool
single m = m.xpc_singleton

unfoldable pub has_singleton : State → Manager → Bool
has_singleton s jm =
    jm.xpc_singleton
    || s.root.xpc_singleton
    || any (λ g. g.0.xpc_singleton || any (λ m. m.xpc_singleton) g.1) s.submgrs

find_inner-single :
    (ms : List Manager) (name : List ℕ) (m : Manager)
    → find_inner ms name ≡ some m
    → m.xpc_singleton ≡ true
    → any (λ x. x.xpc_singleton) ms ≡ true
unfolding find_inner
find_inner-single [] name m e h = cc
find_inner-single (x ∷ xs) name m e h = elim (Bool-cases (same_name x.name name)) [
  | inl k ↦ ground (arith, h, ap single (some_same x m (sym (rw (find_inner, k) refl) ∙ e)))
  | inr k ↦ ground (arith, find_inner-single xs name m (sym (rw (find_inner, k) refl) ∙ e) h)
]

find_among-single :
    (pid1 : Bool) (gs : List (Manager × List Manager)) (name : List ℕ) (m : Manager)
    → find_among pid1 gs name ≡ some m
    → m.xpc_singleton ≡ true
    → any (λ g. g.0.xpc_singleton || any (λ x. x.xpc_singleton) g.1) gs ≡ true
unfolding find_among
find_among-single pid1 [] name m e h = cc
find_among-single pid1 ((x, inner) ∷ gs) name m e h =
    place x.shutting_down x.xpc_domain (same_name x.name name) (same_name x.name background && pid1)
      (find_inner inner name) refl (λ q. find_among-single pid1 gs name m q h) e
  where
    place :
        (down domain named ground_session : Bool) (o : Option Manager)
        → find_inner inner name ≡ o
        → (find_among pid1 gs name ≡ some m
            → any (λ g. g.0.xpc_singleton || any (λ y. y.xpc_singleton) g.1) gs ≡ true)
        → (if down
            then find_among pid1 gs name
            else if domain
            then find_among pid1 gs name
            else if named
            then some x
            else if ground_session
            then elim o [ some i ↦ some i | none ↦ find_among pid1 gs name ]
            else find_among pid1 gs name)
          ≡ some m
        → (x.xpc_singleton
            || any (λ y. y.xpc_singleton) inner
            || any (λ g. g.0.xpc_singleton || any (λ y. y.xpc_singleton) g.1) gs)
          ≡ true
    place true domain named bg o f later q = ground (arith, later q)
    place false true named bg o f later q = ground (arith, later q)
    place false false true bg o f later q = ground (arith, h, ap single (some_same x m q))
    place false false false true (some i) f later q =
        ground (arith, find_inner-single inner name m (f ∙ q) h)
    place false false false true none f later q = ground (arith, later q)
    place false false false false o f later q = ground (arith, later q)

jobmgr_find_by_name-single :
    (s : State) (jm m : Manager) (name : List ℕ)
    → jobmgr_find_by_name s jm name ≡ some m
    → m.xpc_singleton ≡ true
    → has_singleton s jm ≡ true
unfolding jobmgr_find_by_name has_singleton
jobmgr_find_by_name-single s jm m name e h =
    place (same_name jm.name name) (same_name name background && not s.pid1_magic) e
  where
    place :
        (own root : Bool)
        → (if own
            then some jm
            else if root
            then some s.root
            else find_among s.pid1_magic s.submgrs name)
          ≡ some m
        → (jm.xpc_singleton
            || s.root.xpc_singleton
            || any (λ g. g.0.xpc_singleton || any (λ x. x.xpc_singleton) g.1) s.submgrs)
          ≡ true
    place true root q = ground (arith, h, ap single (some_same jm m q))
    place false true q = ground (arith, h, ap single (some_same s.root m q))
    place false false q = ground (arith, find_among-single s.pid1_magic s.submgrs name m q h)

accepted : (x m : Manager) → accept x ≡ accept m → x ≡ m
accepted x m e = cc

own_single :
    (s : State) (jm m : Manager) → jm ≡ m → m.xpc_singleton ≡ true → has_singleton s jm ≡ true
unfolding has_singleton
own_single s jm m q h = ground (arith, h, ap single q)

pub session_of-single :
    (s : State) (jm m : Manager) (xs : Slots)
    → session_of s jm xs ≡ accept m
    → m.xpc_singleton ≡ true
    → has_singleton s jm ≡ true
unfolding session_of
session_of-single s jm m xs e h = looked_up (dict_lookup xs (codes "LimitLoadToSessionType")) e
  where
    own : jm ≡ m → has_singleton s jm ≡ true
    own q = own_single s jm m q h

    named :
        (o : Option Manager)
        → ((x : Manager) → o ≡ some x → x.xpc_singleton ≡ true → has_singleton s jm ≡ true)
        → elim o [ none ↦ refuse | some x ↦ accept x ] ≡ accept m
        → has_singleton s jm ≡ true
    named none k q = cc
    named (some x) k q = k x refl (ap single (accepted x m q) ∙ h)

    text :
        (v : LaunchData) (o : Option (Option (List ℕ)))
        → elim o [
          | none ↦ fault
          | some name ↦ elim (jobmgr_find_by_name s jm (session_name jm name)) [
            | none ↦ refuse
            | some x ↦ accept x
          ]
        ]
          ≡ accept m
        → has_singleton s jm ≡ true
    text v none q = cc
    text v (some name) q =
        named (jobmgr_find_by_name s jm (session_name jm name))
          (λ x r. jobmgr_find_by_name-single s jm x (session_name jm name) r) q

    given :
        (o : Option LaunchData)
        → elim o [
          | none ↦ accept jm
          | some v ↦
              if is_string v
              then elim (get_text v) [
                | none ↦ fault
                | some name ↦ elim (jobmgr_find_by_name s jm (session_name jm name)) [
                  | none ↦ refuse
                  | some x ↦ accept x
                ]
              ]
              else refuse
        ]
          ≡ accept m
        → has_singleton s jm ≡ true
    given none q = own (accepted jm m q)
    given (some v) q = elim (Bool-cases (is_string v)) [
      | inl k ↦ text v (get_text v) (sym (rw k refl) ∙ q)
      | inr k ↦ cc (k, q)
    ]

    looked_up :
        (o : Option (Option LaunchData))
        → elim o [
          | none ↦ fault
          | some o' ↦ elim o' [
            | none ↦ accept jm
            | some v ↦
                if is_string v
                then elim (get_text v) [
                  | none ↦ fault
                  | some name ↦ elim (jobmgr_find_by_name s jm (session_name jm name)) [
                    | none ↦ refuse
                    | some x ↦ accept x
                  ]
                ]
                else refuse
          ]
        ]
          ≡ accept m
        → has_singleton s jm ≡ true
    looked_up none q = cc
    looked_up (some o) q = given o q
