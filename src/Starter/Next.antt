-- ===== src/Starter/Next.antt =====
-- SystemStarter/StartupItems.c: StartupItemListGetNext, which picks the item that is run next.
use launchd.Base.{
  ℕ, ◌+◌, Bool, true, false, not, ◌&&◌, ◌||◌, Option, none, some, List, [], ◌∷◌, any, length, ltb,
  ◌==◌, if◌then◌else◌,
}
use launchd.Starter.Items.{
  Item, Key, provides, requires, uses, value_of, Action, start, restart, nothing, Status,
  get_status, copy_matches,
}

abbrev pub has_value {ℓ} : {A : Type ℓ} → Option A → Bool
has_value none = false
has_value (some a) = true

abbrev pub succeeded : Option Bool → Bool
succeeded none = false
succeeded (some b) = b

unfoldable pub count_unmet_requirements : Status → List (List ℕ) → ℕ
unfolding get_status
count_unmet_requirements status [] = 0
count_unmet_requirements status (n ∷ ns) =
    (if succeeded (get_status status n) then 0 else 1) + count_unmet_requirements status ns

unfoldable pub count_dependants_present : List Item → List (List ℕ) → Key → ℕ
unfolding copy_matches
count_dependants_present waiting [] key = 0
count_dependants_present waiting (n ∷ ns) key =
    length (copy_matches waiting key n) + count_dependants_present waiting ns key

-- Some item that would provide a service, or use it, is not running, or the service has no status.
unfoldable pub pending_antecedents : List Item → Status → List (List ℕ) → Action → Bool
unfolding copy_matches get_status
pending_antecedents waiting status antecedents action =
    any
      (λ n.
        any (λ x. not (has_value x.pid) || not (has_value (get_status status n)))
          (copy_matches waiting key n))
      antecedents
  where
    key : Key
    key = elim action [ start ↦ provides | _ ↦ uses ]

-- The domains in which both were found, the item's being the later one.
abbrev pub yields_to : Item → Item → Bool
yields_to x other = elim x.domain [
  | none ↦ false
  | some d ↦ elim other.domain [ none ↦ false | some e ↦ ltb e d ]
]

unfoldable pub is_duplicate_of : List Item → Status → Item → List ℕ → Bool
unfolding copy_matches get_status
is_duplicate_of waiting status x n =
    succeeded (get_status status n)
    || any (λ y. has_value y.pid || yields_to x y) (copy_matches waiting provides n)

unfoldable pub check_for_duplicates : List Item → Status → Item → Bool
unfolding is_duplicate_of
check_for_duplicates waiting status x = elim x.provides [
  | none ↦ false
  | some names ↦ any (is_duplicate_of waiting status x) names
]

-- The antecedents that must be met, and those that are only preferred.
abbrev pub soft_key : Action → Key
soft_key start = uses
soft_key _ = provides

abbrev pub count_names : Option (List (List ℕ)) → (List (List ℕ) → ℕ) → ℕ
count_names none f = 0
count_names (some names) f = f names

unfoldable pub hard_count : List Item → Status → Action → Item → ℕ
unfolding count_unmet_requirements count_dependants_present
hard_count waiting status start x = count_names x.requires (count_unmet_requirements status)
hard_count waiting status action x =
    count_names x.provides (λ names. count_dependants_present waiting names requires)

unfoldable pub soft_count : List Item → Status → Action → Item → ℕ
unfolding count_unmet_requirements count_dependants_present
soft_count waiting status start x = count_names x.uses (count_unmet_requirements status)
soft_count waiting status action x =
    count_names x.provides (λ names. count_dependants_present waiting names uses)

unfoldable pub is_pending : List Item → Status → Action → Item → Bool
unfolding pending_antecedents
is_pending waiting status action x = elim (value_of (soft_key action) x) [
  | none ↦ false
  | some names ↦ pending_antecedents waiting status names action
]

abbrev pub is_restart : Action → Bool
is_restart restart = true
is_restart _ = false

-- What the loop makes of an item: it is passed over, it is the best so far, or it is taken at once.
pub data Verdict : Type 0 where
  pass at_once : Verdict
  best : ℕ → Verdict

-- `least` is the fewest preferred antecedents that failed so far.
unfoldable pub judge : List Item → Status → Action → ℕ → Item → Verdict
unfolding check_for_duplicates hard_count soft_count is_pending
judge waiting status action least x =
    let n = soft_count waiting status action x in
    if has_value x.pid
    then pass
    else if check_for_duplicates waiting status x
    then pass
    else if is_restart action
    then at_once
    else if not (hard_count waiting status action x == 0)
    then pass
    else if ltb 0 n && is_pending waiting status action x
    then pass
    else if ltb least n
    then pass
    else if not (has_value (value_of (soft_key action) x)) && ltb 0 least || ltb n least
    then best n
    else pass

unfoldable pub next_from : List Item → Status → Action → List Item → ℕ → Option Item → Option Item
unfolding judge
next_from waiting status action [] least next = next
next_from waiting status action (x ∷ xs) least next = elim (judge waiting status action least x) [
  | pass ↦ next_from waiting status action xs least next
  | best n ↦ next_from waiting status action xs n (some x)
  | at_once ↦ some x
]

-- INT_MAX
abbrev pub int_max : ℕ
int_max = 2147483647

unfoldable pub get_next : List Item → Status → Action → Option Item
unfolding next_from
get_next waiting status nothing = none
get_next waiting status action = next_from waiting status action waiting int_max none
