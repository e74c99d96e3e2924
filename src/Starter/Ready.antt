-- ===== src/Starter/Ready.antt =====
-- SystemStarter/StartupItems.c: the conditions under which an item is picked to be started.
use launchd.Base.{
  ℕ, ◌≡◌, refl, ap, sym, subst, ◌∙◌, inl, inr, Bool, true, false, ◌||◌, Option, none, some, List,
  [], ◌∷◌, any, all, arith, Bool-cases, some_same,
}
use launchd.Starter.Items.{Item, start, Status, get_status}
use launchd.Starter.Next.{
  has_value, succeeded, count_unmet_requirements, count_names, is_duplicate_of,
  check_for_duplicates, hard_count, soft_count, int_max, get_next,
}
use launchd.Starter.Chosen.{may_run, IsPick, no_pick, pick, get_next-IsPick}

abbrev pub names_in : Option (List (List ℕ)) → List (List ℕ)
names_in none = []
names_in (some names) = names

pub picked :
    (p : Item → Bool) (f : Item → ℕ) (bound : ℕ) (xs : List Item) (next : Option Item) (x : Item)
    → IsPick p f bound xs next
    → next ≡ some x
    → p x ≡ true
picked p f bound xs next x (no_pick seen h) e = cc
picked p f bound xs next x (pick before y after py fy less enough) e =
    subst (λ z. p z ≡ true) (some_same y x e) py

unmet_none :
    (status : Status) (names : List (List ℕ))
    → count_unmet_requirements status names ≡ 0
    → all (λ n. succeeded (get_status status n)) names ≡ true
unfolding count_unmet_requirements
unmet_none status [] h = refl
unmet_none status (n ∷ ns) h = elim (Bool-cases (succeeded (get_status status n))) [
  | inl e ↦ rw e (unmet_none status ns (ground (arith, e, h)))
  | inr e ↦ absurd (ground (arith, e, h))
]

any-none :
    (p q : List ℕ → Bool) (names : List (List ℕ))
    → ((n : List ℕ) → p n ≡ false → q n ≡ false)
    → any p names ≡ false
    → any q names ≡ false
any-none p q [] i h = refl
any-none p q (n ∷ ns) i h = elim (Bool-cases (p n)) [
  | inl e ↦ cc (e, h)
  | inr e ↦ rw (i n e) (any-none p q ns i (ap (λ b. b || any p ns) (sym e) ∙ h))
]

-- An item that StartupItemListGetNext picks to be started has not been run, all services that it
-- requires have succeeded, and none of those that it provides has.
pub get_next-ready :
    (waiting : List Item) (status : Status) (x : Item)
    → get_next waiting status start ≡ some x
    → (has_value x.pid ≡ false)
      × (all (λ n. succeeded (get_status status n)) (names_in x.requires) ≡ true)
      × (any (λ n. succeeded (get_status status n)) (names_in x.provides) ≡ false)
unfolding may_run hard_count check_for_duplicates is_duplicate_of
get_next-ready waiting status x h =
    let ok : may_run waiting status start x ≡ true =
      picked (may_run waiting status start) (soft_count waiting status start) int_max waiting
        (get_next waiting status start) x (get_next-IsPick waiting status start (inl refl)) h in
    (
      ground (arith, ok),
      required x.requires (ground (arith, ok)),
      provided x.provides (ground (arith, ok)),
    )
  where
    required :
        (o : Option (List (List ℕ)))
        → count_names o (count_unmet_requirements status) ≡ 0
        → all (λ n. succeeded (get_status status n)) (names_in o) ≡ true
    required none e = refl
    required (some names) e = unmet_none status names e

    provided :
        (o : Option (List (List ℕ)))
        → elim o [ none ↦ false | some names ↦ any (is_duplicate_of waiting status x) names ]
          ≡ false
        → any (λ n. succeeded (get_status status n)) (names_in o) ≡ false
    provided none e = refl
    provided (some names) e =
        any-none (is_duplicate_of waiting status x) (λ n. succeeded (get_status status n)) names
          (λ n k. ground (arith, k)) e
