-- ===== src/Starter/Enough.antt =====
-- SystemStarter/StartupItems.c: appendDependents returns, since each call adds an item of the list.
use launchd.Base.{
  ℕ, zero, suc, ◌+◌, ◌<◌, ◌≤◌, ◌≡◌, refl, sym, inl, inr, false, not, ◌&&◌, Option, none, some, List,
  [], ◌∷◌, ◌++◌, length, arith, Bool-cases, if◌then◌else◌, bytes_eq_refl,
}
use mathlib.Core.List.{Memᴰ}
use mathlib.Core.List.Memᴰ.{head, tail}
use launchd.Starter.Items.{Item, Action, contains_item, same_item, lists}
use launchd.Starter.Dependents.{
  inner_key, outer_names, append_item, walk_items, walk_names, append_dependents,
}
use launchd.Starter.Growth.{any_append, contains_append}
use launchd.Starter.Closure.{Grown}
use launchd.Starter.Walk.{Calls, walk_items-Walked, append_dependents-Called}

-- How many of the items are not in the list.
unfoldable pub count_missing : List Item → List Item → ℕ
count_missing [] deps = 0
count_missing (x ∷ xs) deps = (if contains_item deps x then 0 else 1) + count_missing xs deps

count_missing-append :
    (xs deps more : List Item) → count_missing xs (deps ++ more) ≤ count_missing xs deps
unfolding count_missing
count_missing-append [] deps more = omega arith
count_missing-append (x ∷ xs) deps more =
    ground (arith, count_missing-append xs deps more, contains_append deps more x)

count_missing_less :
    (xs deps : List Item) (x : Item)
    → Memᴰ x xs
    → contains_item deps x ≡ false
    → count_missing xs (deps ++ (x ∷ [])) < count_missing xs deps
unfolding count_missing
count_missing_less [] deps x m h = elim m [ ]
count_missing_less (y ∷ ys) deps x (head e) h = rw (sym e) (
    ground (
      arith,
      h,
      count_missing-append ys deps (x ∷ []),
      any_append (same_item x) deps (x ∷ []),
      bytes_eq_refl (x.path),
    ))
count_missing_less (y ∷ ys) deps x (tail m) h =
    ground (arith, count_missing_less ys deps x m h, contains_append deps (x ∷ []) y)

pub count_missing_bound : (xs deps : List Item) → count_missing xs deps ≤ length xs
unfolding count_missing
count_missing_bound [] deps = omega arith
count_missing_bound (x ∷ xs) deps = ground (arith, count_missing_bound xs deps)

pub data Returns : Option (List Item) → Type 0 where
  returns : (deps : List Item) → Returns (some deps)

returns_to :
    (o : Option (List Item))
    → Returns o
    → (f : List Item → Option (List Item)) → ((d : List Item) → o ≡ some d → Returns (f d))
    → Returns (elim o [ none ↦ none | some d ↦ f d ])
returns_to none r f k = elim r [ ]
returns_to (some d) (returns _) f k = k d refl

module _ (items : List Item) (action : Action) where
  less_missing :
      (p : Item) (deps deps' : List Item)
      → Grown items action p deps deps'
      → count_missing items deps' ≤ count_missing items deps
  less_missing p deps deps' g = rw (g.equal) (count_missing-append items deps (g.more))

  module _ (p : Item) (append : List Item → Item → Option (List Item))
      (calls : Calls items action append) (n : ℕ)
      (enough : (deps : List Item) (x : Item)
        → Memᴰ x items
        → contains_item deps x ≡ false
        → count_missing items deps ≤ n
        → Returns (append deps x)) where
    walk_items-Returns :
        (s : List ℕ) (xs deps : List Item)
        → ((x : Item) → Memᴰ x xs → Memᴰ x items)
        → count_missing items deps ≤ n
        → Returns (walk_items append (inner_key action) s xs deps)
    unfolding walk_items
    walk_items-Returns s [] deps sub h = returns deps
    walk_items-Returns s (x ∷ xs) deps sub h =
        elim (Bool-cases (lists (inner_key action) s x && not (contains_item deps x))) [
          | inr l ↦ rw (walk_items, l) (walk_items-Returns s xs deps (λ y i. sub y (tail i)) h)
          | inl l ↦
              rw (walk_items, l)
                (returns_to (append deps x)
                  (enough deps x (sub x (head refl)) (ground (arith, l)) h)
                  (walk_items append (inner_key action) s xs)
                  (λ d e.
                    walk_items-Returns s xs d (λ y i. sub y (tail i))
                      (omega (arith, h, less_missing x deps d ((calls deps x d e).grown)))))
        ]

    walk_names-Returns :
        (ss : List (List ℕ)) (deps : List Item)
        → ((s : List ℕ) → Memᴰ s ss → Memᴰ s (outer_names action p))
        → count_missing items deps ≤ n
        → Returns (walk_names append (inner_key action) ss items deps)
    unfolding walk_names
    walk_names-Returns [] deps sub h = returns deps
    walk_names-Returns (s ∷ ss) deps sub h =
        returns_to (walk_items append (inner_key action) s items deps)
          (walk_items-Returns s items deps (λ x i. i) h)
          (walk_names append (inner_key action) ss items)
          (λ d e.
            walk_names-Returns ss d (λ t i. sub t (tail i))
              (omega (
                arith,
                h,
                less_missing p deps d (
                    (walk_items-Walked items action p append calls s items deps d
                      (sub s (head refl)) (λ x i. i) e).grown),
              )))

  less_with_parent :
      (deps : List Item) (p : Item)
      → Memᴰ p items
      → contains_item deps p ≡ false
      → count_missing items (append_item deps p) < count_missing items deps
  less_with_parent deps p m c = rw c (count_missing_less items deps p m c)

  pub append_dependents-Returns :
      (fuel : ℕ) (deps : List Item) (p : Item)
      → Memᴰ p items
      → contains_item deps p ≡ false
      → count_missing items deps ≤ fuel
      → Returns (append_dependents fuel items action deps p)
  unfolding append_dependents
  append_dependents-Returns zero deps p m c h =
      absurd (omega (arith, h, count_missing_less items deps p m c))
  append_dependents-Returns (suc fuel) deps p m c h =
      walk_names-Returns p (append_dependents fuel items action)
        (append_dependents-Called items action fuel) fuel (append_dependents-Returns fuel)
        (outer_names action p) (append_item deps p) (λ s i. i)
        (omega (arith, h, less_with_parent deps p m c))
