-- ===== src/Starter/Growth.antt =====
-- SystemStarter/StartupItems.c: what appendDependents adds to a list, and that it covers what the
-- parent names.
use launchd.Base.{ℕ, ◌≡◌, refl, arith, Bool, true, not, ◌||◌, List, [], ◌∷◌, ◌++◌, all, any}
use launchd.Starter.Items.{Item, Key, Action, contains_item, lists, same_item}
use launchd.Starter.Dependents.{inner_key, outer_names}

-- An item is in the list if it has the service in the key.
unfoldable pub is_covered : List Item → Key → List ℕ → Item → Bool
unfolding lists
is_covered deps key s x = not (lists key s x) || contains_item deps x

-- What depends on y is in the list.
unfoldable pub is_closed : List Item → Action → List Item → Item → Bool
unfolding is_covered
is_closed items action deps y =
    all (λ s. all (is_covered deps (inner_key action) s) items) (outer_names action y)

pub any_append {ℓ} :
    {A : Type ℓ} (p : A → Bool) (xs ys : List A) → any p (xs ++ ys) ≡ (any p xs || any p ys)
any_append p [] ys = refl
any_append p (x ∷ xs) ys = ground (arith, any_append p xs ys)

pub all_append {ℓ} :
    {A : Type ℓ} (p : A → Bool) (xs ys : List A)
    → all p xs ≡ true
    → all p ys ≡ true
    → all p (xs ++ ys) ≡ true
all_append p [] ys hx hy = hy
all_append p (x ∷ xs) ys hx hy = ground (arith, all_append p xs ys)

pub all_mono {ℓ} :
    {A : Type ℓ} (p q : A → Bool)
    → ((x : A) → p x ≡ true → q x ≡ true)
    → (xs : List A) → all p xs ≡ true
    → all q xs ≡ true
all_mono p q f [] h = refl
all_mono p q f (x ∷ xs) h = ground (arith, f x, all_mono p q f xs)

pub contains_append :
    (deps more : List Item) (x : Item)
    → contains_item deps x ≡ true
    → contains_item (deps ++ more) x ≡ true
contains_append deps more x h = ground (arith, any_append (same_item x) deps more)

pub covered_append :
    (deps more : List Item) (key : Key) (s : List ℕ) (x : Item)
    → is_covered deps key s x ≡ true
    → is_covered (deps ++ more) key s x ≡ true
unfolding is_covered
covered_append deps more key s x h = ground (arith, contains_append deps more x)

pub closed_append :
    (items : List Item) (action : Action) (deps more : List Item) (y : Item)
    → is_closed items action deps y ≡ true
    → is_closed items action (deps ++ more) y ≡ true
unfolding is_closed
closed_append items action deps more y h =
    all_mono _ _ (λ s. all_mono _ _ (covered_append deps more (inner_key action) s) items)
      (outer_names action y) h
