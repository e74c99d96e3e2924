-- ===== src/Starter/Sums.antt =====
-- SystemStarter/StartupItems.c: lists of items that have different bundles, when one of them is changed or
-- removed.
use launchd.Base.{
  ℕ, ◌+◌, ◌≡◌, refl, ap, sym, subst, ◌∙◌, ◌⊎◌, inl, inr, Bool, true, false, not, ◌&&◌, Option, none,
  some, List, [], ◌∷◌, any, arith, some_same, Bool-cases, bytes_eq, bytes_eq_refl, bytes_eq→eq,
}
use mathlib.Core.List.{Memᴰ}
use mathlib.Core.List.Memᴰ.{head, tail}
use launchd.Starter.Items.{
  Item, Action, Status, start, stop, restart, nothing, contains_item, same_item, remove_item,
  update_item,
}
use launchd.Starter.Next.{
  judge, next_from, get_next, has_value, Verdict, pass, at_once, best, int_max,
}

unfoldable pub is_distinct : List Item → Bool
is_distinct [] = true
is_distinct (x ∷ xs) = not (contains_item xs x) && is_distinct xs

unfoldable pub sum_of : (Item → ℕ) → List Item → ℕ
sum_of f [] = 0
sum_of f (x ∷ xs) = f x + sum_of f xs

member_contained :
    (xs : List Item) (x y : Item) → Memᴰ x xs → same_item x y ≡ true → contains_item xs y ≡ true
member_contained [] x y m h = elim m [ ]
member_contained (z ∷ xs) x y (head e) h =
    rw (sym (ap (λ w. w.path) e), sym (bytes_eq→eq (x.path) (y.path) h), bytes_eq_refl (x.path))
      refl
member_contained (z ∷ xs) x y (tail m) h = ground (arith, member_contained xs x y m h)

other_item :
    (y : Item) (ys : List Item) (x : Item)
    → is_distinct (y ∷ ys) ≡ true
    → Memᴰ x ys
    → same_item x y ≡ false
unfolding is_distinct
other_item y ys x d m = elim (Bool-cases (same_item x y)) [
  | inl h ↦
      cc (sym (member_contained ys x y m h) ∙ distinct_head (contains_item ys y) (is_distinct ys) d)
  | inr h ↦ h
]
  where
    distinct_head : (b c : Bool) → (not b && c) ≡ true → b ≡ false
    distinct_head b c h = ground (arith, h)

distinct_tail : (y : Item) (ys : List Item) → is_distinct (y ∷ ys) ≡ true → is_distinct ys ≡ true
unfolding is_distinct
distinct_tail y ys d = ground (arith, d)

pub sum_of-remove_item :
    (f : Item → ℕ) (xs : List Item) (x : Item)
    → is_distinct xs ≡ true
    → Memᴰ x xs
    → sum_of f (remove_item xs x) + f x ≡ sum_of f xs
unfolding sum_of remove_item
sum_of-remove_item f [] x d m = elim m [ ]
sum_of-remove_item f (y ∷ ys) x d (head e) = rw (sym e, bytes_eq_refl (x.path)) (omega arith)
sum_of-remove_item f (y ∷ ys) x d (tail m) =
    rw (other_item y ys x d m) (omega (arith, sum_of-remove_item f ys x (distinct_tail y ys d) m))

pub sum_of-update_item :
    (f : Item → ℕ) (xs : List Item) (x : Item) (g : Item → Item)
    → is_distinct xs ≡ true
    → Memᴰ x xs
    → sum_of f (update_item xs x g) + f x ≡ sum_of f xs + f (g x)
unfolding sum_of update_item
sum_of-update_item f [] x g d m = elim m [ ]
sum_of-update_item f (y ∷ ys) x g d (head e) = rw (sym e, bytes_eq_refl (x.path)) (omega arith)
sum_of-update_item f (y ∷ ys) x g d (tail m) =
    rw (other_item y ys x d m) (omega (arith, sum_of-update_item f ys x g (distinct_tail y ys d) m))

contains-remove_item :
    (xs : List Item) (x z : Item)
    → contains_item xs z ≡ false
    → contains_item (remove_item xs x) z ≡ false
unfolding remove_item
contains-remove_item [] x z h = refl
contains-remove_item (y ∷ ys) x z h = ground (arith, contains-remove_item ys x z)

pub is_distinct-remove_item :
    (xs : List Item) (x : Item) → is_distinct xs ≡ true → is_distinct (remove_item xs x) ≡ true
unfolding is_distinct remove_item
is_distinct-remove_item [] x d = refl
is_distinct-remove_item (y ∷ ys) x d =
    ground (arith, is_distinct-remove_item ys x, contains-remove_item ys x y)

contains-update_item :
    (xs : List Item) (x z : Item) (g : Item → Item)
    → ((y : Item) → same_item x y ≡ true → (g y).path ≡ y.path)
    → contains_item (update_item xs x g) z ≡ contains_item xs z
unfolding update_item
contains-update_item [] x z g k = refl
contains-update_item (y ∷ ys) x z g k = elim (Bool-cases (same_item x y)) [
  | inl h ↦ rw (h, k y h) refl
  | inr h ↦ rw (h, contains-update_item ys x z g k) refl
]

contains_path :
    (xs : List Item) (y z : Item) → y.path ≡ z.path → contains_item xs y ≡ contains_item xs z
contains_path xs y z e = ap (λ p. any (λ w. bytes_eq p w.path) xs) e

pub is_distinct-update_item :
    (xs : List Item) (x : Item) (g : Item → Item)
    → ((y : Item) → same_item x y ≡ true → (g y).path ≡ y.path)
    → is_distinct xs ≡ true
    → is_distinct (update_item xs x g) ≡ true
unfolding is_distinct update_item
is_distinct-update_item [] x g k d = refl
is_distinct-update_item (y ∷ ys) x g k d = elim (Bool-cases (same_item x y)) [
  | inl h ↦ rw (h, contains_path ys (g y) y (k y h)) d
  | inr h ↦
      rw (h, contains-update_item ys x y g k) (ground (arith, d, is_distinct-update_item ys x g k))
]

-- What StartupItemListGetNext gives is an item of the list that is not running.
pub record Fresh (xs : List Item) (x : Item) : Type 0 where
  pub member : Memᴰ x xs
  pub unset : has_value x.pid ≡ false

judge-pass :
    (waiting : List Item) (status : Status) (action : Action) (least : ℕ) (x : Item)
    → has_value x.pid ≡ true
    → judge waiting status action least x ≡ pass
unfolding judge
judge-pass waiting status action least x h = rw h refl

next_from-Fresh :
    (waiting : List Item) (status : Status) (action : Action) (xs : List Item) (least : ℕ)
    (next : Option Item) (x : Item)
    → ((y : Item) → Memᴰ y xs → Memᴰ y waiting)
    → ((y : Item) → next ≡ some y → Fresh waiting y)
    → next_from waiting status action xs least next ≡ some x
    → Fresh waiting x
unfolding next_from
next_from-Fresh waiting status action [] least next x sub k e = k x e
next_from-Fresh waiting status action (y ∷ ys) least next x sub k e =
    judged (judge waiting status action least y) refl (Bool-cases (has_value y.pid))
      (λ n o. next_from-Fresh waiting status action ys n o x (λ z m. sub z (tail m))) e
  where
    judged :
        (v : Verdict)
        → judge waiting status action least y ≡ v
        → (has_value y.pid ≡ true) ⊎ (has_value y.pid ≡ false)
        → ((n : ℕ) (o : Option Item)
            → ((z : Item) → o ≡ some z → Fresh waiting z)
            → next_from waiting status action ys n o ≡ some x
            → Fresh waiting x)
        → elim v [
          | pass ↦ next_from waiting status action ys least next
          | best n ↦ next_from waiting status action ys n (some y)
          | at_once ↦ some y
        ]
          ≡ some x
        → Fresh waiting x
    judged pass j b rest e' = rest least next k e'
    judged (best n) j (inl h) rest e' = cc (sym (judge-pass waiting status action least y h) ∙ j)
    judged (best n) j (inr h) rest e' =
        rest n (some y)
          (λ z q.
            subst (Fresh waiting) (some_same y z q)
              (record { member = sub y (head refl); unset = h }))
          e'
    judged at_once j (inl h) rest e' = cc (sym (judge-pass waiting status action least y h) ∙ j)
    judged at_once j (inr h) rest e' =
        subst (Fresh waiting) (some_same y x e') (record { member = sub y (head refl); unset = h })

pub get_next-Fresh :
    (waiting : List Item) (status : Status) (action : Action) (x : Item)
    → get_next waiting status action ≡ some x
    → Fresh waiting x
unfolding get_next
get_next-Fresh waiting status start x e =
    next_from-Fresh waiting status start waiting int_max none x (λ y m. m) (λ y q. cc) e
get_next-Fresh waiting status stop x e =
    next_from-Fresh waiting status stop waiting int_max none x (λ y m. m) (λ y q. cc) e
get_next-Fresh waiting status restart x e =
    next_from-Fresh waiting status restart waiting int_max none x (λ y m. m) (λ y q. cc) e
get_next-Fresh waiting status nothing x e = cc
