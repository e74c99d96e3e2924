-- ===== src/Starter/Reached.antt =====
-- SystemStarter/StartupItems.c: StartupItemListCreateDependentsList, from the service to its list.
use launchd.Base.{
  ℕ, suc, ◌≡◌, refl, sym, subst, ◌∙◌, inl, inr, true, not, ◌&&◌, Option, none, some, List, [], ◌∷◌,
  ◌++◌, length, all, arith, some_same, Bool-cases, if◌then◌else◌,
}
use mathlib.Core.List.{Memᴰ}
use mathlib.Core.List.Memᴰ.{head, tail}
use launchd.Starter.Items.{
  Item, Key, provides, Action, start, stop, restart, nothing, contains_item, lists, matches_from,
  copy_matches, get_provider,
}
use launchd.Starter.Dependents.{append_dependents, dependents_of, create_dependents_list}
use launchd.Starter.Growth.{is_closed}
use launchd.Starter.Closure.{ReachesAll}
use launchd.Starter.Walk.{append_dependents-Called}
use launchd.Starter.Enough.{Returns, count_missing_bound, append_dependents-Returns}

-- The provider of a service: the first item that has it among what it provides.
unfoldable pub find_provider : List Item → List ℕ → Option Item
find_provider [] service = none
find_provider (x ∷ xs) service =
    if lists provides service x then some x else find_provider xs service

abbrev first : List Item → Option Item
first [] = none
first (x ∷ xs) = some x

first_stays :
    (r : Item) (rs xs : List Item) (key : Key) (service : List ℕ)
    → first (matches_from (r ∷ rs) xs key service) ≡ some r
unfolding matches_from
first_stays r rs [] key service = refl
first_stays r rs (x ∷ xs) key service =
    elim (Bool-cases (lists key service x && not (contains_item (r ∷ rs) x))) [
      | inl h ↦ rw (matches_from, h) (first_stays r (rs ++ (x ∷ [])) xs key service)
      | inr h ↦ rw (matches_from, h) (first_stays r rs xs key service)
    ]

first_found :
    (xs : List Item) (service : List ℕ)
    → first (matches_from [] xs provides service) ≡ find_provider xs service
unfolding matches_from find_provider
first_found [] service = refl
first_found (x ∷ xs) service = elim (Bool-cases (lists provides service x)) [
  | inl h ↦ rw (h) (first_stays x [] xs provides service)
  | inr h ↦ rw (h) (first_found xs service)
]

taken_first : (xs : List Item) → elim xs [ [] ↦ none | x ∷ rest ↦ some x ] ≡ first xs
taken_first [] = refl
taken_first (x ∷ xs) = refl

get_provider_lem :
    (xs : List Item) (service : List ℕ) → get_provider xs service ≡ find_provider xs service
unfolding get_provider copy_matches
get_provider_lem xs service =
    taken_first (matches_from [] xs provides service) ∙ first_found xs service

find_provider_member :
    (xs : List Item) (service : List ℕ) (x : Item) → find_provider xs service ≡ some x → Memᴰ x xs
unfolding find_provider
find_provider_member [] service x e = cc
find_provider_member (y ∷ ys) service x e = elim (Bool-cases (lists provides service y)) [
  | inl h ↦ head (sym (some_same y x (sym (rw (find_provider, h) refl) ∙ e)))
  | inr h ↦ tail (find_provider_member ys service x (sym (rw (find_provider, h) refl) ∙ e))
]

-- What StartupItemListCreateDependentsList gives: NULL where no item provides the service, or no action is asked;
-- or a list with the provider, that has with each item all items that follow from it, and has none but those
-- that the provider reaches. To start, those follow that provide what the item requires; to stop, those that
-- require what it provides; to restart, none.
pub data IsDependents (items : List Item) (service : List ℕ) (action : Action)
    : Option (List Item) → Type 0 where
  unknown : find_provider items service ≡ none → IsDependents items service action none
  unasked : action ≡ nothing → IsDependents items service action none
  dependents :
      (x : Item) (deps : List Item)
      → find_provider items service ≡ some x
      → contains_item deps x ≡ true
      → all (is_closed items action deps) deps ≡ true
      → ReachesAll items action x deps
      → IsDependents items service action (some deps)

pub data IsAnswer (items : List Item) (service : List ℕ) (action : Action)
    : Option (Option (List Item)) → Type 0 where
  is_answer :
      (r : Option (List Item))
      → IsDependents items service action r
      → IsAnswer items service action (some r)

collected :
    (items : List Item) (service : List ℕ) (action : Action) (x : Item) (o : Option (List Item))
    → find_provider items service ≡ some x
    → append_dependents (suc (length items)) items action [] x ≡ o
    → Returns o
    → IsAnswer items service action (elim o [ none ↦ none | some deps ↦ some (some deps) ])
collected items service action x none f e r = elim r [ ]
collected items service action x (some deps) f e r =
    let called = append_dependents-Called items action (suc (length items)) [] x deps e in
    let same : deps ≡ called.grown.more = called.grown.equal in
    is_answer (some deps) (
      dependents x deps f (called.has)
        (subst (λ l. all (is_closed items action deps) l ≡ true) (sym same) (called.grown.closed))
        (subst (ReachesAll items action x) (sym same) (called.grown.reached)))

returned :
    (items : List Item) (service : List ℕ) (action : Action) (x : Item)
    → find_provider items service ≡ some x
    → Returns (append_dependents (suc (length items)) items action [] x)
returned items service action x f =
    append_dependents-Returns items action (suc (length items)) [] x
      (find_provider_member items service x f) refl (omega (arith, count_missing_bound items []))

asked :
    (items : List Item) (service : List ℕ) (action : Action) (x : Item)
    → find_provider items service ≡ some x
    → IsAnswer items service action (dependents_of items action x)
unfolding dependents_of
asked items service start x f =
    collected items service start x (append_dependents (suc (length items)) items start [] x) f refl
      (returned items service start x f)
asked items service stop x f =
    collected items service stop x (append_dependents (suc (length items)) items stop [] x) f refl
      (returned items service stop x f)
asked items service restart x f =
    collected items service restart x (append_dependents (suc (length items)) items restart [] x) f
      refl (returned items service restart x f)
asked items service nothing x f = is_answer none (unasked refl)

-- For any items, service and action, StartupItemListCreateDependentsList returns. It gives NULL only where no
-- item provides the service or no action is asked, and else a list that holds the first item that provides the
-- service. To start, the list has with each of its items all items that provide a service that the item
-- requires; to stop, all items that require a service that the item provides; to restart, it asks for no
-- more items. It has only items that are reached in this way from the provider.
pub create_dependents_list-IsAnswer :
    (items : List Item) (service : List ℕ) (action : Action)
    → IsAnswer items service action (create_dependents_list items service action)
unfolding create_dependents_list
create_dependents_list-IsAnswer items service action =
    answered (get_provider items service) (get_provider_lem items service)
  where
    answered :
        (o : Option Item)
        → o ≡ find_provider items service
        → IsAnswer items service action
            (elim o [ none ↦ some none | some x ↦ dependents_of items action x ])
    answered none e = is_answer none (unknown (sym e))
    answered (some x) e = asked items service action x (sym e)
