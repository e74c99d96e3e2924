-- ===== src/Starter/Dependents.antt =====
-- SystemStarter/StartupItems.c: appendDependents and StartupItemListCreateDependentsList.
use launchd.Base.{
  ℕ, zero, suc, true, false, not, ◌&&◌, Option, none, some, List, [], ◌∷◌, ◌++◌, length,
  if◌then◌else◌,
}
use launchd.Starter.Items.{
  Item, Key, provides, requires, Action, start, stop, nothing, contains_item, lists, get_provider,
}

-- The keys through which dependents are found: of the items of the list, and of the parent.
abbrev pub inner_key : Action → Key
inner_key start = provides
inner_key _ = requires

abbrev pub outer_names : Action → Item → List (List ℕ)
outer_names start x = elim x.requires [ none ↦ [] | some names ↦ names ]
outer_names stop x = elim x.provides [ none ↦ [] | some names ↦ names ]
outer_names _ x = []

abbrev pub append_item : List Item → Item → List Item
append_item deps x = if contains_item deps x then deps else deps ++ (x ∷ [])

-- The inner loop, over the items; `append` is the recursive call. The results are none where it has no
-- fuel.
unfoldable pub walk_items :
    (List Item → Item → Option (List Item))
    → Key
    → List ℕ
    → List Item
    → List Item
    → Option (List Item)
unfolding lists
walk_items append key service [] deps = some deps
walk_items append key service (x ∷ xs) deps =
    elim (lists key service x && not (contains_item deps x)) [
      | true ↦ elim (append deps x) [
        | none ↦ none
        | some deps' ↦ walk_items append key service xs deps'
      ]
      | false ↦ walk_items append key service xs deps
    ]

-- The outer loop, over what the parent requires or provides.
unfoldable pub walk_names :
    (List Item → Item → Option (List Item))
    → Key
    → List (List ℕ)
    → List Item
    → List Item
    → Option (List Item)
unfolding walk_items
walk_names append key [] items deps = some deps
walk_names append key (s ∷ ss) items deps = elim (walk_items append key s items deps) [
  | none ↦ none
  | some deps' ↦ walk_names append key ss items deps'
]

unfoldable pub append_dependents : ℕ → List Item → Action → List Item → Item → Option (List Item)
unfolding walk_names
append_dependents zero items action deps parent = none
append_dependents (suc fuel) items action deps parent =
    walk_names (append_dependents fuel items action) (inner_key action) (outer_names action parent)
      items (append_item deps parent)

-- What StartupItemListCreateDependentsList gives: NULL, or a list.
unfoldable pub dependents_of : List Item → Action → Item → Option (Option (List Item))
unfolding append_dependents
dependents_of items nothing x = some none
dependents_of items action x = elim (append_dependents (suc (length items)) items action [] x) [
  | none ↦ none
  | some deps ↦ some (some deps)
]

unfoldable pub create_dependents_list : List Item → List ℕ → Action → Option (Option (List Item))
unfolding get_provider dependents_of
create_dependents_list items service action = elim (get_provider items service) [
  | none ↦ some none
  | some x ↦ dependents_of items action x
]
