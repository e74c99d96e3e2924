-- ===== src/Starter/Items.antt =====
-- SystemStarter/StartupItems.c: startup items, their lists, and the status of services.
use launchd.Base.{
  ℕ, ◌+◌, Bool, false, not, ◌&&◌, Option, none, some, List, [], ◌∷◌, ◌++◌, any, length,
  if◌then◌else◌, bytes_eq, codes,
}

-- The process that was started for an item; -1 where it could not be.
pub data Pid : Type 0 where
  failed : Pid
  process : ℕ → Pid

pub data Error : Type 0 where
  permissions fork return_non_zero : Error

-- The dictionary of an item, by the keys that are read. An array that is missing is none.
pub record Item : Type 0 where
  pub path : List ℕ
  pub provides : Option (List (List ℕ))
  pub requires : Option (List (List ℕ))
  pub uses : Option (List (List ℕ))
  pub pid : Option Pid
  pub domain : Option ℕ
  pub error : Option Error

pub data Key : Type 0 where
  provides requires uses : Key

abbrev pub value_of : Key → Item → Option (List (List ℕ))
value_of provides x = x.provides
value_of requires x = x.requires
value_of uses x = x.uses

pub data Action : Type 0 where
  start stop restart nothing : Action

-- Each item is of a bundle of its own, so that two dictionaries are equal where their paths are.
abbrev pub same_item : Item → Item → Bool
same_item a b = bytes_eq a.path b.path

-- CFArrayContainsValue.
abbrev pub contains_item : List Item → Item → Bool
contains_item xs x = any (same_item x) xs

abbrev pub contains_name : List (List ℕ) → List ℕ → Bool
contains_name names name = any (bytes_eq name) names

unfoldable pub lists : Key → List ℕ → Item → Bool
lists key service x = elim (value_of key x) [
  | none ↦ false
  | some names ↦ contains_name names service
]

-- The loop of startupItemListCopyMatches.
unfoldable pub matches_from : List Item → List Item → Key → List ℕ → List Item
unfolding lists
matches_from result [] key service = result
matches_from result (x ∷ xs) key service =
    matches_from
      (if lists key service x && not (contains_item result x) then result ++ (x ∷ []) else result)
      xs key service

unfoldable pub copy_matches : List Item → Key → List ℕ → List Item
unfolding matches_from
copy_matches items key service = matches_from [] items key service

unfoldable pub get_provider : List Item → List ℕ → Option Item
unfolding copy_matches
get_provider items service = elim (copy_matches items provides service) [
  | [] ↦ none
  | x ∷ xs ↦ some x
]

-- CFArrayGetFirstIndexOfValue and CFArrayRemoveValueAtIndex.
unfoldable pub remove_item : List Item → Item → List Item
remove_item [] x = []
remove_item (y ∷ ys) x = if same_item x y then ys else y ∷ remove_item ys x

-- An item is one object in all lists: what is set in it is seen in the waiting list.
unfoldable pub update_item : List Item → Item → (Item → Item) → List Item
update_item [] x f = []
update_item (y ∷ ys) x f = if same_item x y then f y ∷ ys else y ∷ update_item ys x f

unfoldable pub count_services : List Item → ℕ
count_services [] = 0
count_services (x ∷ xs) =
    elim x.provides [ none ↦ 0 | some names ↦ length names ] + count_services xs

-- The status of services, true for kRunSuccess.
abbrev pub Status : Type 0
Status = List (List ℕ × Bool)

unfoldable pub get_status : Status → List ℕ → Option Bool
get_status [] name = none
get_status ((n, b) ∷ rest) name = if bytes_eq name n then some b else get_status rest name

-- CFDictionaryAddValue leaves a value that is there, and CFDictionarySetValue replaces it.
unfoldable pub add_value : Status → List ℕ → Bool → Status
unfolding get_status
add_value status name b = elim (get_status status name) [
  | none ↦ (name, b) ∷ status
  | some old ↦ status
]

unfoldable pub set_value : Status → List ℕ → Bool → Status
set_value [] name b = (name, b) ∷ []
set_value ((n, old) ∷ rest) name b =
    if bytes_eq name n then (n, b) ∷ rest else (n, old) ∷ set_value rest name b

-- The services that are no longer startup items.
abbrev pub stubs : List (List ℕ)
stubs =
    codes "Accounting"
    ∷ codes "System Tuning"
    ∷ codes "SecurityServer"
    ∷ codes "Portmap"
    ∷ codes "System Log"
    ∷ codes "Resolver"
    ∷ codes "LDAP"
    ∷ codes "NetInfo"
    ∷ codes "NetworkExtensions"
    ∷ codes "DirectoryServices"
    ∷ codes "Network Configuration"
    ∷ codes "mDNSResponder"
    ∷ codes "Cron"
    ∷ codes "Core Graphics"
    ∷ codes "Core Services"
    ∷ codes "Network"
    ∷ codes "TIM"
    ∷ codes "Disks"
    ∷ codes "NIS"
    ∷ []

unfoldable pub keep_names : List (List ℕ) → List (List ℕ)
keep_names [] = []
keep_names (n ∷ ns) = if contains_name stubs n then keep_names ns else n ∷ keep_names ns

abbrev pub keep_in : Option (List (List ℕ)) → Option (List (List ℕ))
keep_in none = none
keep_in (some names) = some (keep_names names)

-- SpecialCasesStartupItemHandler, which takes them out of what an item requires and uses.
unfoldable pub special_cases : Item → Item
unfolding keep_names
special_cases x = record x { requires = keep_in x.requires; uses = keep_in x.uses }
