-- ===== src/Data/Dict.antt =====
-- liblaunch/liblaunch.c: arrays, and dictionaries as arrays of alternating keys and values.
-- `none` is a fault: a NULL or mistyped key, or an element past the end.
use launchd.Base.{
  ℕ, zero, suc, ◌+◌, ◌/◌, Bool, true, false, ◌&&◌, Option, none, some, List, [], ◌∷◌, map, leb, ltb,
  ◌==◌, if◌then◌else◌, bytes_eq,
}
use launchd.Data.Types.{LaunchData, dictionary, array, string, Slots, nil, null, slot, c_string}

unfoldable pub slots_count : Slots → ℕ
slots_count nil = 0
slots_count (null xs) = suc (slots_count xs)
slots_count (slot d xs) = suc (slots_count xs)

-- A pointer of the array, or NULL, also past the end.
unfoldable pub get_slot : Slots → ℕ → Option LaunchData
get_slot nil i = none
get_slot (null xs) zero = none
get_slot (slot d xs) zero = some d
get_slot (null xs) (suc i) = get_slot xs i
get_slot (slot d xs) (suc i) = get_slot xs i

-- launch_data_array_set_index: the array grows as needed, by NULL pointers.
unfoldable pub set_index : Slots → LaunchData → ℕ → Slots
set_index nil what zero = slot what nil
set_index nil what (suc i) = null (set_index nil what i)
set_index (null xs) what zero = slot what xs
set_index (slot d xs) what zero = slot what xs
set_index (null xs) what (suc i) = null (set_index xs what i)
set_index (slot d xs) what (suc i) = slot d (set_index xs what i)

unfoldable pub launch_data_array_get_index : LaunchData → ℕ → Option LaunchData
unfolding get_slot
launch_data_array_get_index (array xs) i = get_slot xs i
launch_data_array_get_index _ i = none

unfoldable pub launch_data_array_get_count : LaunchData → ℕ
unfolding slots_count
launch_data_array_get_count (array xs) = slots_count xs
launch_data_array_get_count _ = 0

-- The first element, or NULL, and the rest.
unfoldable pub launch_data_array_pop_first : Slots → Option LaunchData × Slots
launch_data_array_pop_first nil = (none, nil)
launch_data_array_pop_first (null xs) = (none, xs)
launch_data_array_pop_first (slot d xs) = (some d, xs)

-- tolower(3) in the C locale.
unfoldable pub to_lower : ℕ → ℕ
to_lower c = if leb b'A' c && leb c b'Z' then c + 32 else c

-- !strcasecmp(a, b)
unfoldable pub same_name : List ℕ → List ℕ → Bool
unfolding to_lower
same_name a b = bytes_eq (map to_lower a) (map to_lower b)

-- How the loop over the keys of a dictionary ends, with its index.
pub data Find : Type 0 where
  found missing : ℕ → Find
  bad_key : Find

abbrev pub test_key : List ℕ → Option (List ℕ) → ℕ → Find → Find
test_key key none i next = bad_key
test_key key (some k) i next = if same_name key k then found i else next

unfoldable pub find_key : List ℕ → Slots → ℕ → Find
unfolding same_name
find_key key nil i = missing i
find_key key (slot (string text end) nil) i = test_key key (c_string text end) i (missing (i + 2))
find_key key (slot (string text end) (null rest)) i =
    test_key key (c_string text end) i (find_key key rest (i + 2))
find_key key (slot (string text end) (slot v rest)) i =
    test_key key (c_string text end) i (find_key key rest (i + 2))
find_key key _ i = bad_key

-- launch_data_dict_insert, on the array of the dictionary.
unfoldable pub launch_data_dict_insert : Slots → LaunchData → List ℕ → Option Slots
unfolding find_key set_index
launch_data_dict_insert xs what key = elim (find_key key xs 0) [
  | found i ↦ some (set_index (set_index xs (string key 0) i) what (suc i))
  | missing i ↦ some (set_index (set_index xs (string key 0) i) what (suc i))
  | bad_key ↦ none
]

-- The value of a key, or NULL; `none` is a fault.
unfoldable pub dict_lookup : Slots → List ℕ → Option (Option LaunchData)
unfolding find_key get_slot slots_count
dict_lookup xs key = elim (find_key key xs 0) [
  | found i ↦ if ltb (i + 1) (slots_count xs) then some (get_slot xs (i + 1)) else none
  | missing i ↦ some none
  | bad_key ↦ none
]

unfoldable pub launch_data_dict_lookup : LaunchData → List ℕ → Option (Option LaunchData)
unfolding dict_lookup
launch_data_dict_lookup (dictionary xs) key = dict_lookup xs key
launch_data_dict_lookup _ key = some none

unfoldable pub drop_pair : Slots → ℕ → Slots
drop_pair nil i = nil
drop_pair (null nil) zero = nil
drop_pair (null (null xs)) zero = xs
drop_pair (null (slot v xs)) zero = xs
drop_pair (slot d nil) zero = nil
drop_pair (slot d (null xs)) zero = xs
drop_pair (slot d (slot v xs)) zero = xs
drop_pair (null xs) (suc i) = null (drop_pair xs i)
drop_pair (slot d xs) (suc i) = slot d (drop_pair xs i)

-- launch_data_dict_remove: whether the key was there, and what is left. Freeing a NULL value, or
-- memory past the end, is a fault.
unfoldable pub launch_data_dict_remove : Slots → List ℕ → Option (Bool × Slots)
unfolding find_key get_slot slots_count drop_pair
launch_data_dict_remove xs key = elim (find_key key xs 0) [
  | found i ↦ elim (get_slot xs (i + 1)) [ some v ↦ some (true, drop_pair xs i) | none ↦ none ]
  | missing i ↦ if i == slots_count xs then some (false, xs) else none
  | bad_key ↦ none
]

unfoldable pub launch_data_dict_get_count : Slots → ℕ
unfolding slots_count
launch_data_dict_get_count xs = slots_count xs / 2

-- launch_data_dict_iterate: the values and keys that the callback is given, in order.
unfoldable pub launch_data_dict_iterate : Slots → Option (List (Option LaunchData × List ℕ))
launch_data_dict_iterate nil = some []
launch_data_dict_iterate (slot (string text end) (null rest)) = elim (c_string text end) [
  | none ↦ none
  | some k ↦ elim (launch_data_dict_iterate rest) [
    | none ↦ none
    | some visits ↦ some ((none, k) ∷ visits)
  ]
]
launch_data_dict_iterate (slot (string text end) (slot v rest)) = elim (c_string text end) [
  | none ↦ none
  | some k ↦ elim (launch_data_dict_iterate rest) [
    | none ↦ none
    | some visits ↦ some ((some v, k) ∷ visits)
  ]
]
launch_data_dict_iterate _ = none
