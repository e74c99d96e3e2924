-- ===== src/Data/Copy.antt =====
-- liblaunch/liblaunch.c: launch_data_copy.
use launchd.Base.{ℕ, Option, none, some, List, length, ◌==◌, if◌then◌else◌}
use launchd.Data.Types.{
  LaunchData, dictionary, array, string, no_string, opaque, scalar, Slots, nil, null, slot,
  c_string,
}

-- strdup(3) copies up to the first NUL, while `string_len` is kept. `none` is a fault: of a NULL
-- string, of one that does not end, or a copy that is shorter than its length.
unfoldable pub copy_string : List ℕ → ℕ → Option LaunchData
copy_string text end = elim (c_string text end) [
  | none ↦ none
  | some s ↦ if length s == length text then some (string s 0) else none
]

abbrev make_copy : (Slots → LaunchData) → Option Slots → Option LaunchData
make_copy make none = none
make_copy make (some xs) = some (make xs)

abbrev add_null : Option Slots → Option Slots
add_null none = none
add_null (some xs) = some (null xs)

abbrev add_copy : Option LaunchData → Option Slots → Option Slots
add_copy none xs = none
add_copy (some d) none = none
add_copy (some d) (some xs) = some (slot d xs)

unfoldable mutual
  unfolding copy_string

  pub launch_data_copy : LaunchData → Option LaunchData
  launch_data_copy (dictionary xs) = make_copy dictionary (copy_slots xs)
  launch_data_copy (array xs) = make_copy array (copy_slots xs)
  launch_data_copy (string text end) = copy_string text end
  launch_data_copy no_string = none
  launch_data_copy (opaque bytes) = some (opaque bytes)
  launch_data_copy (scalar t w) = some (scalar t w)

  pub copy_slots : Slots → Option Slots
  copy_slots nil = some nil
  copy_slots (null xs) = add_null (copy_slots xs)
  copy_slots (slot d xs) = add_copy (launch_data_copy d) (copy_slots xs)
