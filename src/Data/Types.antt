-- ===== src/Data/Types.antt =====
-- liblaunch/liblaunch.c: `struct _launch_data`, its allocation and its copies.
use launchd.Base.{ℕ, zero, suc, List, [], ◌∷◌, Option, none, some}

-- The types whose value is in the structure itself.
pub data Scalar : Type 0 where
  fd integer real boolean errno machport : Scalar

-- `scalar` has the first word of the union, a 64-bit pattern. A string has its `string_len` bytes and
-- the byte after them, which ends it where it is 0; `no_string` is one that was not set yet.
mutual
  pub data LaunchData : Type 0 where
    dictionary : Slots → LaunchData
    array : Slots → LaunchData
    string : List ℕ → ℕ → LaunchData
    no_string : LaunchData
    opaque : List ℕ → LaunchData
    scalar : Scalar → ℕ → LaunchData

  -- The elements of `_array`; `null` is a NULL pointer.
  pub data Slots : Type 0 where
    nil : Slots
    null : Slots → Slots
    slot : LaunchData → Slots → Slots

-- launch_data_type_t
pub data Kind : Type 0 where
  dictionary array string opaque : Kind
  scalar : Scalar → Kind

unfoldable pub launch_data_get_type : LaunchData → Kind
launch_data_get_type (dictionary xs) = dictionary
launch_data_get_type (array xs) = array
launch_data_get_type (string text end) = string
launch_data_get_type no_string = string
launch_data_get_type (opaque bytes) = opaque
launch_data_get_type (scalar t w) = scalar t

unfoldable pub launch_data_alloc : Kind → LaunchData
launch_data_alloc dictionary = dictionary nil
launch_data_alloc array = array nil
launch_data_alloc string = no_string
launch_data_alloc opaque = opaque []
launch_data_alloc (scalar t) = scalar t 0

-- `none` is a fault: strdup(NULL). A string is copied up to its NUL.
abbrev pub c_string : List ℕ → ℕ → Option (List ℕ)
c_string [] zero = some []
c_string [] (suc end) = none
c_string (zero ∷ text) end = some []
c_string (suc c ∷ text) end = elim (c_string text end) [ none ↦ none | some s ↦ some (suc c ∷ s) ]
