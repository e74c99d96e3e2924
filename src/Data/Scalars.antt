-- ===== src/Data/Scalars.antt =====
-- liblaunch/liblaunch.c: the getters and setters of values that fit a word, which look at no type, and
-- those of strings and opaque data. `none` is an access through the wrong member of the union.
use launchd.Base.{
  ℕ, ◌+◌, ◌%◌, ◌<◌, Bool, not, ◌≡◌, Option, none, some, List, ltb, ◌==◌, if◌then◌else◌, arith,
}
use launchd.Data.Types.{Scalar, LaunchData, string, no_string, opaque, scalar}

-- The conversion of an int, as a 32-bit pattern, to 64 bits.
unfoldable pub sign_extend : ℕ → ℕ
sign_extend e = if ltb e 2147483648 then e else e + 18446744069414584320

abbrev pub int_of : ℕ → ℕ
int_of w = w % 4294967296

unfoldable pub set_word : LaunchData → ℕ → Option LaunchData
set_word (scalar t old) w = some (scalar t w)
set_word _ w = none

unfoldable pub get_word : LaunchData → Option ℕ
get_word (scalar t w) = some w
get_word _ = none

unfoldable pub launch_data_set_errno : LaunchData → ℕ → Option LaunchData
unfolding set_word sign_extend
launch_data_set_errno d e = set_word d (sign_extend e)

unfoldable pub launch_data_set_fd : LaunchData → ℕ → Option LaunchData
unfolding set_word sign_extend
launch_data_set_fd d f = set_word d (sign_extend f)

unfoldable pub launch_data_set_machport : LaunchData → ℕ → Option LaunchData
unfolding set_word
launch_data_set_machport d p = set_word d p

unfoldable pub launch_data_set_integer : LaunchData → ℕ → Option LaunchData
unfolding set_word
launch_data_set_integer d n = set_word d n

unfoldable pub launch_data_set_bool : LaunchData → Bool → Option LaunchData
unfolding set_word
launch_data_set_bool d b = set_word d (if b then 1 else 0)

unfoldable pub launch_data_set_real : LaunchData → ℕ → Option LaunchData
unfolding set_word
launch_data_set_real d bits = set_word d bits

abbrev pub int_result : Option ℕ → Option ℕ
int_result none = none
int_result (some w) = some (int_of w)

abbrev pub bool_result : Option ℕ → Option Bool
bool_result none = none
bool_result (some w) = some (not (w == 0))

unfoldable pub launch_data_get_errno : LaunchData → Option ℕ
unfolding get_word
launch_data_get_errno d = int_result (get_word d)

unfoldable pub launch_data_get_fd : LaunchData → Option ℕ
unfolding get_word
launch_data_get_fd d = int_result (get_word d)

unfoldable pub launch_data_get_machport : LaunchData → Option ℕ
unfolding get_word
launch_data_get_machport d = int_result (get_word d)

unfoldable pub launch_data_get_integer : LaunchData → Option ℕ
unfolding get_word
launch_data_get_integer d = get_word d

unfoldable pub launch_data_get_bool : LaunchData → Option Bool
unfolding get_word
launch_data_get_bool d = bool_result (get_word d)

unfoldable pub launch_data_get_real : LaunchData → Option ℕ
unfolding get_word
launch_data_get_real d = get_word d

-- The argument has no NUL inside it.
unfoldable pub launch_data_set_string : LaunchData → List ℕ → Option LaunchData
launch_data_set_string (string text end) s = some (string s 0)
launch_data_set_string no_string s = some (string s 0)
launch_data_set_string _ s = none

unfoldable pub launch_data_set_opaque : LaunchData → List ℕ → Option LaunchData
launch_data_set_opaque (opaque old) bytes = some (opaque bytes)
launch_data_set_opaque _ bytes = none

-- A NULL result is `none`.
unfoldable pub launch_data_get_string : LaunchData → Option (List ℕ)
launch_data_get_string (string text end) = some text
launch_data_get_string _ = none

unfoldable pub launch_data_get_opaque : LaunchData → Option (List ℕ)
launch_data_get_opaque (opaque bytes) = some bytes
launch_data_get_opaque _ = none

-- An int that was set as an errno, over a scalar of any type, is read back from its 64-bit member,
-- whatever its sign.
pub get_errno-set_errno :
    (t : Scalar) (old e : ℕ) {d : LaunchData}
    → e < 4294967296
    → launch_data_set_errno (scalar t old) e ≡ some d
    → launch_data_get_errno d ≡ some e
unfolding launch_data_set_errno launch_data_get_errno
get_errno-set_errno t old e h set = ground arith
