-- ===== src/Examples/Wire.antt =====
-- liblaunch/liblaunch.c: the theorems on the wire format, at an array of a descriptor and a string.
use launchd.Base.{ℕ, suc, ◌≡◌, ◌++◌, refl, [], ◌∷◌, List, length, replicate, arith}
use launchd.Data.Types.{LaunchData, array, string, scalar, fd, slot, nil}
use launchd.Data.Dict.{slots_count}
use launchd.Data.Scalars.{sign_extend}
use launchd.Data.Bytes.{bytes_of}
use launchd.Data.Wire.{
  Packed, packed, launch_data_pack, inside, unpacked, overrun, unpack_string, launch_data_unpack,
}
use launchd.Data.RoundTrip.{IsPackable, unpack-pack}
use launchd.Data.Totality.{unpack_string_wraps}

abbrev pub message : LaunchData
message = array (slot (scalar fd 3) (slot (string (104 ∷ 105 ∷ []) 0) nil))

-- A buffer as malloc(3) may give it.
abbrev pub buffer : List ℕ
buffer = replicate 200 170

abbrev pub bytes_packed : Packed → List ℕ
bytes_packed (packed bytes fds) = bytes
bytes_packed r = []

abbrev pub content : List ℕ
content = bytes_packed (launch_data_pack message buffer)

pub message-IsPackable : IsPackable message
unfolding IsPackable slots_count sign_extend
message-IsPackable = (omega arith, (refl, (omega arith, tt)))

pub message_packed : launch_data_pack message buffer ≡ packed content (3 ∷ [])
unfolding launch_data_pack slots_count bytes_of
message_packed = refl

unpack-pack_example :
    launch_data_unpack (suc (length content)) (inside (content ++ (1 ∷ []))) ((3 ∷ []) ++ (9 ∷ []))
    ≡ unpacked message (inside (1 ∷ [])) (9 ∷ [])
unpack-pack_example =
    unpack-pack message buffer content (3 ∷ []) (1 ∷ []) (9 ∷ []) message-IsPackable message_packed

-- An array that says that it has 2^61 elements.
abbrev hostile : List ℕ
hostile = 2 ∷ replicate 22 0 ++ (32 ∷ [])

unpack_string_wraps_example : unpack_string 18446744073709551615 (1 ∷ []) [] ≡ overrun
unpack_string_wraps_example =
    unpack_string_wraps 18446744073709551615 (1 ∷ []) [] refl (omega arith)
