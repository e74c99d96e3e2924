-- ===== src/Data/Wire.antt =====
-- liblaunch/liblaunch.c: launch_data_pack and launch_data_unpack, byte for byte.
use launchd.Base.{
  ℕ, zero, suc, ◌+◌, ◌-◌, ◌*◌, ◌/◌, ◌%◌, Option, none, some, List, [], ◌∷◌, ◌++◌, length, take,
  drop, replicate, ltb, ◌==◌, if◌then◌else◌,
}
use launchd.Data.Types.{
  Scalar, fd, integer, real, boolean, errno, machport, LaunchData, dictionary, array, string,
  no_string, opaque, scalar, Slots, nil, null, slot, Kind,
}
use launchd.Data.Scalars.{sign_extend}
use launchd.Data.Dict.{slots_count}
use launchd.Data.Bytes.{bytes_of, word_of}

-- launch_data_type_t, as a number
unfoldable pub type_code : Kind → ℕ
type_code Kind.dictionary = 1
type_code Kind.array = 2
type_code (Kind.scalar fd) = 3
type_code (Kind.scalar integer) = 4
type_code (Kind.scalar real) = 5
type_code (Kind.scalar boolean) = 6
type_code Kind.string = 7
type_code Kind.opaque = 8
type_code (Kind.scalar errno) = 9
type_code (Kind.scalar machport) = 10

-- ROUND_TO_64BIT_WORD_SIZE
unfoldable pub round_up : ℕ → ℕ
round_up x = (x + 7) % 18446744073709551616 / 8 * 8

-- The bytes that a value takes and the descriptors to send, or a result of 0; `fault` is a NULL
-- element or string.
pub data Packed : Type 0 where
  packed : List ℕ → List ℕ → Packed
  no_space fault : Packed

-- The structure itself: its type and two words. A word that is not written keeps what the buffer held.
unfoldable pub pack_header : ℕ → List ℕ → List ℕ → List ℕ
pack_header code word1 word2 = bytes_of 8 code ++ (word1 ++ word2)

abbrev pub old_word1 : List ℕ → List ℕ
old_word1 old = take 8 (drop 8 old)

abbrev pub old_word2 : List ℕ → List ℕ
old_word2 old = take 8 (drop 16 old)

unfoldable pub scalar_word : Scalar → ℕ → List ℕ → List ℕ
scalar_word machport w old = old_word1 old
scalar_word _ w old = bytes_of 8 w

-- A descriptor other than -1 is sent along, as an int.
unfoldable pub scalar_fds : Scalar → ℕ → List ℕ
scalar_fds fd w = if w == 18446744073709551615 then [] else w % 4294967296 ∷ []
scalar_fds _ w = []

unfoldable pub pack_scalar : Scalar → ℕ → List ℕ → Packed
unfolding pack_header scalar_word scalar_fds type_code
pack_scalar t w old =
    if ltb (length old) 24
    then no_space
    else packed (pack_header (type_code (Kind.scalar t)) (scalar_word t w old) (old_word2 old))
        (scalar_fds t w)

-- A string or opaque data, padded with zeroes.
unfoldable pub padded : List ℕ → List ℕ
unfolding round_up
padded content = content ++ replicate (round_up (length content) - length content) 0

unfoldable pub pack_block : ℕ → ℕ → List ℕ → List ℕ → Packed
unfolding pack_header padded round_up
pack_block code count content old =
    if ltb (length old) 24
    then no_space
    else if ltb (length old) (24 + round_up (length content))
    then no_space
    else packed (pack_header code (old_word1 old) (bytes_of 8 count) ++ padded content) []

-- An array, given how its elements are packed behind the space for its pointers.
unfoldable pub pack_array : ℕ → ℕ → List ℕ → Packed → Packed
unfolding pack_header
pack_array code count old items =
    if ltb (length old) 24
    then no_space
    else if ltb (length old) (24 + count * 8)
    then no_space
    else elim items [
      | packed bytes fds ↦
          packed
            (pack_header code (old_word1 old) (bytes_of 8 count)
              ++ (take (count * 8) (drop 24 old) ++ bytes))
            fds
      | r ↦ r
    ]

abbrev pub add_packed : List ℕ → List ℕ → Packed → Packed
add_packed bytes fds (packed bytes' fds') = packed (bytes ++ bytes') (fds ++ fds')
add_packed bytes fds r = r

-- `old` is the buffer, of length `len`.
unfoldable mutual
  unfolding pack_scalar pack_block pack_array

  pub launch_data_pack : LaunchData → List ℕ → Packed
  launch_data_pack (dictionary xs) old =
      pack_array 1 (slots_count xs) old (pack_slots xs (drop (24 + slots_count xs * 8) old))
  launch_data_pack (array xs) old =
      pack_array 2 (slots_count xs) old (pack_slots xs (drop (24 + slots_count xs * 8) old))
  launch_data_pack (string text end) old = pack_block 7 (length text) (text ++ (end ∷ [])) old
  launch_data_pack no_string old = if ltb (length old) 32 then no_space else fault
  launch_data_pack (opaque bytes) old = pack_block 8 (length bytes) bytes old
  launch_data_pack (scalar t w) old = pack_scalar t w old

  pub pack_slots : Slots → List ℕ → Packed
  pack_slots nil old = packed [] []
  pack_slots (null xs) old = fault
  pack_slots (slot d xs) old = elim (launch_data_pack d old) [
    | packed bytes fds ↦ add_packed bytes fds (pack_slots xs (drop (length bytes) old))
    | r ↦ r
  ]

-- Where the reader stands: what is left of the buffer, or past its end.
pub data Place : Type 0 where
  inside : List ℕ → Place
  beyond : Place

-- What launch_data_unpack gives: a value, with the place behind it and the descriptors left; NULL; or
-- `overrun`, an access outside the buffer, the array's space, or the value's bytes. The run stops there;
-- the source goes on, as its test of data_size - *data_offset wraps around once the offset is past the end.
pub data Unpacked : Type 0 where
  unpacked : LaunchData → Place → List ℕ → Unpacked
  refused overrun out_of_fuel : Unpacked

pub data UnpackedSlots : Type 0 where
  elements : Slots → Place → List ℕ → UnpackedSlots
  failed : Unpacked → UnpackedSlots

unfoldable pub kind_of : ℕ → Option Kind
kind_of code =
    if code == 1
    then some Kind.dictionary
    else if code == 2
    then some Kind.array
    else if code == 3
    then some (Kind.scalar fd)
    else if code == 4
    then some (Kind.scalar integer)
    else if code == 5
    then some (Kind.scalar real)
    else if code == 6
    then some (Kind.scalar boolean)
    else if code == 7
    then some Kind.string
    else if code == 8
    then some Kind.opaque
    else if code == 9
    then some (Kind.scalar errno)
    else if code == 10
    then some (Kind.scalar machport)
    else none

unfoldable pub advance : ℕ → List ℕ → Place
advance n rest = if ltb (length rest) n then beyond else inside (drop n rest)

-- The elements of an array, read one after the other; `room` is how many pointers fit where the check
-- on the size put them.
unfoldable pub unpack_slots : (Place → List ℕ → Unpacked) → ℕ → ℕ → Place → List ℕ → UnpackedSlots
unpack_slots next zero room place fds = elements nil place fds
unpack_slots next (suc n) room place fds = elim (next place fds) [
  | unpacked d place' fds' ↦
      let rest = unpack_slots next n (room - 1) place' fds' in
      if room == 0 then failed overrun else elim rest [
        | elements ds place'' fds'' ↦ elements (slot d ds) place'' fds''
        | failed r ↦ failed r
      ]
  | r ↦ failed r
]

abbrev pub of_slots : (Slots → LaunchData) → UnpackedSlots → Unpacked
of_slots make (elements xs place fds) = unpacked (make xs) place fds
of_slots make (failed r) = r

unfoldable pub unpack_array :
    (Place → List ℕ → Unpacked) → (Slots → LaunchData) → ℕ → List ℕ → List ℕ → Unpacked
unfolding unpack_slots
unpack_array next make count rest fds =
    let space = count * 8 % 18446744073709551616 in
    if ltb (length rest) space
    then refused
    else of_slots make (unpack_slots next count (space / 8) (inside (drop space rest)) fds)

-- A string with what stands behind it.
unfoldable pub ended : List ℕ → List ℕ → Place → List ℕ → Unpacked
ended text [] place fds = overrun
ended text (end ∷ behind) place fds = unpacked (string text end) place fds

-- The length is checked with its NUL, in 64 bits.
unfoldable pub unpack_string : ℕ → List ℕ → List ℕ → Unpacked
unfolding advance round_up ended
unpack_string n rest fds =
    let size = (n + 1) % 18446744073709551616 in
    if ltb (length rest) size
    then refused
    else ended (take n rest) (drop n rest) (advance (round_up size) rest) fds

unfoldable pub unpack_opaque : ℕ → List ℕ → List ℕ → Unpacked
unfolding advance round_up
unpack_opaque n rest fds =
    if ltb (length rest) n
    then refused
    else unpacked (opaque (take n rest)) (advance (round_up n) rest) fds

unfoldable pub unpack_fd : ℕ → List ℕ → List ℕ → Unpacked
unpack_fd w rest [] = unpacked (scalar fd w) (inside rest) []
unpack_fd w rest (f ∷ fds) =
    if w == 18446744073709551615
    then unpacked (scalar fd w) (inside rest) (f ∷ fds)
    else unpacked (scalar fd (sign_extend f)) (inside rest) fds

-- By type, with the two words and what follows the structure.
unfoldable pub unpack_kind :
    (Place → List ℕ → Unpacked) → Option Kind → ℕ → ℕ → List ℕ → List ℕ → Unpacked
unfolding unpack_array unpack_string unpack_opaque unpack_fd
unpack_kind next none word1 word2 rest fds = refused
unpack_kind next (some Kind.dictionary) word1 word2 rest fds =
    unpack_array next dictionary word2 rest fds
unpack_kind next (some Kind.array) word1 word2 rest fds = unpack_array next array word2 rest fds
unpack_kind next (some Kind.string) word1 word2 rest fds = unpack_string word2 rest fds
unpack_kind next (some Kind.opaque) word1 word2 rest fds = unpack_opaque word2 rest fds
unpack_kind next (some (Kind.scalar fd)) word1 word2 rest fds = unpack_fd word1 rest fds
unpack_kind next (some (Kind.scalar t)) word1 word2 rest fds =
    unpacked (scalar t word1) (inside rest) fds

-- Past the end, data_size - *data_offset wraps around, and the check lets the header be read.
unfoldable pub launch_data_unpack : ℕ → Place → List ℕ → Unpacked
unfolding unpack_kind kind_of
launch_data_unpack zero place fds = out_of_fuel
launch_data_unpack (suc fuel) beyond fds = overrun
launch_data_unpack (suc fuel) (inside rest) fds =
    if ltb (length rest) 24
    then refused
    else unpack_kind (λ place fds'. launch_data_unpack fuel place fds')
        (kind_of (word_of (take 8 rest))) (word_of (take 8 (drop 8 rest)))
        (word_of (take 8 (drop 16 rest))) (drop 24 rest) fds
