-- ===== src/Data/RoundTrip.antt =====
-- liblaunch/liblaunch.c: launch_data_unpack reads back what launch_data_pack wrote.
use launchd.Base.{
  ℕ, zero, suc, ◌+◌, ◌-◌, ◌*◌, ◌/◌, ◌%◌, ◌≤◌, ◌<◌, ◌≡◌, refl, ap, ◌∙◌, List, [], ◌∷◌, ◌++◌, length,
  take, drop, ltb, arith, length-append, le→ltb, false,
}
use launchd.Data.Types.{
  LaunchData, dictionary, array, string, no_string, opaque, scalar, Slots, nil, null, slot,
}
use launchd.Data.Dict.{slots_count}
use launchd.Data.Bytes.{
  bytes_of, word_of, word_of-bytes_of, length-bytes_of, length-take, length-drop, drop_first,
}
use launchd.Data.Wire.{
  unpack_opaque, unpack_string, padded, Packed, packed, no_space, fault, pack_header, old_word1,
  pack_array, add_packed, launch_data_pack, pack_slots, Place, inside, Unpacked, unpacked, elements,
  kind_of, unpack_slots, unpack_array, unpack_kind, launch_data_unpack,
}
use launchd.Data.Pieces.{
  append_assoc, reader, unpack_header, old_words, length-pack_header, IsWord, unpack-pack_scalar,
}
use launchd.Data.Blocks.{unpack-pack_block, unpack_opaque-padded, unpack_string-padded}

pub pack_array-split :
    (code count : ℕ) (old : List ℕ) (items : Packed) (bytes fds : List ℕ)
    → pack_array code count old items ≡ packed bytes fds
    → (24 + count * 8 ≤ length old)
      × (body : List ℕ) × (items ≡ packed body fds)
      × (bytes
          ≡ pack_header code (old_word1 old) (bytes_of 8 count)
            ++ (take (count * 8) (drop 24 old) ++ body))
unfolding pack_array
pack_array-split code count old (packed body fds') bytes fds h =
    (ground arith, body, ground arith, ground arith)
pack_array-split code count old no_space bytes fds h = ground arith
pack_array-split code count old fault bytes fds h = ground arith

add_packed-split :
    (b f : List ℕ) (r : Packed) (bytes fds : List ℕ)
    → add_packed b f r ≡ packed bytes fds
    → (b' : List ℕ) × (f' : List ℕ) × (r ≡ packed b' f') × (bytes ≡ b ++ b') × (fds ≡ f ++ f')
add_packed-split b f (packed b' f') bytes fds h = (b', f', refl, ground arith, ground arith)
add_packed-split b f no_space bytes fds h = ground arith
add_packed-split b f fault bytes fds h = ground arith

-- How the packing of the first element and of the rest make up the whole.
pub pack_slots-split :
    (d : LaunchData) (xs : Slots) (old bytes fds : List ℕ)
    → pack_slots (slot d xs) old ≡ packed bytes fds
    → (b : List ℕ) × (f : List ℕ) × (b' : List ℕ) × (f' : List ℕ) × (launch_data_pack d old
        ≡ packed b f)
      × (pack_slots xs (drop (length b) old) ≡ packed b' f')
      × (bytes ≡ b ++ b')
      × (fds ≡ f ++ f')
unfolding pack_slots
pack_slots-split d xs old bytes fds h = settle (launch_data_pack d old) refl
  where
    settle :
        (r : Packed)
        → launch_data_pack d old ≡ r
        → (b : List ℕ) × (f : List ℕ) × (b' : List ℕ) × (f' : List ℕ) × (launch_data_pack d old
            ≡ packed b f)
          × (pack_slots xs (drop (length b) old) ≡ packed b' f')
          × (bytes ≡ b ++ b')
          × (fds ≡ f ++ f')
    settle (packed b f) e =
        let (b', f', rest, bs, fs) =
          add_packed-split b f (pack_slots xs (drop (length b) old)) bytes fds
            (ground (arith, e, h)) in
        (b, f, b', f', e, rest, bs, fs)
    settle no_space e = ground (arith, e, h)
    settle fault e = ground (arith, e, h)

-- What goes over the wire and comes back: no Mach ports, no NULL pointers, words of 64 bits, and sizes
-- that memory can hold.
unfoldable mutual
  pub IsPackable : LaunchData → Type 0
  IsPackable (dictionary xs) = (slots_count xs < 2305843009213693952) × AllPackable xs
  IsPackable (array xs) = (slots_count xs < 2305843009213693952) × AllPackable xs
  IsPackable (string text end) = length text < 18446744073709551607
  IsPackable no_string = Unit {0}
  IsPackable (opaque bytes) = length bytes < 18446744073709551608
  IsPackable (scalar t w) = IsWord t w

  pub AllPackable : Slots → Type 0
  AllPackable nil = Unit {0}
  AllPackable (null xs) = Unit {0}
  AllPackable (slot d xs) = IsPackable d × AllPackable xs

-- The bytes of an array: its header, the space for the pointers, and the elements.
array_spread :
    (head space body post : List ℕ)
    → (head ++ (space ++ body)) ++ post ≡ head ++ (space ++ (body ++ post))
array_spread head space body post =
    append_assoc head (space ++ body) post ∙ ap (λ x. head ++ x) (append_assoc space body post)

unpack_array_written :
    (next : Place → List ℕ → Unpacked) (make : Slots → LaunchData) (count word2 : ℕ)
    (space rest fds : List ℕ) (xs : Slots) (post more : List ℕ)
    → word2 ≡ count
    → count < 2305843009213693952
    → length space ≡ count * 8
    → unpack_slots next count count (inside rest) fds ≡ elements xs (inside post) more
    → unpack_array next make word2 (space ++ rest) fds ≡ unpacked (make xs) (inside post) more
unfolding unpack_array
unpack_array_written next make count word2 space rest fds xs post more same small len read =
    let size : word2 * 8 % 18446744073709551616 ≡ count * 8 = omega arith in
    let room : count * 8 / 8 ≡ count = omega arith in
    let whole : ltb (length (space ++ rest)) (count * 8) ≡ false =
      le→ltb _ _ (omega (arith, length-append space rest)) in
    rw (size) (rw (whole, room, drop_first (count * 8) space rest len, same, read) refl)

-- All of an array but the reading of its elements.
unpack-pack_array :
    (fuel code count : ℕ) (make : Slots → LaunchData) (old bytes fds : List ℕ) (xs : Slots)
    (post more body : List ℕ)
    → code < 18446744073709551616
    → count < 2305843009213693952
    → 24 + count * 8 ≤ length old
    → bytes
      ≡ pack_header code (old_word1 old) (bytes_of 8 count)
        ++ (take (count * 8) (drop 24 old) ++ body)
    → unpack_slots (reader fuel) count count (inside (body ++ post)) (fds ++ more)
      ≡ elements xs (inside post) more
    → unpack_kind
        (reader fuel)
        (kind_of code)
        (word_of (old_word1 old))
        (word_of (bytes_of 8 count))
        (take (count * 8) (drop 24 old) ++ (body ++ post))
        (fds ++ more)
      ≡ unpack_array
          (reader fuel)
          make
          (word_of (bytes_of 8 count))
          (take (count * 8) (drop 24 old) ++ (body ++ post))
          (fds ++ more)
    → launch_data_unpack (suc fuel) (inside (bytes ++ post)) (fds ++ more)
      ≡ unpacked (make xs) (inside post) more
unpack-pack_array fuel code count make old bytes fds xs post more body hc small room written read
      kind =
    let space = take (count * 8) (drop 24 old) in
    let head = pack_header code (old_word1 old) (bytes_of 8 count) in
    ap (λ x. launch_data_unpack (suc fuel) (inside x) (fds ++ more))
      (ap (λ x. x ++ post) written ∙ array_spread head space body post)
    ∙ unpack_header fuel code (old_word1 old) (bytes_of 8 count) (space ++ (body ++ post))
        (fds ++ more) hc (old_words old (omega arith)).0 (length-bytes_of 8 count)
    ∙ kind
    ∙ unpack_array_written (reader fuel) make count (word_of (bytes_of 8 count)) space
        (body ++ post) (fds ++ more) xs post more (word_of-bytes_of count (omega arith)) small
        (length-take (count * 8) (drop 24 old) (omega (arith, length-drop 24 old))) read

unpack_slots_one :
    (next : Place → List ℕ → Unpacked) (n room : ℕ) (place place' place'' : Place)
    (fds fds' fds'' : List ℕ) (d : LaunchData) (xs : Slots)
    → n < room
    → next place fds ≡ unpacked d place' fds'
    → unpack_slots next n (room - 1) place' fds' ≡ elements xs place'' fds''
    → unpack_slots next (suc n) room place fds ≡ elements (slot d xs) place'' fds''
unfolding unpack_slots
unpack_slots_one next n room place place' place'' fds fds' fds'' d xs h first rest =
    ground (arith, first, rest)

opaque_read :
    (next : Place → List ℕ → Unpacked) (word1 : ℕ) (c post more : List ℕ)
    → length c < 18446744073709551608
    → unpack_kind next (kind_of 8) word1 (word_of (bytes_of 8 (length c))) (padded c ++ post) more
      ≡ unpacked (opaque c) (inside post) more
unfolding unpack_kind kind_of
opaque_read next word1 c post more h =
    ap (λ n. unpack_opaque n (padded c ++ post) more) (word_of-bytes_of (length c) (omega arith))
    ∙ unpack_opaque-padded c post more h

string_read :
    (next : Place → List ℕ → Unpacked) (word1 : ℕ) (text post more : List ℕ) (end : ℕ)
    → length text < 18446744073709551607
    → unpack_kind next
        (kind_of 7)
        word1
        (word_of (bytes_of 8 (length text)))
        (padded (text ++ (end ∷ [])) ++ post)
        more
      ≡ unpacked (string text end) (inside post) more
unfolding unpack_kind kind_of
string_read next word1 text post more end h =
    ap (λ n. unpack_string n (padded (text ++ (end ∷ [])) ++ post) more)
      (word_of-bytes_of (length text) (omega arith))
    ∙ unpack_string-padded text post more end h

array_read :
    (next : Place → List ℕ → Unpacked) (word1 word2 : ℕ) (rest fds : List ℕ)
    → (unpack_kind next (kind_of 1) word1 word2 rest fds
        ≡ unpack_array next dictionary word2 rest fds)
      × (unpack_kind next (kind_of 2) word1 word2 rest fds ≡ unpack_array next array word2 rest fds)
unfolding unpack_kind kind_of
array_read next word1 word2 rest fds = (refl, refl)

-- The elements are shorter than the array.
body_lt :
    (code count : ℕ) (old bytes body : List ℕ)
    → 24 ≤ length old
    → bytes
      ≡ pack_header code (old_word1 old) (bytes_of 8 count)
        ++ (take (count * 8) (drop 24 old) ++ body)
    → length body < length bytes
body_lt code count old bytes body room written =
    let head = pack_header code (old_word1 old) (bytes_of 8 count) in
    omega (
      arith,
      ap length written,
      length-append head (take (count * 8) (drop 24 old) ++ body),
      length-append (take (count * 8) (drop 24 old)) body,
      length-pack_header code (old_word1 old) (bytes_of 8 count) (old_words old room).0
          (length-bytes_of 8 count),
    )

mutual
  unfolding launch_data_pack pack_slots slots_count unpack_slots IsPackable

  pub unpack-pack_fueled :
      (d : LaunchData) (fuel : ℕ) (old bytes fds post more : List ℕ)
      → IsPackable d
      → launch_data_pack d old ≡ packed bytes fds
      → length bytes ≤ fuel
      → launch_data_unpack (suc fuel) (inside (bytes ++ post)) (fds ++ more)
        ≡ unpacked d (inside post) more
  unpack-pack_fueled (scalar t w) fuel old bytes fds post more ok e le =
      unpack-pack_scalar fuel t w old bytes fds post more ok e
  unpack-pack_fueled no_string fuel old bytes fds post more ok e le = ground (arith, e)
  unpack-pack_fueled (opaque c) fuel old bytes fds post more ok e le =
      unpack-pack_block fuel 8 (length c) c old bytes fds post more (omega arith) e
      ∙ opaque_read (reader fuel) (word_of (old_word1 old)) c post more ok
  unpack-pack_fueled (string text end) fuel old bytes fds post more ok e le =
      unpack-pack_block fuel 7 (length text) (text ++ (end ∷ [])) old bytes fds post more
        (omega arith) e
      ∙ string_read (reader fuel) (word_of (old_word1 old)) text post more end ok
  unpack-pack_fueled (array xs) fuel old bytes fds post more ok e le =
      let (room, body, items, written) =
        pack_array-split 2 (slots_count xs) old (pack_slots xs (drop (24 + slots_count xs * 8) old))
          bytes fds e in
      let short = body_lt 2 (slots_count xs) old bytes body (omega arith) written in
      unpack-pack_array fuel 2 (slots_count xs) array old bytes fds xs post more body (omega arith)
        ok.0 room written
        (unpack_slots-pack_slots xs fuel (slots_count xs) (drop (24 + slots_count xs * 8) old) body
          fds post more ok.1 items (omega arith) (omega arith))
        (array_read _ _ _ _ _).1
  unpack-pack_fueled (dictionary xs) fuel old bytes fds post more ok e le =
      let (room, body, items, written) =
        pack_array-split 1 (slots_count xs) old (pack_slots xs (drop (24 + slots_count xs * 8) old))
          bytes fds e in
      let short = body_lt 1 (slots_count xs) old bytes body (omega arith) written in
      unpack-pack_array fuel 1 (slots_count xs) dictionary old bytes fds xs post more body
        (omega arith) ok.0 room written
        (unpack_slots-pack_slots xs fuel (slots_count xs) (drop (24 + slots_count xs * 8) old) body
          fds post more ok.1 items (omega arith) (omega arith))
        (array_read _ _ _ _ _).0

  unpack_slots-pack_slots :
      (xs : Slots) (fuel room : ℕ) (old bytes fds post more : List ℕ)
      → AllPackable xs
      → pack_slots xs old ≡ packed bytes fds
      → length bytes < fuel
      → slots_count xs ≤ room
      → unpack_slots (reader fuel) (slots_count xs) room (inside (bytes ++ post)) (fds ++ more)
        ≡ elements xs (inside post) more
  unpack_slots-pack_slots nil fuel room old bytes fds post more ok e le h = ground (arith, e)
  unpack_slots-pack_slots (null xs) fuel room old bytes fds post more ok e le h = ground (arith, e)
  unpack_slots-pack_slots (slot d xs) zero room old bytes fds post more ok e le h =
      ground (arith, le)
  unpack_slots-pack_slots (slot d xs) (suc fuel) room old bytes fds post more ok e le h =
      let (b, f, b', f', first, rest, bs, fs) = pack_slots-split d xs old bytes fds e in
      let size = ap length bs ∙ length-append b b' in
      ap
        (λ x. unpack_slots (reader (suc fuel)) (suc (slots_count xs)) room (inside x) (fds ++ more))
        (ap (λ x. x ++ post) bs ∙ append_assoc b b' post)
      ∙ ap
          (λ x.
            unpack_slots (reader (suc fuel)) (suc (slots_count xs)) room
              (inside (b ++ (b' ++ post))) x)
          (ap (λ x. x ++ more) fs ∙ append_assoc f f' more)
      ∙ unpack_slots_one (reader (suc fuel)) (slots_count xs) room (inside (b ++ (b' ++ post)))
          (inside (b' ++ post)) (inside post) (f ++ (f' ++ more)) (f' ++ more) more d xs
          (omega arith)
          (unpack-pack_fueled d fuel old b f (b' ++ post) (f' ++ more) ok.0 first (omega arith))
          (unpack_slots-pack_slots xs (suc fuel) (room - 1) (drop (length b) old) b' f' post more
            ok.1 rest (omega arith) (omega arith))

-- A value without Mach ports, NULL pointers and oversized parts that launch_data_pack wrote, into any
-- buffer and with its descriptors sent along in order, is what launch_data_unpack reads back from
-- those bytes and descriptors, whatever follows them; fuel for one call more than there are bytes is
-- enough. It consumes exactly those bytes and descriptors.
pub unpack-pack :
    (d : LaunchData) (old bytes fds post more : List ℕ)
    → IsPackable d
    → launch_data_pack d old ≡ packed bytes fds
    → launch_data_unpack (suc (length bytes)) (inside (bytes ++ post)) (fds ++ more)
      ≡ unpacked d (inside post) more
unpack-pack d old bytes fds post more ok e =
    unpack-pack_fueled d (length bytes) old bytes fds post more ok e (omega arith)
