-- ===== src/Data/Blocks.antt =====
-- liblaunch/liblaunch.c: reading back strings and opaque data from the wire format.
use launchd.Base.{
  ℕ, suc, ◌+◌, ◌-◌, ◌%◌, ◌≤◌, ◌<◌, ◌≡◌, refl, ap, ◌∙◌, List, [], ◌∷◌, ◌++◌, length, take, drop,
  replicate, ltb, arith, length-append, length-replicate, le→ltb, false,
}
use launchd.Data.Types.{string, opaque}
use launchd.Data.Bytes.{bytes_of, word_of, length-bytes_of, take_first, drop_first}
use launchd.Data.Wire.{
  round_up, packed, pack_header, old_word1, padded, pack_block, inside, unpacked, kind_of, advance,
  ended, unpack_string, unpack_opaque, unpack_kind, launch_data_unpack,
}
use launchd.Data.Pieces.{append_assoc, reader, unpack_header, old_words}

-- The padding.
round_up_le : (n : ℕ) → n < 18446744073709551608 → n ≤ round_up n
unfolding round_up
round_up_le n h = omega arith

length-padded :
    (content : List ℕ)
    → length content < 18446744073709551608
    → length (padded content) ≡ round_up (length content)
unfolding padded
length-padded content h = omega (
  arith,
  length-append content (replicate (round_up (length content) - length content) 0),
  length-replicate {A = ℕ} (round_up (length content) - length content) 0,
  round_up_le (length content) h,
)

advance_all :
    (content post : List ℕ)
    → length content < 18446744073709551608
    → advance (round_up (length content)) (padded content ++ post) ≡ inside post
unfolding advance
advance_all content post h =
    let len = length-padded content h in
    rw
      (
        le→ltb (length (padded content ++ post)) (round_up (length content))
            (omega (arith, len, length-append (padded content) post)),
        drop_first (round_up (length content)) (padded content) post len,
      )
      refl

-- A padded string starts with its bytes, and the one that ends it.
string_spread :
    (text post : List ℕ) (end : ℕ)
    → (zeros : List ℕ) × (padded (text ++ (end ∷ [])) ++ post ≡ text ++ (end ∷ zeros))
unfolding padded
string_spread text post end = (
  replicate (round_up (length (text ++ (end ∷ []))) - length (text ++ (end ∷ []))) 0 ++ post,
  append_assoc (text ++ (end ∷ [])) _ post ∙ append_assoc text (end ∷ []) _,
)

opaque_spread : (bytes post : List ℕ) → (zeros : List ℕ) × (padded bytes ++ post ≡ bytes ++ zeros)
unfolding padded
opaque_spread bytes post =
    (replicate (round_up (length bytes) - length bytes) 0 ++ post, append_assoc bytes _ post)

pub unpack_opaque-padded :
    (bytes post fds : List ℕ)
    → length bytes < 18446744073709551608
    → unpack_opaque (length bytes) (padded bytes ++ post) fds
      ≡ unpacked (opaque bytes) (inside post) fds
unfolding unpack_opaque
unpack_opaque-padded bytes post fds h =
    let (zeros, spread) = opaque_spread bytes post in
    let whole : ltb (length (padded bytes ++ post)) (length bytes) ≡ false =
      le→ltb _ _ (omega (arith, ap length spread, length-append bytes zeros)) in
    let start : take (length bytes) (padded bytes ++ post) ≡ bytes =
      ap (take (length bytes)) spread ∙ take_first (length bytes) bytes zeros refl in
    rw (whole, start, advance_all bytes post h) refl

pub unpack_string-padded :
    (text post fds : List ℕ) (end : ℕ)
    → length text < 18446744073709551607
    → unpack_string (length text) (padded (text ++ (end ∷ [])) ++ post) fds
      ≡ unpacked (string text end) (inside post) fds
unfolding unpack_string ended
unpack_string-padded text post fds end h =
    let (zeros, spread) = string_spread text post end in
    let content = text ++ (end ∷ []) in
    let len : (length text + 1) % 18446744073709551616 ≡ length content =
      omega (arith, length-append text (end ∷ [])) in
    let whole : ltb (length (padded content ++ post)) (length content) ≡ false = le→ltb _ _ (
      omega (
        arith,
        ap length spread,
        length-append text (end ∷ []),
        length-append text (end ∷ zeros),
      )) in
    let start : take (length text) (padded content ++ post) ≡ text =
      ap (take (length text)) spread ∙ take_first (length text) text (end ∷ zeros) refl in
    let last : drop (length text) (padded content ++ post) ≡ end ∷ zeros =
      ap (drop (length text)) spread ∙ drop_first (length text) text (end ∷ zeros) refl in
    rw (len, whole)
      (rw (start, last, advance_all content post (omega (arith, length-append text (end ∷ []))))
        refl)

pack_block-split :
    (code count : ℕ) (content old bytes fds : List ℕ)
    → pack_block code count content old ≡ packed bytes fds
    → (24 ≤ length old)
      × (bytes ≡ pack_header code (old_word1 old) (bytes_of 8 count) ++ padded content)
      × (fds ≡ [])
unfolding pack_block
pack_block-split code count content old bytes fds h = ground arith

-- A block that was written is read by its type.
pub unpack-pack_block :
    (fuel code count : ℕ) (content old bytes fds post more : List ℕ)
    → code < 18446744073709551616
    → pack_block code count content old ≡ packed bytes fds
    → launch_data_unpack (suc fuel) (inside (bytes ++ post)) (fds ++ more)
      ≡ unpack_kind
          (reader fuel)
          (kind_of code)
          (word_of (old_word1 old))
          (word_of (bytes_of 8 count))
          (padded content ++ post)
          more
unpack-pack_block fuel code count content old bytes fds post more h e =
    let (space, written, sent) = pack_block-split code count content old bytes fds e in
    let head = pack_header code (old_word1 old) (bytes_of 8 count) in
    ap (λ x. launch_data_unpack (suc fuel) (inside x) (fds ++ more))
      (ap (λ x. x ++ post) written ∙ append_assoc head (padded content) post)
    ∙ ap
        (λ x. launch_data_unpack (suc fuel) (inside (head ++ (padded content ++ post))) (x ++ more))
        sent
    ∙ unpack_header fuel code (old_word1 old) (bytes_of 8 count) (padded content ++ post) more h
        (old_words old space).0 (length-bytes_of 8 count)
