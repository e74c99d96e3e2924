-- ===== src/Data/Pieces.antt =====
-- liblaunch/liblaunch.c: reading back the structures of the wire format, one by one.
pub use launchd.Base.{append_assoc}
use launchd.Base.{
  ℕ, suc, ◌%◌, ◌≤◌, ◌<◌, ◌≡◌, refl, ap, sym, ◌∙◌, List, [], ◌∷◌, ◌++◌, length, take, drop, ltb,
  arith, length-append, le→ltb, false,
}
use launchd.Data.Types.{Scalar, fd, integer, real, boolean, errno, machport, scalar, Kind}
use launchd.Data.Scalars.{sign_extend}
use launchd.Data.Bytes.{
  bytes_of, word_of, word_of-bytes_of, length-bytes_of, length-take, length-drop, take_first,
  drop_first,
}
use launchd.Data.Wire.{
  type_code, packed, pack_header, old_word1, old_word2, scalar_word, scalar_fds, pack_scalar, Place,
  inside, Unpacked, unpacked, kind_of, unpack_fd, unpack_kind, launch_data_unpack,
}

-- The reader of the elements.
abbrev pub reader : ℕ → Place → List ℕ → Unpacked
reader fuel place fds = launch_data_unpack fuel place fds

pub length-pack_header :
    (code : ℕ) (w1 w2 : List ℕ)
    → length w1 ≡ 8
    → length w2 ≡ 8
    → length (pack_header code w1 w2) ≡ 24
unfolding pack_header
length-pack_header code w1 w2 h1 h2 =
    omega (
      arith,
      length-append (bytes_of 8 code) (w1 ++ w2),
      length-append w1 w2,
      length-bytes_of 8 code,
    )

pub unpack_header :
    (fuel code : ℕ) (w1 w2 rest fds : List ℕ)
    → code < 18446744073709551616
    → length w1 ≡ 8
    → length w2 ≡ 8
    → launch_data_unpack (suc fuel) (inside (pack_header code w1 w2 ++ rest)) fds
      ≡ unpack_kind (reader fuel) (kind_of code) (word_of w1) (word_of w2) rest fds
unfolding launch_data_unpack pack_header
unpack_header fuel code w1 w2 rest fds hc h1 h2 = rw (enough, first, second, third, behind)
  where
    h : List ℕ
    h = pack_header code w1 w2

    len : length h ≡ 24
    len = length-pack_header code w1 w2 h1 h2

    enough : ltb (length (h ++ rest)) 24 ≡ false
    enough = le→ltb _ _ (omega (arith, len, length-append h rest))

    spread : h ++ rest ≡ bytes_of 8 code ++ (w1 ++ (w2 ++ rest))
    spread =
        append_assoc (bytes_of 8 code) (w1 ++ w2) rest
        ∙ ap (λ x. bytes_of 8 code ++ x) (append_assoc w1 w2 rest)

    first : word_of (take 8 (h ++ rest)) ≡ code
    first =
        ap (λ x. word_of (take 8 x)) spread
        ∙ ap word_of (take_first 8 (bytes_of 8 code) (w1 ++ (w2 ++ rest)) (length-bytes_of 8 code))
        ∙ word_of-bytes_of code hc

    past : drop 8 (h ++ rest) ≡ w1 ++ (w2 ++ rest)
    past =
        ap (drop 8) spread
        ∙ drop_first 8 (bytes_of 8 code) (w1 ++ (w2 ++ rest)) (length-bytes_of 8 code)

    second : word_of (take 8 (drop 8 (h ++ rest))) ≡ word_of w1
    second = ap (λ x. word_of (take 8 x)) past ∙ ap word_of (take_first 8 w1 (w2 ++ rest) h1)

    two : drop 16 (h ++ rest) ≡ w2 ++ rest
    two =
        ap (drop 16) (spread ∙ sym (append_assoc (bytes_of 8 code) w1 (w2 ++ rest)))
        ∙ drop_first 16 (bytes_of 8 code ++ w1) (w2 ++ rest)
            (omega (arith, length-append (bytes_of 8 code) w1, length-bytes_of 8 code))

    third : word_of (take 8 (drop 16 (h ++ rest))) ≡ word_of w2
    third = ap (λ x. word_of (take 8 x)) two ∙ ap word_of (take_first 8 w2 rest h2)

    behind : drop 24 (h ++ rest) ≡ rest
    behind = drop_first 24 h rest len

pub old_words :
    (old : List ℕ) → 24 ≤ length old → (length (old_word1 old) ≡ 8) × (length (old_word2 old) ≡ 8)
old_words old h = (
  length-take 8 (drop 8 old) (omega (arith, length-drop 8 old)),
  length-take 8 (drop 16 old) (omega (arith, length-drop 16 old)),
)

-- What fits the format: a word of 64 bits, which pack writes, and in a descriptor an int.
abbrev pub IsWord : Scalar → ℕ → Type 0
IsWord machport w = w < w
IsWord fd w = sign_extend (w % 4294967296) ≡ w
IsWord t w = w < 18446744073709551616

sign_extend_word : (w : ℕ) → sign_extend (w % 4294967296) ≡ w → w < 18446744073709551616
unfolding sign_extend
sign_extend_word w h = ground arith

pub pack_scalar-split :
    (t : Scalar) (w : ℕ) (old bytes fds : List ℕ)
    → pack_scalar t w old ≡ packed bytes fds
    → (24 ≤ length old)
      × (bytes ≡ pack_header (type_code (Kind.scalar t)) (scalar_word t w old) (old_word2 old))
      × (fds ≡ scalar_fds t w)
unfolding pack_scalar
pack_scalar-split t w old bytes fds h = ground arith

fd_read :
    (w word : ℕ) (post more : List ℕ)
    → word ≡ w
    → sign_extend (w % 4294967296) ≡ w
    → unpack_fd word post (scalar_fds fd w ++ more) ≡ unpacked (scalar fd w) (inside post) more
unfolding unpack_fd scalar_fds
fd_read w word post [] e h = ground arith
fd_read w word post (m ∷ more) e h = ground arith

scalar_kind :
    (t : Scalar) (w : ℕ) (next : Place → List ℕ → Unpacked) (old : List ℕ) (word2 : ℕ)
    (post more : List ℕ)
    → IsWord t w
    → unpack_kind next
        (kind_of (type_code (Kind.scalar t)))
        (word_of (scalar_word t w old))
        word2
        post
        (scalar_fds t w ++ more)
      ≡ unpacked (scalar t w) (inside post) more
unfolding unpack_kind kind_of type_code scalar_word scalar_fds unpack_fd
scalar_kind machport w next old word2 post more h = ground arith
scalar_kind integer w next old word2 post more h = rw (word_of-bytes_of w h) refl
scalar_kind real w next old word2 post more h = rw (word_of-bytes_of w h) refl
scalar_kind boolean w next old word2 post more h = rw (word_of-bytes_of w h) refl
scalar_kind errno w next old word2 post more h = rw (word_of-bytes_of w h) refl
scalar_kind fd w next old word2 post more h =
    fd_read w (word_of (bytes_of 8 w)) post more (word_of-bytes_of w (sign_extend_word w h)) h

length-scalar_word :
    (t : Scalar) (w : ℕ) (old : List ℕ) → 24 ≤ length old → length (scalar_word t w old) ≡ 8
unfolding scalar_word
length-scalar_word machport w old h = (old_words old h).0
length-scalar_word fd w old h = length-bytes_of 8 w
length-scalar_word integer w old h = length-bytes_of 8 w
length-scalar_word real w old h = length-bytes_of 8 w
length-scalar_word boolean w old h = length-bytes_of 8 w
length-scalar_word errno w old h = length-bytes_of 8 w

type_code_lt : (k : Kind) → type_code k < 18446744073709551616
unfolding type_code
type_code_lt Kind.dictionary = omega arith
type_code_lt Kind.array = omega arith
type_code_lt Kind.string = omega arith
type_code_lt Kind.opaque = omega arith
type_code_lt (Kind.scalar fd) = omega arith
type_code_lt (Kind.scalar integer) = omega arith
type_code_lt (Kind.scalar real) = omega arith
type_code_lt (Kind.scalar boolean) = omega arith
type_code_lt (Kind.scalar errno) = omega arith
type_code_lt (Kind.scalar machport) = omega arith

pub unpack-pack_scalar :
    (fuel : ℕ) (t : Scalar) (w : ℕ) (old bytes fds post more : List ℕ)
    → IsWord t w
    → pack_scalar t w old ≡ packed bytes fds
    → launch_data_unpack (suc fuel) (inside (bytes ++ post)) (fds ++ more)
      ≡ unpacked (scalar t w) (inside post) more
unpack-pack_scalar fuel t w old bytes fds post more h e =
    let (space, written, sent) = pack_scalar-split t w old bytes fds e in
    ap (λ x. launch_data_unpack (suc fuel) (inside (x ++ post)) (fds ++ more)) written
    ∙ ap
        (λ x.
          launch_data_unpack (suc fuel)
            (inside (
              pack_header (type_code (Kind.scalar t)) (scalar_word t w old) (old_word2 old)
              ++ post))
            (x ++ more))
        sent
    ∙ unpack_header fuel (type_code (Kind.scalar t)) (scalar_word t w old) (old_word2 old) post
        (scalar_fds t w ++ more) (type_code_lt (Kind.scalar t)) (length-scalar_word t w old space)
        (old_words old space).1
    ∙ scalar_kind t w (reader fuel) old (word_of (old_word2 old)) post more h
