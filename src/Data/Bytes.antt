-- ===== src/Data/Bytes.antt =====
-- The words of the wire format: 64-bit little-endian numbers, and parts of a list of bytes.
use launchd.Base.{
  ℕ, zero, suc, ◌+◌, ◌-◌, ◌*◌, ◌/◌, ◌%◌, ◌≤◌, ◌<◌, ◌≡◌, refl, ap, List, [], ◌∷◌, ◌++◌, length, take,
  drop, arith,
}

-- The bytes of a number, the least significant first.
unfoldable pub bytes_of : ℕ → ℕ → List ℕ
bytes_of zero w = []
bytes_of (suc n) w = w % 256 ∷ bytes_of n (w / 256)

unfoldable pub word_of : List ℕ → ℕ
word_of [] = 0
word_of (b ∷ bs) = b + 256 * word_of bs

abbrev Fits : ℕ → ℕ → Type 0
Fits zero w = w ≡ 0
Fits (suc n) w = Fits n (w / 256)

word_of-bytes_of-Fits : (n w : ℕ) → Fits n w → word_of (bytes_of n w) ≡ w
unfolding word_of bytes_of
word_of-bytes_of-Fits zero w h = omega (arith, h)
word_of-bytes_of-Fits (suc n) w h = omega (arith, word_of-bytes_of-Fits n (w / 256) h)

pub word_of-bytes_of : (w : ℕ) → w < 18446744073709551616 → word_of (bytes_of 8 w) ≡ w
word_of-bytes_of w h = word_of-bytes_of-Fits 8 w (omega (arith, h))

pub length-bytes_of : (n w : ℕ) → length (bytes_of n w) ≡ n
unfolding bytes_of
length-bytes_of zero w = refl
length-bytes_of (suc n) w = ap suc (length-bytes_of n (w / 256))

pub length-take : (n : ℕ) (xs : List ℕ) → n ≤ length xs → length (take n xs) ≡ n
length-take zero xs h = refl
length-take (suc n) [] h = omega (arith, h)
length-take (suc n) (x ∷ xs) h = omega (arith, length-take n xs (omega arith))

pub length-drop : (n : ℕ) (xs : List ℕ) → length (drop n xs) ≡ length xs - n
length-drop zero xs = omega arith
length-drop (suc n) [] = omega arith
length-drop (suc n) (x ∷ xs) = omega (arith, length-drop n xs)

-- The first part of a list, and what follows it.
pub take_first : (n : ℕ) (xs ys : List ℕ) → length xs ≡ n → take n (xs ++ ys) ≡ xs
take_first zero [] ys h = refl
take_first zero (x ∷ xs) ys h = ground arith
take_first (suc n) [] ys h = ground arith
take_first (suc n) (x ∷ xs) ys h = ap (◌∷◌ x) (take_first n xs ys (omega arith))

pub drop_first : (n : ℕ) (xs ys : List ℕ) → length xs ≡ n → drop n (xs ++ ys) ≡ ys
drop_first zero [] ys h = refl
drop_first zero (x ∷ xs) ys h = ground arith
drop_first (suc n) [] ys h = ground arith
drop_first (suc n) (x ∷ xs) ys h = drop_first n xs ys (omega arith)
