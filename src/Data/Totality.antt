-- ===== src/Data/Totality.antt =====
-- liblaunch/liblaunch.c: launch_data_unpack on any bytes at all.
use launchd.Base.{
  ℕ, zero, suc, ◌+◌, ◌%◌, ◌≤◌, ◌<◌, ◌≡◌, refl, List, [], ◌∷◌, length, drop, ltb, arith, le→ltb,
  false,
}
use launchd.Data.Wire.{
  Place, inside, beyond, Unpacked, unpacked, refused, overrun, out_of_fuel, UnpackedSlots, elements,
  failed, ended, unpack_string,
}

-- How many bytes are left to read.
abbrev pub left : Place → ℕ
left (inside rest) = length rest
left beyond = 0

-- A result that had fuel enough, and leaves no more than n bytes.
abbrev pub Ends : ℕ → Unpacked → Type 0
Ends n (unpacked d place fds) = left place ≤ n
Ends n refused = Unit {0}
Ends n overrun = Unit {0}
Ends n out_of_fuel = n < n

abbrev EndsSlots : ℕ → UnpackedSlots → Type 0
EndsSlots n (elements xs place fds) = left place ≤ n
EndsSlots n (failed r) = Ends n r

-- A reader that does so wherever at most `most` bytes are left.
abbrev Reads : ℕ → (Place → List ℕ → Unpacked) → Type 0
Reads most next =
    (place : Place) (fds : List ℕ) → left place ≤ most → Ends (left place) (next place fds)

drop_all : (n : ℕ) (xs : List ℕ) → length xs ≤ n → drop n xs ≡ []
drop_all zero [] h = refl
drop_all zero (x ∷ xs) h = ground arith
drop_all (suc n) [] h = refl
drop_all (suc n) (x ∷ xs) h = drop_all n xs (omega arith)

-- A string whose length on the wire is 2^64 - 1 passes the check on its size, however few bytes there
-- are, and reaches outside the buffer.
pub unpack_string_wraps :
    (n : ℕ) (rest fds : List ℕ)
    → n ≡ 18446744073709551615
    → length rest ≤ n
    → unpack_string n rest fds ≡ overrun
unfolding unpack_string ended
unpack_string_wraps n rest fds h le =
    let size : (n + 1) % 18446744073709551616 ≡ 0 = omega arith in
    let whole : ltb (length rest) 0 ≡ false = le→ltb _ _ (omega arith) in
    rw size (rw (whole, drop_all n rest le) refl)
