-- ===== src/Arguments/Copies.antt =====
-- src/core.c: which strings mach_cmd2argv takes apart within its buffers, and which not.
use launchd.Base.{
  ℕ, zero, suc, ◌+◌, ◌≤◌, ◌<◌, ◌≡◌, refl, Bool, true, false, none, some, List, [], ◌∷◌, length, ltb,
  ◌==◌, if◌then◌else◌, arith, lt→ltb, Bool-cases, inl, inr,
}
use launchd.Arguments.Scan.{
  ends_at, take_word, skip_spaces, open_word, Parsed, parsed, overrun, out_of_fuel, returns,
  end_word, scan, argv_of, mach_cmd2argv,
}
use launchd.Arguments.Fits.{
  Fits, total, weaken, length-skip_spaces, open-IsTaken, end_word-Fits, scan-Fits,
}

-- The first word may begin without a separator.
first-Fits :
    (isspace : ℕ → Bool) (room : ℕ) (string : List ℕ)
    → length string < room
    → Fits (suc (length string)) (scan (suc (suc (length string))) isspace room string)
unfolding scan
first-Fits isspace room [] h = omega arith
first-Fits isspace room (c ∷ cs) h =
    let d = skip_spaces isspace (c ∷ cs) in
    let shorter = length-skip_spaces isspace (c ∷ cs) in
    let t =
      weaken isspace (length d) (length (c ∷ cs)) (open_word isspace room d) shorter
        (open-IsTaken isspace room d (omega (arith, h, shorter))) in
    end_word-Fits isspace (length (c ∷ cs)) (open_word isspace room d)
      (scan (suc (length (c ∷ cs))) isspace) t
      (λ room' enough.
        scan-Fits isspace (suc (length (c ∷ cs))) room' _ (omega (arith, t.text)) enough t.rest)

count-total : (ws : List (List ℕ)) → length ws ≤ total ws
count-total [] = omega arith
count-total (text ∷ ws) = omega (arith, count-total ws)

-- mach_cmd2argv of a string with less than 99 bytes writes inside its buffers, whatever isspace(3) says;
-- the result is NULL where there are no arguments, and the arguments with the bytes that end them are
-- at most one byte longer than the string, for which there is space in the result.
pub mach_cmd2argv-total :
    (isspace : ℕ → Bool) (string : List ℕ)
    → length string < 99
    → (ws : List (List ℕ)) × (mach_cmd2argv isspace string
        ≡ returns (if length ws == 0 then none else some ws))
      × (total ws ≤ length string + 1)
unfolding mach_cmd2argv argv_of
mach_cmd2argv-total isspace string h =
    of_scan (scan (suc (suc (length string))) isspace 1000 string)
      (first-Fits isspace 1000 string (omega (arith, h)))
  where
    of_scan :
        (p : Parsed)
        → Fits (suc (length string)) p
        → (ws : List (List ℕ)) × (argv_of p ≡ returns (if length ws == 0 then none else some ws))
          × (total ws ≤ length string + 1)
    of_scan (parsed ws) f =
        let few : ltb (length ws) 100 ≡ true =
          lt→ltb (length ws) 100 (omega (arith, f, count-total ws, h)) in
        (
          ws,
          elim (Bool-cases (length ws == 0)) [ inl e ↦ rw e refl | inr e ↦ rw (e, few) refl ],
          omega (arith, f),
        )
    of_scan overrun f = absurd (omega (arith, f))
    of_scan out_of_fuel f = absurd (omega (arith, f))

-- No byte of a string is a space, a quotation mark or a backslash.
abbrev pub AllLetters : (ℕ → Bool) → List ℕ → Type 0
AllLetters isspace [] = Unit {0}
AllLetters isspace (c ∷ cs) =
    (isspace c ≡ false) × ((c == 34) ≡ false) × ((c == 92) ≡ false) × AllLetters isspace cs

take_all :
    (isspace : ℕ → Bool) (room : ℕ) (cp : List ℕ)
    → AllLetters isspace cp
    → room ≤ length cp
    → (take_word isspace false room cp).room ≡ 0
unfolding take_word ends_at
take_all isspace room [] a h = omega (arith, h)
take_all isspace zero (c ∷ cs) a h = refl
take_all isspace (suc room) (c ∷ []) a h =
    let last : room ≡ 0 = omega (arith, h) in rw (a.0, a.2) last
take_all isspace (suc room) (c ∷ (e ∷ cs)) a h =
    rw (a.0, a.2) (take_all isspace room (e ∷ cs) a.3 (omega (arith, h)))

-- A string of 1000 bytes or more, none of them a space, a quotation mark or a backslash, makes
-- mach_cmd2argv write behind its buffer.
pub mach_cmd2argv-overrun :
    (isspace : ℕ → Bool) (string : List ℕ)
    → AllLetters isspace string
    → 1000 ≤ length string
    → mach_cmd2argv isspace string ≡ overrun
unfolding mach_cmd2argv argv_of scan skip_spaces open_word end_word
mach_cmd2argv-overrun isspace [] a h = absurd (omega (arith, h))
mach_cmd2argv-overrun isspace (c ∷ cs) a h =
    rw (a.0, a.1) rw (end_word, take_all isspace 1000 (c ∷ cs) a h) refl
