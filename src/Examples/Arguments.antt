-- ===== src/Examples/Arguments.antt =====
-- src/core.c: the theorems on mach_cmd2argv, at a short command and a long one.
use launchd.Base.{
  ℕ, zero, suc, ◌+◌, ◌≡◌, ◌≤◌, refl, Bool, none, some, List, [], ◌∷◌, length, replicate, codes,
  ◌==◌, if◌then◌else◌, arith, length-replicate,
}
use launchd.Arguments.Scan.{
  parsed, returns, overrun, scan, take_word, skip_spaces, open_word, end_word, ends_at,
  mach_cmd2argv,
}
use launchd.Arguments.Fits.{total}
use launchd.Arguments.Copies.{AllLetters, mach_cmd2argv-total, mach_cmd2argv-overrun}

abbrev is_blank : ℕ → Bool
is_blank c = c == 32

abbrev command : List ℕ
command = codes "/bin/echo \"hi"

mach_cmd2argv-total_example :
    (ws : List (List ℕ)) × (mach_cmd2argv is_blank command
      ≡ returns (if length ws == 0 then none else some ws))
    × (total ws ≤ length command + 1)
mach_cmd2argv-total_example = mach_cmd2argv-total is_blank command (omega arith)

command_run : scan 14 is_blank 1000 command ≡ parsed (codes "/bin/echo" ∷ codes "hi" ∷ [])
unfolding scan take_word skip_spaces open_word end_word ends_at
command_run = refl

-- The quotation mark that ends an argument begins another.
quote_run : scan 14 is_blank 1000 (codes "\"a\" b") ≡ parsed (codes "a" ∷ codes " b" ∷ [])
unfolding scan take_word skip_spaces open_word end_word ends_at
quote_run = refl

letters : (n : ℕ) → AllLetters is_blank (replicate n 97)
letters zero = tt
letters (suc n) = (refl, refl, refl, letters n)

mach_cmd2argv-overrun_example : mach_cmd2argv is_blank (replicate 1000 97) ≡ overrun
mach_cmd2argv-overrun_example =
    mach_cmd2argv-overrun is_blank (replicate 1000 97) (letters 1000)
      (omega (arith, length-replicate {A = ℕ} 1000 97))
