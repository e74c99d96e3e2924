-- ===== src/Arguments/Scan.antt =====
-- src/core.c: mach_cmd2argv.
use launchd.Base.{
  ℕ, zero, suc, Bool, true, false, Option, none, some, List, [], ◌∷◌, length, ltb, ◌==◌,
  if◌then◌else◌,
}

-- One argument, what is left of the string behind it, and the bytes left in `args`.
pub record Word : Type 0 where
  pub text : List ℕ
  pub rest : List ℕ
  pub room : ℕ

abbrev pub add_byte : ℕ → Word → Word
add_byte c w = record w { text = c ∷ w.text }

-- Whether an argument ends: at the next quotation mark, if it began with one, or else at a space.
unfoldable pub ends_at : (ℕ → Bool) → Bool → ℕ → Bool
ends_at isspace quoted c = if quoted then c == 34 else isspace c

-- The inner loop. A backslash stands for the byte behind it; at the end of the string that is the byte
-- which ends it, so that the text is no longer for it.
unfoldable pub take_word : (ℕ → Bool) → Bool → ℕ → List ℕ → Word
unfolding ends_at
take_word isspace quoted room [] = record { text = []; rest = []; room = room }
take_word isspace quoted zero (c ∷ cs) = record { text = []; rest = c ∷ cs; room = zero }
take_word isspace quoted (suc room) (c ∷ []) =
    if ends_at isspace quoted c
    then record { text = []; rest = c ∷ []; room = suc room }
    else if c == 92
    then record { text = []; rest = []; room = room }
    else record { text = c ∷ []; rest = []; room = room }
take_word isspace quoted (suc room) (c ∷ (e ∷ cs)) =
    let escaped = add_byte e (take_word isspace quoted room cs) in
    let plain = add_byte c (take_word isspace quoted room (e ∷ cs)) in
    if ends_at isspace quoted c
    then record { text = []; rest = c ∷ (e ∷ cs); room = suc room }
    else if c == 92
    then escaped
    else plain

unfoldable pub skip_spaces : (ℕ → Bool) → List ℕ → List ℕ
skip_spaces isspace [] = []
skip_spaces isspace (c ∷ cs) = if isspace c then skip_spaces isspace cs else c ∷ cs

-- A quotation mark begins an argument, the one that ended the last argument too.
unfoldable pub open_word : (ℕ → Bool) → ℕ → List ℕ → Word
unfolding take_word
open_word isspace room [] = take_word isspace false room []
open_word isspace room (c ∷ cs) =
    if c == 34 then take_word isspace true room cs else take_word isspace false room (c ∷ cs)

pub data Parsed : Type 0 where
  parsed : List (List ℕ) → Parsed
  -- a byte is written behind `args` or `argv`
  overrun : Parsed
  out_of_fuel : Parsed

abbrev pub add_word : List ℕ → Parsed → Parsed
add_word text (parsed ws) = parsed (text ∷ ws)
add_word text r = r

-- The byte that ends an argument is written without a test.
unfoldable pub end_word : Word → (ℕ → List ℕ → Parsed) → Parsed
end_word w next = elim w.room [ zero ↦ overrun | suc room ↦ add_word w.text (next room w.rest) ]

-- The outer loop.
unfoldable pub scan : ℕ → (ℕ → Bool) → ℕ → List ℕ → Parsed
unfolding open_word skip_spaces end_word
scan zero isspace room cp = out_of_fuel
scan (suc fuel) isspace room [] = parsed []
scan (suc fuel) isspace room (c ∷ cs) =
    end_word (open_word isspace room (skip_spaces isspace (c ∷ cs)))
      (λ room' rest. scan fuel isspace room' rest)

-- What mach_cmd2argv returns, NULL where there are no arguments; or it writes behind a buffer; or its loop has
-- not ended.
pub data Command : Type 0 where
  returns : Option (List (List ℕ)) → Command
  overrun : Command
  out_of_fuel : Command

-- No more than 100 arguments are kept, and behind them a NULL is written.
unfoldable pub argv_of : Parsed → Command
argv_of (parsed ws) =
    if length ws == 0
    then returns none
    else if ltb (length ws) 100
    then returns (some ws)
    else overrun
argv_of overrun = overrun
argv_of out_of_fuel = out_of_fuel

unfoldable pub mach_cmd2argv : (ℕ → Bool) → List ℕ → Command
unfolding scan argv_of
mach_cmd2argv isspace string = argv_of (scan (suc (suc (length string))) isspace 1000 string)
