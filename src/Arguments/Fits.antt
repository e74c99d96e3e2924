-- ===== src/Arguments/Fits.antt =====
-- src/core.c: what mach_cmd2argv writes fits into its buffers, or does not.
use launchd.Base.{
  ℕ, zero, suc, ◌+◌, ◌≤◌, ◌<◌, ◌≡◌, refl, ap, sym, ◌∙◌, Bool, true, false, ◌||◌, List, [], ◌∷◌,
  length, ◌==◌, arith, Bool-cases, if_both, if_cases, inl, inr,
}
use launchd.Arguments.Scan.{
  Word, ends_at, take_word, skip_spaces, open_word, Parsed, parsed, overrun, out_of_fuel, add_word,
  end_word, scan,
}

-- What is left begins with a space or a quotation mark, if it is anything.
abbrev pub IsSeparated : (ℕ → Bool) → List ℕ → Type 0
IsSeparated isspace [] = Unit {0}
IsSeparated isspace (c ∷ cs) = (isspace c || (c == 34)) ≡ true

-- A word was taken from `n` bytes with room for more than these.
pub record IsTaken (isspace : ℕ → Bool) (n : ℕ) (w : Word) : Type 0 where
  pub room : length w.rest < w.room
  pub text : length w.text + length w.rest ≤ n
  pub rest : IsSeparated isspace w.rest

ends-IsSeparated :
    (isspace : ℕ → Bool) (quoted : Bool) (c : ℕ) (cs : List ℕ)
    → ends_at isspace quoted c ≡ true
    → IsSeparated isspace (c ∷ cs)
unfolding ends_at
ends-IsSeparated isspace true c cs h = elim (Bool-cases (isspace c)) [
  | inl e ↦ rw e refl
  | inr e ↦ rw e h
]
ends-IsSeparated isspace false c cs h = rw h refl

take-IsTaken :
    (isspace : ℕ → Bool) (quoted : Bool) (room : ℕ) (cp : List ℕ)
    → length cp < room
    → IsTaken isspace (length cp) (take_word isspace quoted room cp)
unfolding take_word
take-IsTaken isspace quoted room [] h = record { room = h; text = omega arith; rest = tt }
take-IsTaken isspace quoted zero (c ∷ cs) h = absurd (omega (arith, h))
take-IsTaken isspace quoted (suc room) (c ∷ []) h =
    if_cases (IsTaken isspace 1) (ends_at isspace quoted c)
      (λ e. record { room = h; text = omega arith; rest = ends-IsSeparated isspace quoted c [] e })
      (λ e.
        if_both (IsTaken isspace 1) (c == 92)
          (record { room = omega (arith, h); text = omega arith; rest = tt })
          (record { room = omega (arith, h); text = omega arith; rest = tt }))
take-IsTaken isspace quoted (suc room) (c ∷ (e ∷ cs)) h =
    let n = suc (suc (length cs)) in
    let escaped = take-IsTaken isspace quoted room cs (omega (arith, h)) in
    let plain = take-IsTaken isspace quoted room (e ∷ cs) (omega (arith, h)) in
    if_cases (IsTaken isspace n) (ends_at isspace quoted c)
      (λ x. record {
        room = h;
        text = omega arith;
        rest = ends-IsSeparated isspace quoted c (e ∷ cs) x;
      })
      (λ x.
        if_both (IsTaken isspace n) (c == 92)
          (record { room = escaped.room; text = omega (arith, escaped.text); rest = escaped.rest })
          (record { room = plain.room; text = omega (arith, plain.text); rest = plain.rest }))

pub weaken :
    (isspace : ℕ → Bool) (n m : ℕ) (w : Word) → n ≤ m → IsTaken isspace n w → IsTaken isspace m w
weaken isspace n m w h t = record { room = t.room; text = omega (arith, h, t.text); rest = t.rest }

pub length-skip_spaces :
    (isspace : ℕ → Bool) (cs : List ℕ) → length (skip_spaces isspace cs) ≤ length cs
unfolding skip_spaces
length-skip_spaces isspace [] = omega arith
length-skip_spaces isspace (c ∷ cs) =
    if_both (λ (x : List ℕ). length x ≤ suc (length cs)) (isspace c)
      (omega (arith, length-skip_spaces isspace cs)) (omega arith)

pub open-IsTaken :
    (isspace : ℕ → Bool) (room : ℕ) (cp : List ℕ)
    → length cp < room
    → IsTaken isspace (length cp) (open_word isspace room cp)
unfolding open_word
open-IsTaken isspace room [] h = take-IsTaken isspace false room [] h
open-IsTaken isspace room (c ∷ cs) h =
    if_both (IsTaken isspace (suc (length cs))) (c == 34)
      (weaken isspace (length cs) (suc (length cs)) _ (omega arith)
        (take-IsTaken isspace true room cs (omega (arith, h))))
      (take-IsTaken isspace false room (c ∷ cs) h)

-- What separates two words takes a byte at least.
next-IsTaken :
    (isspace : ℕ → Bool) (room c : ℕ) (cs : List ℕ)
    → length cs < room
    → IsSeparated isspace (c ∷ cs)
    → IsTaken isspace (length cs) (open_word isspace room (skip_spaces isspace (c ∷ cs)))
unfolding open_word skip_spaces
next-IsTaken isspace room c cs h sep =
    if_cases (λ (x : List ℕ). IsTaken isspace (length cs) (open_word isspace room x)) (isspace c)
      (λ e.
        weaken isspace (length (skip_spaces isspace cs)) (length cs) _
          (length-skip_spaces isspace cs)
          (open-IsTaken isspace room (skip_spaces isspace cs)
            (omega (arith, h, length-skip_spaces isspace cs))))
      (λ e.
        let quote : (c == 34) ≡ true = ap (λ b. b || (c == 34)) (sym e) ∙ sep in
        rw quote (take-IsTaken isspace true room cs h))

-- The bytes of arguments, with those that end them.
abbrev pub total : List (List ℕ) → ℕ
total [] = 0
total (text ∷ ws) = suc (length text) + total ws

abbrev pub Fits : ℕ → Parsed → Type 0
Fits n (parsed ws) = total ws ≤ n
Fits n overrun = 1 ≤ 0
Fits n out_of_fuel = 1 ≤ 0

add_word-Fits :
    (n m : ℕ) (text : List ℕ) (p : Parsed)
    → suc (length text) + m ≤ n
    → Fits m p
    → Fits n (add_word text p)
add_word-Fits n m text (parsed ws) h f = omega (arith, h, f)
add_word-Fits n m text overrun h f = f
add_word-Fits n m text out_of_fuel h f = f

pub end_word-Fits :
    (isspace : ℕ → Bool) (n : ℕ) (w : Word) (next : ℕ → List ℕ → Parsed)
    → IsTaken isspace n w
    → ((room : ℕ) → length w.rest ≤ room → Fits (length w.rest) (next room w.rest))
    → Fits (suc n) (end_word w next)
unfolding end_word
end_word-Fits isspace n w next t f = with_room w.room refl
  where
    with_room : (room : ℕ) → w.room ≡ room → Fits (suc n) (end_word w next)
    with_room zero e = absurd (omega (arith, t.room, e))
    with_room (suc room) e =
        rw (end_word, e)
          (add_word-Fits (suc n) (length w.rest) w.text (next room w.rest) (omega (arith, t.text))
            (f room (omega (arith, t.room, e))))

pub scan-Fits :
    (isspace : ℕ → Bool) (fuel room : ℕ) (cp : List ℕ)
    → length cp < fuel
    → length cp ≤ room
    → IsSeparated isspace cp
    → Fits (length cp) (scan fuel isspace room cp)
unfolding scan
scan-Fits isspace zero room cp h r sep = absurd (omega (arith, h))
scan-Fits isspace (suc fuel) room [] h r sep = omega arith
scan-Fits isspace (suc fuel) room (c ∷ cs) h r sep =
    let t = next-IsTaken isspace room c cs (omega (arith, r)) sep in
    end_word-Fits isspace (length cs) _ (scan fuel isspace) t
      (λ room' enough. scan-Fits isspace fuel room' _ (omega (arith, h, t.text)) enough t.rest)
