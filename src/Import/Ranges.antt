-- ===== src/Import/Ranges.antt =====
-- src/core.c: the ranges of what job_import_integer sets.
use launchd.Base.{
  ℕ, ◌-◌, ◌%◌, ◌^◌, ◌<◌, ◌≡◌, Bool, true, false, ◌&&◌, ◌||◌, List, leb, ltb, if◌then◌else◌, all,
  arith, codes,
}
use launchd.Data.Dict.{same_name}
use launchd.Import.Numbers.{
  Numbers, starts, jetsam_priority_setup, set_exit, set_nice, set_time, set_mask, set_start,
  job_import_integer,
}

-- The times are 32-bit numbers, as are those of the timers that were set, none of which is zero; the priority
-- is from -20 to 20; and a umask has 16 bits.
unfoldable pub is_in_range : Numbers → Bool
is_in_range j =
    ltb j.exit_timeout (2 ^ 32)
    && ltb j.timeout (2 ^ 32)
    && ltb j.min_run_time (2 ^ 32)
    && ltb j.start_interval (2 ^ 32)
    && (leb j.nice 20 || leb (2 ^ 32 - 20) j.nice)
    && ltb j.mask (2 ^ 16)
    && all (λ t. ltb 0 t && ltb t (2 ^ 32)) j.timers

set_exit-is_in_range :
    (j : Numbers) (key : List ℕ) (value : ℕ)
    → is_in_range j ≡ true
    → is_in_range (set_exit j key value) ≡ true
unfolding is_in_range set_exit
set_exit-is_in_range j key value h = ground (arith, h)

mod_16 : (value : ℕ) → value % 2 ^ 16 < 2 ^ 16
mod_16 value = omega arith

set_nice-is_in_range :
    (j : Numbers) (key : List ℕ) (value : ℕ)
    → value < 2 ^ 64
    → is_in_range j ≡ true
    → is_in_range (set_nice j key value) ≡ true
unfolding is_in_range set_nice
set_nice-is_in_range j key value w h = ground (arith, h, w)

set_time-is_in_range :
    (j : Numbers) (key : List ℕ) (value : ℕ)
    → is_in_range j ≡ true
    → is_in_range (set_time j key value) ≡ true
unfolding is_in_range set_time
set_time-is_in_range j key value h = ground (arith, h)

set_mask-is_in_range :
    (j : Numbers) (key : List ℕ) (value : ℕ)
    → is_in_range j ≡ true
    → is_in_range (set_mask j key value) ≡ true
unfolding is_in_range set_mask
set_mask-is_in_range j key value h = ground (arith, h, mod_16 value)

set_start-is_in_range :
    (sandbox : Bool) (j : Numbers) (key : List ℕ) (value : ℕ)
    → is_in_range j ≡ true
    → is_in_range (set_start sandbox j key value) ≡ true
unfolding is_in_range set_start
set_start-is_in_range sandbox j key value h = ground (arith, h)

jetsam-is_in_range :
    (band : ℕ → ℕ) (j : Numbers) (b : Bool) (value : ℕ)
    → is_in_range j ≡ true
    → is_in_range (if b then jetsam_priority_setup band j value else j) ≡ true
unfolding is_in_range jetsam_priority_setup
jetsam-is_in_range band j true value h = h
jetsam-is_in_range band j false value h = h

-- What job_import_integer sets stays in range, whatever the key and the 64-bit value: the times are 32-bit
-- numbers, as are those of the timers, none of which is zero; the priority is from -20 to 20, and the umask
-- has 16 bits; if that was so before.
pub job_import_integer-is_in_range :
    (band : ℕ → ℕ) (sandbox : Bool) (j : Numbers) (key : List ℕ) (value : ℕ)
    → value < 2 ^ 64
    → is_in_range j ≡ true
    → is_in_range (job_import_integer band sandbox j key value) ≡ true
unfolding job_import_integer
job_import_integer-is_in_range band sandbox j key value w h =
    cases (starts key b'a' || starts key b'e') (starts key b'j') (starts key b'n') (starts key b't')
      (starts key b'u') (starts key b's')
  where
    cases :
        (e j' n t u s : Bool)
        → is_in_range (
            if e
            then set_exit j key value
            else if j'
            then set_nice
                (if same_name key (codes "JetsamPriority")
                  then jetsam_priority_setup band j value
                  else j)
                key
                value
            else if n
            then set_nice j key value
            else if t
            then set_time j key value
            else if u
            then set_mask j key value
            else if s
            then set_start sandbox j key value
            else j)
          ≡ true
    cases true j' n t u s = set_exit-is_in_range j key value h
    cases false true n t u s =
        set_nice-is_in_range _ key value w
          (jetsam-is_in_range band j (same_name key (codes "JetsamPriority")) value h)
    cases false false true t u s = set_nice-is_in_range j key value w h
    cases false false false true u s = set_time-is_in_range j key value h
    cases false false false false true s = set_mask-is_in_range j key value h
    cases false false false false false true = set_start-is_in_range sandbox j key value h
    cases false false false false false false = h
