-- ===== src/Calendar/Cron.antt =====
-- src/core.c: cronemu and its helpers, which search for the next time that fits.
use launchd.Base.{ℕ, zero, suc, ◌+◌, true, false, Option, none, some, ltb, ◌==◌, if◌then◌else◌}
use launchd.Calendar.Types.{Tm, When, Clock}

-- Whether a helper found a time, with what it left in `wtm`; `stuck` is a loop that ran out of fuel.
pub data Cron : Type 0 where
  found passed : Tm → Cron
  stuck : Cron

unfoldable pub cronemu_min : Tm → Option ℕ → Cron
cronemu_min wtm none = found wtm
cronemu_min wtm (some min) =
    if ltb min wtm.min
    then passed wtm
    else found (if ltb wtm.min min then record wtm { min = min } else wtm)

-- The copy is kept if the loop found a time.
abbrev pub kept : Tm → Cron → Cron
kept wtm (found v) = found v
kept wtm (passed v) = passed wtm
kept wtm stuck = stuck

abbrev pub next_hour : Tm → Tm
next_hour v = record v { hour = v.hour + 1; min = 0 }

abbrev pub next_mday : Tm → Tm
next_mday v = record v { mday = v.mday + 1; hour = 0; min = 0 }

abbrev pub next_mon : Tm → Tm
next_mon v = record v { mon = v.mon + 1; mday = 1; hour = 0; min = 0 }

abbrev pub next_year : Tm → Tm
next_year v = record v { year = v.year + 1; mon = 0; mday = 1; hour = 0; min = 0 }

module _ (clock : Clock) where
  -- The loop of the helpers for a field that fits any time: the search inside a copy of the time goes
  -- on from the start of the next unit, until mktime(3) carries it over.
  unfoldable pub seek : ℕ → (Tm → Cron) → (Tm → Tm) → (Tm → ℕ) → Tm → Cron
  seek zero inner advance field w = stuck
  seek (suc fuel) inner advance field w = elim (inner w) [
    | found v ↦ found v
    | passed v ↦
        let n = (clock.mktime (advance v)).0 in
        let rest = seek fuel inner advance field n in
        if field n == field (advance v) then rest else passed v
    | stuck ↦ stuck
  ]

  unfoldable pub cronemu_hour : ℕ → Tm → Option ℕ → Option ℕ → Cron
  unfolding cronemu_min seek
  cronemu_hour fuel wtm none min =
      kept wtm (seek fuel (λ w. cronemu_min w min) next_hour (λ w. w.hour) wtm)
  cronemu_hour fuel wtm (some hour) min =
      if ltb hour wtm.hour
      then passed wtm
      else cronemu_min (if ltb wtm.hour hour then record wtm { hour = hour; min = 0 } else wtm) min

  unfoldable pub cronemu_mday : ℕ → Tm → Option ℕ → Option ℕ → Option ℕ → Cron
  unfolding cronemu_hour seek
  cronemu_mday fuel wtm none hour min =
      kept wtm (seek fuel (λ w. cronemu_hour fuel w hour min) next_mday (λ w. w.mday) wtm)
  cronemu_mday fuel wtm (some mday) hour min =
      if ltb mday wtm.mday
      then passed wtm
      else cronemu_hour fuel
          (if ltb wtm.mday mday then record wtm { mday = mday; hour = 0; min = 0 } else wtm) hour
          min

  unfoldable pub cronemu_mon : ℕ → Tm → Option ℕ → Option ℕ → Option ℕ → Option ℕ → Cron
  unfolding cronemu_mday seek
  cronemu_mon fuel wtm none mday hour min =
      kept wtm (seek fuel (λ w. cronemu_mday fuel w mday hour min) next_mon (λ w. w.mon) wtm)
  cronemu_mon fuel wtm (some mon) mday hour min =
      if ltb mon wtm.mon
      then passed wtm
      else cronemu_mday fuel
          (if ltb wtm.mon mon then record wtm { mon = mon; mday = 1; hour = 0; min = 0 } else wtm)
          mday hour min

  unfoldable pub cronemu_years : ℕ → ℕ → Tm → When → Option Tm
  unfolding cronemu_mon
  cronemu_years fuel zero w when = none
  cronemu_years fuel (suc years) w when =
      elim (cronemu_mon fuel w when.mon when.mday when.hour when.minute) [
        | found v ↦ some v
        | passed v ↦ cronemu_years fuel years (clock.mktime (next_year v)).0 when
        | stuck ↦ none
      ]

  -- The minute after `now`.
  unfoldable pub next_minute : ℕ → Tm
  next_minute now =
      let w = clock.localtime now in record w { isdst = none; sec = 0; min = w.min + 1 }

  abbrev pub made : Option Tm → Option ℕ
  made none = none
  made (some w) = some (clock.mktime w).1

  -- cronemu, of which each loop has the same fuel.
  unfoldable pub cronemu : ℕ → ℕ → When → Option ℕ
  unfolding cronemu_years next_minute
  cronemu fuel now when = made (cronemu_years fuel fuel (next_minute now) when)

  -- The loop of cronemu_wday.
  unfoldable pub cronemu_days : ℕ → Tm → ℕ → Option ℕ → Option ℕ → Option Tm
  unfolding cronemu_hour
  cronemu_days zero w wday hour min = none
  cronemu_days (suc fuel) w wday hour min =
      let tomorrow = λ (v : Tm). cronemu_days fuel (clock.mktime (next_mday v)).0 wday hour min in
      elim (w.wday == wday) [
        | true ↦ elim (cronemu_hour (suc fuel) w hour min) [
          | found v ↦ some v
          | passed v ↦ tomorrow v
          | stuck ↦ none
        ]
        | false ↦ tomorrow w
      ]

  unfoldable pub cronemu_wday : ℕ → ℕ → ℕ → Option ℕ → Option ℕ → Option ℕ
  unfolding cronemu_days next_minute
  cronemu_wday fuel now wday hour min =
      made (cronemu_days fuel (next_minute now) (if wday == 7 then 0 else wday) hour min)

  -- The time that calendarinterval_setalarm computes: with a day of the week, the earlier of the two
  -- searches, or where no day of the month is given, the one for the day of the week alone.
  unfoldable pub next_time : ℕ → ℕ → When → Option ℕ
  unfolding cronemu cronemu_wday
  next_time fuel now when = elim (cronemu fuel now when) [
    | none ↦ none
    | some later ↦ elim when.wday [
      | none ↦ some later
      | some wday ↦ elim (cronemu_wday fuel now wday when.hour when.minute) [
        | none ↦ none
        | some other ↦
            some (elim when.mday [
              | none ↦ other
              | some mday ↦ if ltb later other then later else other
            ])
      ]
    ]
  ]
