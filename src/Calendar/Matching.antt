-- ===== src/Calendar/Matching.antt =====
-- src/core.c: what cronemu finds has the fields that were asked for.
use launchd.Base.{
  subst, ℕ, zero, suc, ◌≡◌, refl, ◌∙◌, Bool, true, false, Option, none, some, ltb, ◌==◌,
  if◌then◌else◌, arith, Bool-cases, inl, inr,
}
use launchd.Calendar.Types.{Tm, When, Clock}
use launchd.Calendar.Cron.{
  Cron, found, passed, stuck, cronemu_min, seek, kept, next_hour, next_mday, next_mon, next_year,
  cronemu_hour, cronemu_mday, cronemu_mon, cronemu_years,
}

-- A field of a time fits what was asked.
abbrev pub Fits : Option ℕ → ℕ → Type 0
Fits none n = Unit {0}
Fits (some v) n = n ≡ v

-- What a search finds has a property.
abbrev Finds : (Tm → Type 0) → Cron → Type 0
Finds P (found v) = P v
Finds P (passed v) = Unit {0}
Finds P stuck = Unit {0}

cronemu_min-Fits :
    (w : Tm) (min : Option ℕ)
    → Finds
        (λ v. Fits min v.min × (v.hour ≡ w.hour) × (v.mday ≡ w.mday) × (v.mon ≡ w.mon))
        (cronemu_min w min)
unfolding cronemu_min
cronemu_min-Fits w none = (tt, refl, refl, refl)
cronemu_min-Fits w (some min) = ground arith

-- The larger fields that a search through the hours leaves as they were, if it is for one hour.
abbrev SameDay : Option ℕ → Tm → Tm → Type 0
SameDay none w v = Unit {0}
SameDay (some hour) w v = (v.mday ≡ w.mday) × (v.mon ≡ w.mon)

abbrev SameMonth : Option ℕ → Option ℕ → Tm → Tm → Type 0
SameMonth none hour w v = Unit {0}
SameMonth (some mday) none w v = Unit {0}
SameMonth (some mday) (some hour) w v = v.mon ≡ w.mon

-- The day and the month fit where the smaller fields are given too.
abbrev pub DayFits : Option ℕ → Option ℕ → ℕ → Type 0
DayFits none mday n = Unit {0}
DayFits (some hour) mday n = Fits mday n

abbrev pub MonthFits : Option ℕ → Option ℕ → Option ℕ → ℕ → Type 0
MonthFits none mday mon n = Unit {0}
MonthFits (some hour) none mon n = Unit {0}
MonthFits (some hour) (some mday) mon n = Fits mon n

abbrev pub Matches : When → Tm → Type 0
Matches when v =
    Fits when.minute v.min
    × Fits when.hour v.hour
    × DayFits when.hour when.mday v.mday
    × MonthFits when.hour when.mday when.mon v.mon

Finds-imp : (P Q : Tm → Type 0) (r : Cron) → ((v : Tm) → P v → Q v) → Finds P r → Finds Q r
Finds-imp P Q (found v) f h = f v h
Finds-imp P Q (passed v) f h = tt
Finds-imp P Q stuck f h = tt

Finds-kept : (P : Tm → Type 0) (w : Tm) (r : Cron) → Finds P r → Finds P (kept w r)
Finds-kept P w (found v) h = h
Finds-kept P w (passed v) h = tt
Finds-kept P w stuck h = tt

abbrev HourFound : Tm → Option ℕ → Option ℕ → Tm → Type 0
HourFound w hour min v = Fits min v.min × Fits hour v.hour × SameDay hour w v

abbrev DayFound : Tm → Option ℕ → Option ℕ → Option ℕ → Tm → Type 0
DayFound w mday hour min v =
    Fits min v.min × Fits hour v.hour × DayFits hour mday v.mday × SameMonth mday hour w v

Finds-unless :
    (P : Tm → Type 0) (b : Bool) (w : Tm) (r : Cron)
    → (b ≡ false → Finds P r)
    → Finds P (if b then passed w else r)
Finds-unless P true w r f = tt
Finds-unless P false w r f = f refl

-- The times that the helpers go on from, with a field set.
at_hour :
    (w : Tm) (hour : ℕ)
    → ltb hour w.hour ≡ false
    → let x = if ltb w.hour hour then record w { hour = hour; min = 0 } else w in
      (x.hour ≡ hour) × (x.mday ≡ w.mday) × (x.mon ≡ w.mon)
at_hour w hour h = ground arith

at_mday :
    (w : Tm) (mday : ℕ)
    → ltb mday w.mday ≡ false
    → let x = if ltb w.mday mday then record w { mday = mday; hour = 0; min = 0 } else w in
      (x.mday ≡ mday) × (x.mon ≡ w.mon)
at_mday w mday h = ground arith

at_mon :
    (w : Tm) (mon : ℕ)
    → ltb mon w.mon ≡ false
    → let x = if ltb w.mon mon then record w { mon = mon; mday = 1; hour = 0; min = 0 } else w in
      x.mon ≡ mon
at_mon w mon h = ground arith

day_from_hour :
    (w x : Tm) (mday : ℕ) (hour min : Option ℕ) (v : Tm)
    → x.mday ≡ mday
    → x.mon ≡ w.mon
    → HourFound x hour min v
    → DayFound w (some mday) hour min v
day_from_hour w x mday none min v e1 e2 h = (h.0, tt, tt, tt)
day_from_hour w x mday (some hour) min v e1 e2 h = (h.0, h.1, h.2.0 ∙ e1, h.2.1 ∙ e2)

any_day :
    (u w : Tm) (hour min : Option ℕ) (v : Tm) → HourFound u hour min v → DayFound w none hour min v
any_day u w none min v h = (h.0, tt, tt, tt)
any_day u w (some hour) min v h = (h.0, h.1, tt, tt)

abbrev MonthFound : Option ℕ → Option ℕ → Option ℕ → Option ℕ → Tm → Type 0
MonthFound mon mday hour min v =
    Fits min v.min × Fits hour v.hour × DayFits hour mday v.mday × MonthFits hour mday mon v.mon

month_from_day :
    (x : Tm) (mon : ℕ) (mday hour min : Option ℕ) (v : Tm)
    → x.mon ≡ mon
    → DayFound x mday hour min v
    → MonthFound (some mon) mday hour min v
month_from_day x mon mday none min v e h = (h.0, tt, tt, tt)
month_from_day x mon none (some hour) min v e h = (h.0, h.1, tt, tt)
month_from_day x mon (some mday) (some hour) min v e h = (h.0, h.1, h.2, h.3 ∙ e)

any_month :
    (u : Tm) (mday hour min : Option ℕ) (v : Tm)
    → DayFound u mday hour min v
    → MonthFound none mday hour min v
any_month u mday none min v h = (h.0, tt, tt, tt)
any_month u none (some hour) min v h = (h.0, h.1, tt, tt)
any_month u (some mday) (some hour) min v h = (h.0, h.1, h.2, tt)

module _ (clock : Clock) where
  seek-Finds :
      (P : Tm → Type 0) (fuel : ℕ) (inner : Tm → Cron) (advance : Tm → Tm) (field : Tm → ℕ) (w : Tm)
      → ((u : Tm) → Finds P (inner u))
      → Finds P (seek clock fuel inner advance field w)
  unfolding seek
  seek-Finds P zero inner advance field w h = tt
  seek-Finds P (suc fuel) inner advance field w h =
      seek_step (inner w) (h w) (λ n. seek-Finds P fuel inner advance field n h)
    where
      seek_step :
          (r : Cron)
          → Finds P r
          → ((n : Tm) → Finds P (seek clock fuel inner advance field n))
          → Finds P (elim r [
            | found v ↦ found v
            | passed v ↦
                let n = (clock.mktime (advance v)).0 in
                let rest = seek clock fuel inner advance field n in
                if field n == field (advance v) then rest else passed v
            | stuck ↦ stuck
          ])
      seek_step (found v) f rest = f
      seek_step (passed v) f rest =
          elim (Bool-cases (field (clock.mktime (advance v)).0 == field (advance v))) [
            | inl e ↦ rw e (rest (clock.mktime (advance v)).0)
            | inr e ↦ rw e tt
          ]
      seek_step stuck f rest = tt

  cronemu_hour-Finds :
      (fuel : ℕ) (w : Tm) (hour min : Option ℕ)
      → Finds (HourFound w hour min) (cronemu_hour clock fuel w hour min)
  unfolding cronemu_hour
  cronemu_hour-Finds fuel w none min = Finds-kept (HourFound w none min) w _ (
      seek-Finds (HourFound w none min) fuel (λ u. cronemu_min u min) next_hour (λ u. u.hour) w
        (λ u.
          Finds-imp _ (HourFound w none min) (cronemu_min u min) (λ v h. (h.0, tt, tt))
            (cronemu_min-Fits u min)))
  cronemu_hour-Finds fuel w (some hour) min =
      Finds-unless (HourFound w (some hour) min) (ltb hour w.hour) w _ (λ not_past.
        let x = if ltb w.hour hour then record w { hour = hour; min = 0 } else w in
        let e = at_hour w hour not_past in
        Finds-imp _ (HourFound w (some hour) min) (cronemu_min x min)
          (λ v h. (h.0, h.1 ∙ e.0, (h.2 ∙ e.1, h.3 ∙ e.2))) (cronemu_min-Fits x min))

  cronemu_mday-Finds :
      (fuel : ℕ) (w : Tm) (mday hour min : Option ℕ)
      → Finds (DayFound w mday hour min) (cronemu_mday clock fuel w mday hour min)
  unfolding cronemu_mday
  cronemu_mday-Finds fuel w none hour min = Finds-kept (DayFound w none hour min) w _ (
      seek-Finds (DayFound w none hour min) fuel (λ u. cronemu_hour clock fuel u hour min) next_mday
        (λ u. u.mday) w
        (λ u.
          Finds-imp (HourFound u hour min) (DayFound w none hour min)
            (cronemu_hour clock fuel u hour min) (λ v h. any_day u w hour min v h)
            (cronemu_hour-Finds fuel u hour min)))
  cronemu_mday-Finds fuel w (some mday) hour min =
      Finds-unless (DayFound w (some mday) hour min) (ltb mday w.mday) w _ (λ not_past.
        let x = if ltb w.mday mday then record w { mday = mday; hour = 0; min = 0 } else w in
        let e = at_mday w mday not_past in
        Finds-imp (HourFound x hour min) (DayFound w (some mday) hour min)
          (cronemu_hour clock fuel x hour min) (λ v h. day_from_hour w x mday hour min v e.0 e.1 h)
          (cronemu_hour-Finds fuel x hour min))

  pub cronemu_mon-Finds :
      (fuel : ℕ) (w : Tm) (mon mday hour min : Option ℕ)
      → Finds (MonthFound mon mday hour min) (cronemu_mon clock fuel w mon mday hour min)
  unfolding cronemu_mon
  cronemu_mon-Finds fuel w none mday hour min = Finds-kept (MonthFound none mday hour min) w _ (
      seek-Finds (MonthFound none mday hour min) fuel (λ u. cronemu_mday clock fuel u mday hour min)
        next_mon (λ u. u.mon) w
        (λ u.
          Finds-imp (DayFound u mday hour min) (MonthFound none mday hour min)
            (cronemu_mday clock fuel u mday hour min) (λ v h. any_month u mday hour min v h)
            (cronemu_mday-Finds fuel u mday hour min)))
  cronemu_mon-Finds fuel w (some mon) mday hour min =
      Finds-unless (MonthFound (some mon) mday hour min) (ltb mon w.mon) w _ (λ not_past.
        let x = if ltb w.mon mon then record w { mon = mon; mday = 1; hour = 0; min = 0 } else w in
        let e = at_mon w mon not_past in
        Finds-imp (DayFound x mday hour min) (MonthFound (some mon) mday hour min)
          (cronemu_mday clock fuel x mday hour min)
          (λ v h. month_from_day x mon mday hour min v e h)
          (cronemu_mday-Finds fuel x mday hour min))

  years_step :
      (r : Cron) (when : When) (w v : Tm) (rest : Tm → Option Tm)
      → Finds (MonthFound when.mon when.mday when.hour when.minute) r
      → ((x : Tm) → rest x ≡ some v → Matches when v)
      → elim r [ found u ↦ some u | passed u ↦ rest (clock.mktime (next_year u)).0 | stuck ↦ none ]
        ≡ some v
      → Matches when v
  years_step (found u) when w v rest f ih e =
      let same : u ≡ v = cc in subst (λ x. Matches when x) same f
  years_step (passed u) when w v rest f ih e = ih (clock.mktime (next_year u)).0 e
  years_step stuck when w v rest f ih e = cc

  -- What the loop over the years ends with, whatever mktime(3) does, has the minute and the hour that
  -- were asked for, the day too where an hour was, and the month too where an hour and a day were.
  pub cronemu_years-Matches :
      (fuel years : ℕ) (w : Tm) (when : When) {v : Tm}
      → cronemu_years clock fuel years w when ≡ some v
      → Matches when v
  unfolding cronemu_years
  cronemu_years-Matches fuel zero w when h = cc
  cronemu_years-Matches fuel (suc years) w when {v} h =
      years_step (cronemu_mon clock fuel w when.mon when.mday when.hour when.minute) when w v
        (λ x. cronemu_years clock fuel years x when)
        (cronemu_mon-Finds fuel w when.mon when.mday when.hour when.minute)
        (λ x e. cronemu_years-Matches fuel years x when e) h
