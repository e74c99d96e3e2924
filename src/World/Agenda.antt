-- ===== src/World/Agenda.antt =====
-- src/core.c: the list of calendar intervals stays in order, and its alarm is set for the first.
use launchd.Base.{
  ◌++◌, ap, Option, none, ℕ, ◌≤◌, ◌≡◌, inl, inr, refl, some, List, [], ◌∷◌, ltb, ◌==◌, arith,
  Bool-cases,
}
use launchd.Job.Types.{calendar_alarm}
use launchd.Calendar.Types.{CalendarInterval, Clock}
use launchd.Calendar.Cron.{next_time}
use launchd.World.Store.{World, done}
use launchd.World.Release.{other_intervals}
use launchd.World.Calendar.{insert_interval, head_time, calendarinterval_setalarm}

-- No interval is due before `t`.
abbrev pub AllFrom : ℕ → List CalendarInterval → Type 0
AllFrom t [] = Unit {0}
AllFrom t (ci ∷ rest) = (t ≤ ci.when_next) × AllFrom t rest

abbrev pub IsSorted : List CalendarInterval → Type 0
IsSorted [] = Unit {0}
IsSorted (ci ∷ rest) = AllFrom ci.when_next rest × IsSorted rest

AllFrom-le : (s t : ℕ) (cis : List CalendarInterval) → s ≤ t → AllFrom t cis → AllFrom s cis
AllFrom-le s t [] h a = tt
AllFrom-le s t (ci ∷ rest) h a = (omega arith, AllFrom-le s t rest h a.1)

AllFrom-insert :
    (t : ℕ) (ci : CalendarInterval) (cis : List CalendarInterval)
    → t ≤ ci.when_next
    → AllFrom t cis
    → AllFrom t (insert_interval ci cis)
unfolding insert_interval
AllFrom-insert t ci [] h a = (h, tt)
AllFrom-insert t ci (x ∷ rest) h a = elim (Bool-cases (ltb ci.when_next x.when_next)) [
  | inl e ↦ rw e (h, a)
  | inr e ↦ rw e (a.0, AllFrom-insert t ci rest h a.1)
]

insert-IsSorted :
    (ci : CalendarInterval) (cis : List CalendarInterval)
    → IsSorted cis
    → IsSorted (insert_interval ci cis)
unfolding insert_interval
insert-IsSorted ci [] h = (tt, tt)
insert-IsSorted ci (x ∷ rest) h = elim (Bool-cases (ltb ci.when_next x.when_next)) [
  | inl e ↦
      rw e
        ((ground (arith, e), AllFrom-le ci.when_next x.when_next rest (ground (arith, e)) h.0), h)
  | inr e ↦
      rw e (AllFrom-insert x.when_next ci rest (ground (arith, e)) h.0, insert-IsSorted ci rest h.1)
]

head-AllFrom :
    (cis : List CalendarInterval) (later : ℕ) → IsSorted cis → AllFrom (head_time cis later) cis
head-AllFrom [] later h = tt
head-AllFrom (ci ∷ rest) later h = (omega arith, h.0)

others-AllFrom :
    (t i : ℕ) (cis : List CalendarInterval) → AllFrom t cis → AllFrom t (other_intervals i cis)
unfolding other_intervals
others-AllFrom t i [] a = tt
others-AllFrom t i (ci ∷ rest) a = elim (Bool-cases (ci.job == i)) [
  | inl e ↦ rw e (others-AllFrom t i rest a.1)
  | inr e ↦ rw e (a.0, others-AllFrom t i rest a.1)
]

-- Removing the intervals of a job keeps the rest in order.
pub other_intervals-IsSorted :
    (i : ℕ) (cis : List CalendarInterval) → IsSorted cis → IsSorted (other_intervals i cis)
unfolding other_intervals
other_intervals-IsSorted i [] h = tt
other_intervals-IsSorted i (ci ∷ rest) h = elim (Bool-cases (ci.job == i)) [
  | inl e ↦ rw e (other_intervals-IsSorted i rest h.1)
  | inr e ↦ rw e (others-AllFrom ci.when_next i rest h.0, other_intervals-IsSorted i rest h.1)
]

-- Where a list is split to put an interval in.
record Split (ci : CalendarInterval) (old new : List CalendarInterval) : Type 0 where
  before : List CalendarInterval
  after : List CalendarInterval
  was : old ≡ before ++ after
  is : new ≡ before ++ (ci ∷ after)

insert-Split :
    (ci : CalendarInterval) (cis : List CalendarInterval) → Split ci cis (insert_interval ci cis)
unfolding insert_interval
insert-Split ci [] = record { before = []; after = []; was = refl; is = refl }
insert-Split ci (x ∷ rest) = elim (Bool-cases (ltb ci.when_next x.when_next)) [
  | inl e ↦ rw e (record { before = []; after = x ∷ rest; was = refl; is = refl })
  | inr e ↦
      let split = insert-Split ci rest in
      rw e (record {
        before = x ∷ split.before;
        after = split.after;
        was = ap (x ∷◌) split.was;
        is = ap (x ∷◌) split.is;
      })
]

-- The time of the first interval.
abbrev pub first_time : List CalendarInterval → Option ℕ
first_time [] = none
first_time (ci ∷ rest) = some ci.when_next

first_time-insert :
    (ci : CalendarInterval) (cis : List CalendarInterval) (later : ℕ)
    → first_time (insert_interval ci cis) ≡ some (head_time (insert_interval ci cis) later)
unfolding insert_interval
first_time-insert ci [] later = refl
first_time-insert ci (x ∷ rest) later = elim (Bool-cases (ltb ci.when_next x.when_next)) [
  | inl e ↦ rw e refl
  | inr e ↦ rw e refl
]

-- calendarinterval_setalarm, where the search for the next time ends with `later`, puts the interval, due at
-- that time, at one place into the list of all intervals, which is otherwise as it was; the list stays in the
-- order of its times; and the only call into the kernel sets the alarm for the time of the first interval,
-- before which none is due.
pub setalarm-IsSorted :
    (clock : Clock) (fuel : ℕ) (ci : CalendarInterval) (w : World) {later : ℕ}
    → next_time clock fuel (clock.time w.sys.trace) ci.when ≡ some later
    → IsSorted w.calendar
    → (w' : World) × (alarm : ℕ) × (before : List CalendarInterval) × (after : List
        CalendarInterval)
      × (calendarinterval_setalarm clock fuel ci w ≡ done tt w')
      × (w.calendar ≡ before ++ after)
      × (w'.calendar ≡ before ++ (record ci { when_next = later } ∷ after))
      × IsSorted w'.calendar
      × (w'.sys.trace ≡ calendar_alarm alarm ∷ w.sys.trace)
      × (first_time w'.calendar ≡ some alarm)
      × AllFrom alarm w'.calendar
unfolding calendarinterval_setalarm
setalarm-IsSorted clock fuel ci w {later} e h =
    let moved : CalendarInterval = record ci { when_next = later } in
    let sorted = insert-IsSorted moved w.calendar h in
    let split = insert-Split moved w.calendar in
    (
      record w {
        calendar = insert_interval moved w.calendar;
        sys = record (w.sys) {
          trace = calendar_alarm (head_time (insert_interval moved w.calendar) later) ∷ w.sys.trace;
        };
      },
      head_time (insert_interval moved w.calendar) later,
      split.before,
      split.after,
      rw (e, calendarinterval_setalarm) refl,
      split.was,
      split.is,
      sorted,
      refl,
      first_time-insert moved w.calendar later,
      head-AllFrom (insert_interval moved w.calendar) later sorted,
    )
