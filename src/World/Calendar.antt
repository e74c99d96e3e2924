-- ===== src/World/Calendar.antt =====
-- src/core.c: the calendar intervals of all jobs, kept by their next times.
use launchd.Base.{
  not, ℕ, zero, suc, Bool, true, false, Option, none, some, List, [], ◌∷◌, ltb, ◌==◌, if◌then◌else◌,
}
use launchd.Job.Types.{calendar_alarm, raise, Kernel}
use launchd.Runtime.{emit, emit_when, runtime_add_weak_ref}
use launchd.Calendar.Types.{CalendarInterval, When, Clock}
use launchd.Calendar.Cron.{next_time}
use launchd.World.Store.{done, fault, out_of_fuel, M, ◌>>◌, when, modify_sys}
use launchd.World.Release.{set_job}
use launchd.World.Dispatch.{job_dispatch, run, sigusr1}

-- Before the first interval with a later time.
unfoldable pub insert_interval : CalendarInterval → List CalendarInterval → List CalendarInterval
insert_interval ci [] = ci ∷ []
insert_interval ci (x ∷ rest) =
    if ltb ci.when_next x.when_next then ci ∷ (x ∷ rest) else x ∷ insert_interval ci rest

abbrev pub head_time : List CalendarInterval → ℕ → ℕ
head_time [] later = later
head_time (ci ∷ rest) later = ci.when_next

-- calendarinterval_setalarm, on an interval that is not in the list.
unfoldable pub calendarinterval_setalarm : Clock → ℕ → CalendarInterval → M (Unit {0})
unfolding insert_interval
calendarinterval_setalarm clock fuel ci w =
    elim (next_time clock fuel (clock.time w.sys.trace) ci.when) [
      | none ↦ out_of_fuel
      | some later ↦
          let events = insert_interval (record ci { when_next = later }) w.calendar in
          done tt (record w {
            calendar = events;
            sys = emit (calendar_alarm (head_time events later)) w.sys;
          })
    ]

-- calendarinterval_new, with the address of the new structure.
unfoldable pub calendarinterval_new : Clock → ℕ → ℕ → ℕ → When → M (Unit {0})
unfolding calendarinterval_setalarm
calendarinterval_new clock fuel address j w = do
  calendarinterval_setalarm clock fuel (record { id = address; job = j; when = w; when_next = 0 })
  modify_sys runtime_add_weak_ref

-- The interval that is next, if there is one, is overdue.
unfoldable pub is_overdue : ℕ → List CalendarInterval → Bool
is_overdue now [] = false
is_overdue now (ci ∷ rest) = ltb ci.when_next now

unfoldable pub calendarinterval_sanity_check : Clock → M (Unit {0})
unfolding is_overdue
calendarinterval_sanity_check clock w =
    modify_sys (emit_when (is_overdue (clock.time w.sys.trace) w.calendar) (raise sigusr1)) w

unfoldable pub find_interval : ℕ → List CalendarInterval → Option CalendarInterval
find_interval a [] = none
find_interval a (ci ∷ rest) = if ci.id == a then some ci else find_interval a rest

unfoldable pub remove_interval : ℕ → List CalendarInterval → List CalendarInterval
remove_interval a [] = []
remove_interval a (ci ∷ rest) = if ci.id == a then rest else ci ∷ remove_interval a rest

abbrev first_interval : List CalendarInterval → Option ℕ
first_interval [] = none
first_interval (ci ∷ rest) = some ci.id

-- The interval behind one.
unfoldable pub interval_after : ℕ → List CalendarInterval → Option ℕ
interval_after a [] = none
interval_after a (ci ∷ rest) = if ci.id == a then first_interval rest else interval_after a rest

unlink_interval : ℕ → M (Unit {0})
unfolding remove_interval
unlink_interval a w = done tt (record w { calendar = remove_interval a w.calendar })

-- The loop of calendarinterval_callback from an interval; the one behind it is fetched before it is
-- moved. One that is not there any more was freed.
unfoldable pub fire_from : Clock → Kernel → ℕ → ℕ → ℕ → Option ℕ → M (Unit {0})
unfolding find_interval interval_after unlink_interval calendarinterval_setalarm
fire_from clock k fuel zero now at w = out_of_fuel
fire_from clock k fuel (suc rounds) now none w = done tt w
fire_from clock k fuel (suc rounds) now (some a) w = elim (find_interval a w.calendar) [
  | none ↦ fault
  | some ci ↦
      when (not (ltb now ci.when_next))
        (do
          unlink_interval a
          calendarinterval_setalarm clock fuel ci
          set_job ci.job (λ j. record j { start_pending = true })
          run fuel k (job_dispatch ci.job false)
          fire_from clock k fuel rounds now (interval_after a w.calendar))
        w
]

unfoldable pub calendarinterval_callback : Clock → Kernel → ℕ → ℕ → M (Unit {0})
unfolding fire_from
calendarinterval_callback clock k fuel rounds w =
    fire_from clock k fuel rounds (clock.time w.sys.trace) (first_interval w.calendar) w
