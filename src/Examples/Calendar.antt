-- ===== src/Examples/Calendar.antt =====
-- src/core.c: the theorems on calendar intervals, at a job that is to start at 03:30 on the first of a month.
use launchd.Base.{◌++◌, ℕ, ◌+◌, ◌≡◌, refl, none, some, List, [], ◌∷◌, codes, arith}
use launchd.Data.Types.{LaunchData, dictionary, string, scalar, integer, slot, nil}
use launchd.Data.Dict.{launch_data_dict_iterate, same_name}
use launchd.Calendar.Types.{Tm, When, Clock, CalendarInterval}
use launchd.Calendar.Cron.{cronemu_mon, cronemu_years, cronemu, next_time}
use launchd.Calendar.Matching.{Matches, cronemu_years-Matches}
use launchd.Calendar.Request.{calendarinterval_new_from_obj, walk_all, dict_walk, set_field}
use launchd.Calendar.Accepted.{IsInRange, new_from_obj-IsInRange}
use launchd.World.Store.{World, done}
use launchd.World.Calendar.{calendarinterval_setalarm}
use launchd.World.Agenda.{AllFrom, IsSorted, first_time, setalarm-IsSorted}
use launchd.Job.Types.{calendar_alarm}
use launchd.Examples.Fixtures.{running_world}

-- At noon on the first of January 2014.
abbrev noon : Tm
noon = record { sec = 0; min = 0; hour = 12; mday = 1; mon = 0; year = 114; wday = 3; isdst = none }

-- A clock that shows noon, and a mktime(3) that leaves all fields alone and counts minutes of a day.
abbrev still_clock : Clock
still_clock = record { time = λ t. 1000; localtime = λ n. noon; mktime = λ t. (t, t.min + t.hour) }

-- 03:30 on the first of February.
abbrev request : When
request = record { minute = some 30; hour = some 3; mday = some 1; wday = none; mon = some 1 }

abbrev found_time : Tm
found_time = record {
  sec = 0;
  min = 30;
  hour = 3;
  mday = 1;
  mon = 1;
  year = 114;
  wday = 3;
  isdst = none;
}

found_run : cronemu_years still_clock 3 3 noon request ≡ some found_time
unfolding cronemu_years cronemu_mon
found_run = refl

cronemu_years-Matches_example : Matches request found_time
cronemu_years-Matches_example = cronemu_years-Matches still_clock 3 3 noon request found_run

-- The dictionary that asks for it.
abbrev entry : LaunchData
entry = dictionary (slot (string (codes "Hour") 0) (slot (scalar integer 3) nil))

abbrev at_three : When
at_three = record { minute = none; hour = some 3; mday = none; wday = none; mon = none }

entry_accepted : calendarinterval_new_from_obj entry ≡ some (some at_three)
unfolding calendarinterval_new_from_obj walk_all dict_walk set_field same_name
    launch_data_dict_iterate
entry_accepted = refl

new_from_obj-IsInRange_example : IsInRange at_three
new_from_obj-IsInRange_example = new_from_obj-IsInRange entry at_three entry_accepted

abbrev interval : ℕ → ℕ → ℕ → CalendarInterval
interval id job at = record { id = id; job = job; when = at_three; when_next = at }

abbrev agenda : List CalendarInterval
agenda = interval 1 5 10 ∷ interval 2 6 20 ∷ interval 3 5 30 ∷ []

agenda-IsSorted : IsSorted agenda
agenda-IsSorted = ((omega arith, (omega arith, tt)), ((omega arith, tt), (tt, tt)))

abbrev planned_world : World
planned_world = record running_world { calendar = agenda }

-- 12:30 + 1, by the clock that counts hours and minutes.
planned : next_time still_clock 3 (still_clock.time planned_world.sys.trace) at_three ≡ some 3
unfolding next_time cronemu cronemu_years cronemu_mon
planned = refl

setalarm-IsSorted_example :
    (w' : World) × (alarm : ℕ) × (before : List CalendarInterval) × (after : List CalendarInterval)
    × (calendarinterval_setalarm still_clock 3 (interval 4 7 0) planned_world ≡ done tt w')
    × (planned_world.calendar ≡ before ++ after)
    × (w'.calendar ≡ before ++ (interval 4 7 3 ∷ after))
    × IsSorted w'.calendar
    × (w'.sys.trace ≡ calendar_alarm alarm ∷ planned_world.sys.trace)
    × (first_time w'.calendar ≡ some alarm)
    × AllFrom alarm w'.calendar
setalarm-IsSorted_example =
    setalarm-IsSorted still_clock 3 (interval 4 7 0) planned_world planned agenda-IsSorted
