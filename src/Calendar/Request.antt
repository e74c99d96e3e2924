-- ===== src/Calendar/Request.antt =====
-- src/core.c: a StartCalendarInterval dictionary, read into the times that it asks for.
use launchd.Base.{
  ℕ, ◌-◌, Bool, true, false, ◌||◌, Option, none, some, List, [], ◌∷◌, ltb, ◌==◌, if◌then◌else◌,
  codes,
}
use launchd.Data.Types.{LaunchData, dictionary, scalar, integer}
use launchd.Data.Dict.{same_name, launch_data_dict_iterate}
use launchd.Calendar.Types.{When}

-- `bad` is tm_sec == -1, by which the walk tells its caller of a mistake.
pub record Request : Type 0 where
  pub bad : Bool
  pub when : When

abbrev pub any_time : When
any_time = record { minute = none; hour = none; mday = none; wday = none; mon = none }

-- A month of 0 is -1 once it is counted from 0, and so fits any month.
abbrev pub month_of : ℕ → Option ℕ
month_of val = if val == 0 then none else some (val - 1)

-- By the key, compared without regard to case. A negative value, and an unknown key, are passed over.
unfoldable pub set_field : List ℕ → ℕ → Request → Request
unfolding same_name
set_field key val r =
    if ltb 9223372036854775807 val
    then r
    else if same_name key (codes "Minute")
    then (if ltb 59 val
        then record r { bad = true }
        else record r { when = record (r.when) { minute = some val } })
    else if same_name key (codes "Hour")
    then (if ltb 23 val
        then record r { bad = true }
        else record r { when = record (r.when) { hour = some val } })
    else if same_name key (codes "Day")
    then (if ltb val 1 || ltb 31 val
        then record r { bad = true }
        else record r { when = record (r.when) { mday = some val } })
    else if same_name key (codes "Weekday")
    then (if ltb 7 val
        then record r { bad = true }
        else record r { when = record (r.when) { wday = some val } })
    else if same_name key (codes "Month")
    then (if ltb 12 val
        then record r { bad = true }
        else record r { when = record (r.when) { mon = month_of val } })
    else r

-- calendarinterval_new_from_obj_dict_walk; `none` is a NULL value.
unfoldable pub dict_walk : Option LaunchData → List ℕ → Request → Option Request
unfolding set_field
dict_walk none key r = none
dict_walk (some (scalar integer val)) key r = some (set_field key val r)
dict_walk (some _) key r = some (record r { bad = true })

unfoldable pub walk_all : List (Option LaunchData × List ℕ) → Request → Option Request
unfolding dict_walk
walk_all [] r = some r
walk_all ((value, key) ∷ rest) r = elim (dict_walk value key r) [
  | none ↦ none
  | some r' ↦ walk_all rest r'
]

-- What calendarinterval_new_from_obj passes to calendarinterval_new, if it does. `none` is a fault.
unfoldable pub calendarinterval_new_from_obj : LaunchData → Option (Option When)
unfolding walk_all launch_data_dict_iterate
calendarinterval_new_from_obj (dictionary xs) = elim (launch_data_dict_iterate xs) [
  | none ↦ none
  | some visits ↦ elim (walk_all visits (record { bad = false; when = any_time })) [
    | none ↦ none
    | some r ↦ some (if r.bad then none else some r.when)
  ]
]
calendarinterval_new_from_obj _ = some none
