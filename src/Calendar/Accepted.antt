-- ===== src/Calendar/Accepted.antt =====
-- src/core.c: a StartCalendarInterval that is accepted has its fields in range.
use launchd.Base.{
  if◌then◌else◌, ℕ, ◌≤◌, ◌≡◌, Bool, true, false, Option, none, some, List, [], ◌∷◌, arith, subst,
}
use launchd.Data.Types.{
  LaunchData, dictionary, array, string, no_string, opaque, scalar, integer, fd, real, boolean,
  errno, machport,
}
use launchd.Data.Dict.{launch_data_dict_iterate}
use launchd.Calendar.Types.{When}
use launchd.Calendar.Request.{
  Request, any_time, set_field, dict_walk, walk_all, calendarinterval_new_from_obj,
}

-- A field is not given, or lies in a range.
abbrev pub IsWithin : ℕ → ℕ → Option ℕ → Type 0
IsWithin lo hi none = Unit {0}
IsWithin lo hi (some n) = (lo ≤ n) × (n ≤ hi)

pub record IsInRange (w : When) : Type 0 where
  pub minute : IsWithin 0 59 w.minute
  pub hour : IsWithin 0 23 w.hour
  pub mday : IsWithin 1 31 w.mday
  pub wday : IsWithin 0 7 w.wday
  pub mon : IsWithin 0 11 w.mon

set_field-IsInRange :
    (key : List ℕ) (val : ℕ) (r : Request) → IsInRange r.when → IsInRange (set_field key val r).when
unfolding set_field
set_field-IsInRange key val r h = ground arith

-- What a walk ends with, where it does not fault.
abbrev Ok : Option Request → Type 0
Ok none = Unit {0}
Ok (some r) = IsInRange r.when

dict_walk-Ok :
    (value : Option LaunchData) (key : List ℕ) (r : Request)
    → IsInRange r.when
    → Ok (dict_walk value key r)
unfolding dict_walk
dict_walk-Ok none key r h = tt
dict_walk-Ok (some (scalar integer val)) key r h = set_field-IsInRange key val r h
dict_walk-Ok (some (scalar fd val)) key r h = h
dict_walk-Ok (some (scalar real val)) key r h = h
dict_walk-Ok (some (scalar boolean val)) key r h = h
dict_walk-Ok (some (scalar errno val)) key r h = h
dict_walk-Ok (some (scalar machport val)) key r h = h
dict_walk-Ok (some (dictionary xs)) key r h = h
dict_walk-Ok (some (array xs)) key r h = h
dict_walk-Ok (some (string t e)) key r h = h
dict_walk-Ok (some no_string) key r h = h
dict_walk-Ok (some (opaque b)) key r h = h

walk_all-Ok :
    (visits : List (Option LaunchData × List ℕ)) (r : Request)
    → IsInRange r.when
    → Ok (walk_all visits r)
unfolding walk_all
walk_all-Ok [] r h = h
walk_all-Ok ((value, key) ∷ rest) r h =
    on_walk (dict_walk value key r) (dict_walk-Ok value key r h) (λ r' h'. walk_all-Ok rest r' h')
  where
    on_walk :
        (o : Option Request)
        → Ok o
        → ((r' : Request) → IsInRange r'.when → Ok (walk_all rest r'))
        → Ok (elim o [ none ↦ none | some r' ↦ walk_all rest r' ])
    on_walk none f ih = tt
    on_walk (some r') f ih = ih r' f

result-IsInRange :
    (b : Bool) (u w : When)
    → IsInRange u
    → some (if b then none else some u) ≡ some (some w)
    → IsInRange w
result-IsInRange true u w f h = cc
result-IsInRange false u w f h = let same : u ≡ w = cc in subst IsInRange same f

walk-IsInRange :
    (w : When) (o : Option Request)
    → Ok o
    → elim o [ none ↦ none | some r ↦ some (if r.bad then none else some r.when) ] ≡ some (some w)
    → IsInRange w
walk-IsInRange w none f h = cc
walk-IsInRange w (some r) f h = result-IsInRange r.bad r.when w f h

-- A StartCalendarInterval that is accepted asks for minutes up to 59, hours up to 23, days from 1 to 31,
-- days of the week up to 7 and months up to 11, counted from 0, where it asks for them.
pub new_from_obj-IsInRange :
    (obj : LaunchData) (w : When) → calendarinterval_new_from_obj obj ≡ some (some w) → IsInRange w
unfolding calendarinterval_new_from_obj
new_from_obj-IsInRange (dictionary xs) w h = on_visits (launch_data_dict_iterate xs) h
  where
    on_visits :
        (o : Option (List (Option LaunchData × List ℕ)))
        → elim o [
          | none ↦ none
          | some visits ↦ elim (walk_all visits (record { bad = false; when = any_time })) [
            | none ↦ none
            | some r ↦ some (if r.bad then none else some r.when)
          ]
        ]
          ≡ some (some w)
        → IsInRange w
    on_visits none e = cc
    on_visits (some visits) e =
        walk-IsInRange w (walk_all visits (record { bad = false; when = any_time }))
          (walk_all-Ok visits (record { bad = false; when = any_time })
            (record { minute = tt; hour = tt; mday = tt; wday = tt; mon = tt }))
          e
new_from_obj-IsInRange (array xs) w h = cc
new_from_obj-IsInRange (string t e) w h = cc
new_from_obj-IsInRange no_string w h = cc
new_from_obj-IsInRange (opaque b) w h = cc
new_from_obj-IsInRange (scalar t v) w h = cc
