-- ===== src/Calendar/Types.antt =====
-- `struct tm` and `struct calendarinterval` of src/core.c, and the clock of the C library.
use launchd.Base.{ℕ, Option}
use launchd.Job.Types.{Trace}

-- Local time, by its fields. `isdst` is none where tm_isdst is -1.
pub record Tm : Type 0 where
  pub sec : ℕ
  pub min : ℕ
  pub hour : ℕ
  pub mday : ℕ
  pub mon : ℕ
  pub year : ℕ
  pub wday : ℕ
  pub isdst : Option ℕ

-- The times at which a job is to start. A field that is none, -1 in the source, fits any time.
pub record When : Type 0 where
  pub minute : Option ℕ
  pub hour : Option ℕ
  pub mday : Option ℕ
  pub wday : Option ℕ
  pub mon : Option ℕ

-- time(3), localtime(3), and mktime(3) with the fields that it leaves in its argument.
pub record Clock : Type 0 where
  pub time : Trace → ℕ
  pub localtime : ℕ → Tm
  pub mktime : Tm → Tm × ℕ

pub record CalendarInterval : Type 0 where
  pub id : ℕ
  -- the job that it starts
  pub job : ℕ
  pub when : When
  pub when_next : ℕ
