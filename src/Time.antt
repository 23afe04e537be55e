-- ===== src/Time.antt =====
-- app/timeutil.py and the parts of Python's `datetime` that the code uses. An instant is the
-- number of microseconds since 0001-01-01T00:00 UTC; a wall time is the same count on the clock of
-- a zone; a date is a number of days since 0001-01-01, which is a Monday.
use office_attendance_backen.Base.{ℕ, ◌+◌, ◌*◌, ◌/◌, ◌%◌, String, Bool, Option, or_else}

abbrev pub Instant : Type 0
Instant = ℕ

abbrev pub Wall : Type 0
Wall = ℕ

abbrev pub Date : Type 0
Date = ℕ

-- Microseconds since midnight, `datetime.time`.
abbrev pub TimeOfDay : Type 0
TimeOfDay = ℕ

abbrev pub minute_us : ℕ
minute_us = 60000000

abbrev pub day_us : ℕ
day_us = 86400000000

-- `timedelta(minutes=n)`
abbrev pub minutes : ℕ → ℕ
minutes n = n * minute_us

-- `date.weekday()`: 0 is Monday.
abbrev pub weekday : Date → ℕ
weekday d = d % 7

-- `datetime.combine(date, time)`, on the wall clock.
abbrev pub combine : Date → TimeOfDay → Wall
combine d t = d * day_us + t

-- The tz database behind `zoneinfo`: which names it knows, and for each zone its wall clock at an
-- instant and the instant that a wall time stands for.
pub record Zones : Type 0 where
  pub is_known : String → Bool
  pub to_wall : String → Instant → Wall
  pub to_instant : String → Wall → Instant

-- `now.astimezone(tz).date()`
abbrev pub local_date_of : Zones → String → Instant → Date
local_date_of z tz now = z.to_wall tz now / day_us

-- `now_utc`: the DEV_MODE override, else the clock.
unfoldable pub now_utc : Option Instant → Instant → Instant
now_utc override clock = or_else override clock
