-- ===== src/Nightly.antt =====
-- app/nightly_service.py: the idle check-out and the nightly resolution. Neither commits.
pub mod Rows
pub mod Body
pub mod Settled
pub mod Rounds
pub mod Totals
pub mod Again
pub mod Loop
use office_attendance_backen.Base.{
  ℕ, ◌+◌, ◌-◌, ◌==◌, ◌&&◌, ltb, min, Bool, true, false, not, Option, none, some, List, [], ◌∷◌,
  find, select, count_where, is_none, is_some, or_else, if◌then◌else◌,
}
use office_attendance_backen.Time.{Instant, Date, minutes, weekday, Zones, local_date_of}
use office_attendance_backen.Model.{
  Office, Roster, User, AttendanceDay, Db, DayStatus, UserStatus, is_employee, user_status_eq,
  is_day, update_rows,
}
use office_attendance_backen.World.{World}
use office_attendance_backen.Session.{Action, internal, pure, gets, or_raise, execute, ◌>>=◌, ◌>>◌}
use office_attendance_backen.Presence.{elem_ℕ, shift_bounds, ensure_off_day, upsert_day, bare_day}
use office_attendance_backen.Attendance.{assigned_roster, office_of, zoned_office}

-- The compare-and-set's `WHERE`.
abbrev pub is_open_row : ℕ → AttendanceDay → Bool
is_open_row id d = d.id == id && is_none d.check_out

-- `_close_day`: whether a row was updated, and the database.
unfoldable pub close_day : ℕ → Instant → Db → Bool × Db
close_day id check_out db = (
  ltb 0 (count_where (is_open_row id) db.days.rows),
  record db {
    days = update_rows (is_open_row id) (λ d. record d { check_out = some check_out }) db.days;
  },
)

-- The `WHERE` of `run_idle_checkout`: the moment at which the row was last seen, if it is selected.
unfoldable pub idle_since : Instant → AttendanceDay → Option Instant
idle_since cutoff d = elim d.last_seen [
  | none ↦ none
  | some seen ↦
      if is_some d.check_in && is_none d.check_out && ltb seen cutoff then some seen else none
]

-- The inner joins of the query, from a day to its user's roster and that roster's office.
unfoldable pub join_day : Db → AttendanceDay → Option (Roster × Office)
join_day db d = elim (find (λ u. u.id == d.user_id) db.users.rows) [
  | none ↦ none
  | some user ↦ elim (assigned_roster user db) [
    | none ↦ none
    | some roster ↦ elim (office_of roster db) [ none ↦ none | some o ↦ some (roster, o) ]
  ]
]

-- What the loop does with one row of the result set.
pub record Closing : Type 0 where
  pub day_id : ℕ
  pub check_out : Instant

-- `min(day.last_seen, shift_end)`, for a row that is selected and joined.
unfoldable pub closing_of : Zones → Instant → Db → AttendanceDay → Option Closing
closing_of z cutoff db d = elim (idle_since cutoff d) [
  | none ↦ none
  | some seen ↦ elim (join_day db d) [
    | none ↦ none
    | some (roster, office) ↦
        some
          (record { day_id = d.id; check_out = min seen (shift_bounds z office roster d.date).1 })
  ]
]

unfoldable pub closings : Zones → Instant → Db → List AttendanceDay → List Closing
closings z cutoff db [] = []
closings z cutoff db (d ∷ ds) =
    let rest = closings z cutoff db ds in
    elim (closing_of z cutoff db d) [ none ↦ rest | some c ↦ c ∷ rest ]

-- The loop: the number of rows that this run closed.
unfoldable pub close_all : List Closing → ℕ → Db → ℕ × Db
close_all [] closed db = (closed, db)
close_all (c ∷ cs) closed db =
    let (won, db') = close_day c.day_id c.check_out db in
    close_all cs (if won then closed + 1 else closed) db'

unfoldable pub run_idle_checkout : World → Instant → Db → ℕ × Db
run_idle_checkout w now db =
    let cutoff = now - minutes w.settings.checkout_idle_minutes in
    close_all (closings w.zones cutoff db db.days.rows) 0 db

pub record Stats : Type 0 where
  pub off_day : ℕ
  pub closed : ℕ
  pub flagged : ℕ
  pub already : ℕ

-- The upsert of a working day with no check-in.
unfoldable pub flag_day : ℕ → Date → Db → Db
flag_day user_id date db =
    (upsert_day user_id date
      (λ d. if is_none d.check_in then some (record d { status = DayStatus.flagged }) else none)
      (λ id. bare_day id user_id date DayStatus.flagged) db).1

-- A day that has a check-in.
unfoldable pub close_checked_in : AttendanceDay → Instant → Instant → Stats → Db → Stats × Db
close_checked_in day arrived shift_end s db =
    let (won, db') = close_day day.id (min (or_else day.last_seen arrived) shift_end) db in
    if is_none day.check_out
    then (
      if won then record s { closed = s.closed + 1 } else record s { already = s.already + 1 },
      db',
    )
    else (record s { already = s.already + 1 }, db)

-- A working day.
unfoldable pub resolve_working : ℕ → Date → Instant → Option AttendanceDay → Stats → Db → Stats × Db
resolve_working user_id date shift_end none s db =
    (record s { flagged = s.flagged + 1 }, flag_day user_id date db)
resolve_working user_id date shift_end (some day) s db = elim day.check_in [
  | none ↦ (record s { flagged = s.flagged + 1 }, flag_day user_id date db)
  | some arrived ↦ close_checked_in day arrived shift_end s db
]

-- The body of the loop, with the employee's roster and office.
unfoldable pub resolve_day : Zones → Instant → ℕ → Roster → Office → Stats → Db → Stats × Db
resolve_day z now user_id roster office s db =
    let date = local_date_of z office.timezone now in
    if elem_ℕ (weekday date) roster.working_days
    then resolve_working user_id date (shift_bounds z office roster date).1
        (find (is_day user_id date) db.days.rows) s db
    else (record s { off_day = s.off_day + 1 }, ensure_off_day user_id date db)

-- One round of the loop. An employee with no roster is passed over.
unfoldable pub resolve_employee : Zones → Instant → User → Stats → Action Stats
resolve_employee z now emp s = do
  found ← gets (assigned_roster emp)
  elim found [
    | none ↦ pure s
    | some roster ↦ do
      office_found ← gets (zoned_office z roster)
      office ← or_raise internal office_found
      execute (resolve_day z now emp.id roster office s)
  ]

unfoldable pub resolve_all : Zones → Instant → List User → Stats → Action Stats
resolve_all z now [] s = pure s
resolve_all z now (emp ∷ emps) s = do s' ← resolve_employee z now emp s; resolve_all z now emps s'

abbrev pub no_stats : Stats
no_stats = record { off_day = 0; closed = 0; flagged = 0; already = 0 }

abbrev pub is_active_employee : User → Bool
is_active_employee u = is_employee u.role && user_status_eq u.status UserStatus.active

unfoldable pub run_nightly_resolution : World → Instant → Action Stats
run_nightly_resolution w now = do
  employees ← gets (λ db. select is_active_employee db.users.rows)
  resolve_all w.zones now employees no_stats
