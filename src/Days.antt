-- ===== src/Days.antt =====
-- app/models.py `attendance_days`, across everything that writes to it: the check-ins and the
-- heartbeat, the two jobs, the admin's decisions, deletions of employees.
pub mod Tables
pub mod Writes
pub mod Keeps
pub mod Checkins
pub mod Beats
pub mod Jobs
pub mod Requests
pub mod Decisions
pub mod Answers
pub mod Calls
pub mod Idle
pub mod Sweep
use office_attendance_backen.Base.{
  ℕ, ◌<◌, ltb, ◌==◌, ◌&&◌, Bool, true, false, not, Option, none, some, List, [], ◌∷◌, ◌≡◌, All,
  is_some,
}
use office_attendance_backen.Model.{
  AttendanceDay, Table, Db, DayStatus, day_status_eq, is_wifi, is_gps_pending, is_day,
}

abbrev pub implies : Bool → Bool → Bool
implies true b = b
implies false b = true

abbrev pub by_wifi : AttendanceDay → Bool
by_wifi d = elim d.method [ none ↦ false | some m ↦ is_wifi m ]

abbrev pub is_trusted : AttendanceDay → Bool
is_trusted d = elim d.verification [ none ↦ false | some v ↦ not (is_gps_pending v) ]

-- A day is coherent: its method, its verification and the moment at which the employee was last seen
-- are there exactly if the check-in is; a WiFi day is verified; a check-out, a late status and late
-- minutes come after a check-in, an off day has none.
pub record IsCoherent (d : AttendanceDay) : Type 0 where
  pub by_method : is_some d.method ≡ is_some d.check_in
  pub judged : is_some d.verification ≡ is_some d.check_in
  pub seen : is_some d.last_seen ≡ is_some d.check_in
  pub wifi_trusted : implies (by_wifi d) (is_trusted d) ≡ true
  pub left : implies (is_some d.check_out) (is_some d.check_in) ≡ true
  pub late : implies (day_status_eq d.status DayStatus.late) (is_some d.check_in) ≡ true
  pub tardy : implies (ltb 0 d.late_minutes) (is_some d.check_in) ≡ true
  pub free : implies (day_status_eq d.status DayStatus.off_day) (not (is_some d.check_in)) ≡ true

-- Two rows with different ids and of different users or dates.
abbrev pub are_apart : AttendanceDay → AttendanceDay → Bool
are_apart a b = not (b.id == a.id) && not (is_day a.user_id a.date b)

abbrev pub AllApart : List AttendanceDay → Type 0
AllApart [] = Unit {0}
AllApart (d ∷ ds) = All (λ x. are_apart d x ≡ true) ds × AllApart ds

-- The table of days: every row is coherent, no two have one id or one user and date, and the sequence
-- is above all ids.
pub record DaysOk (t : Table AttendanceDay) : Type 0 where
  pub coherent : All IsCoherent t.rows
  pub apart : AllApart t.rows
  pub below : All (λ d. ltb d.id t.next_id ≡ true) t.rows
