-- ===== src/Admin/Views.antt =====
-- app/routers/admin.py: what an admin reads, the employees, their devices, the live dashboard and
-- the flagged days.
use mathlib.Core.Option
use office_attendance_backen.Base.{
  ℕ, ◌==◌, ◌&&◌, leb, Option, none, some, List, [], ◌∷◌, map, find, select, order_by,
}
use office_attendance_backen.Model.{
  Roster, User, AttendanceDay, Db, DayStatus, UserStatus, day_status_eq, is_employee,
  user_status_eq, is_day,
}
use office_attendance_backen.World.{World, Clock}
use office_attendance_backen.Session.{Action, pure, gets, ◌>>=◌}
use office_attendance_backen.Deps.{user_by_id}
use office_attendance_backen.Schemas.{
  EmployeeOut, DeviceOut, device_out, DashboardEntryOut, FlaggedDayOut,
}
use office_attendance_backen.Attendance.{assigned_roster, own_today}
use office_attendance_backen.Admin.Employees.{get_employee, active_device_count}

-- `_employee_out`
abbrev pub employee_out : User → ℕ → EmployeeOut
employee_out u count = record {
  id = u.id;
  name = u.name;
  email = u.email;
  phone = u.phone;
  status = u.status;
  department = u.department;
  job_title = u.job_title;
  city = u.city;
  requested_roster_id = u.requested_roster_id;
  assigned_roster_id = u.assigned_roster_id;
  admin_feedback = u.admin_feedback;
  created_at = u.created_at;
  active_device_count = count;
}

-- The newest first. The count of a user that the grouped query has no row for is 0.
unfoldable pub list_employees : Action (List EmployeeOut)
list_employees = gets (λ db.
    map (λ u. employee_out u (active_device_count u.id db))
      (order_by (λ a b. leb b.created_at a.created_at)
        (select (λ u. is_employee u.role) db.users.rows)))

unfoldable pub list_employee_devices : ℕ → Action (List DeviceOut)
list_employee_devices id = do
  _ ← get_employee id
  gets (λ db. map device_out (
      order_by (λ a b. leb b.created_at a.created_at)
        (select (λ d. d.user_id == id) db.devices.rows)))

abbrev pub dashboard_entry : User → Option Roster → Option AttendanceDay → DashboardEntryOut
dashboard_entry emp roster day = record {
  user_id = emp.id;
  name = emp.name;
  email = emp.email;
  roster_name = Option.map (λ r. r.name) roster;
  shift_start = Option.map (λ r. r.start_time) roster;
  shift_end = Option.map (λ r. r.end_time) roster;
  day_id = Option.map (λ d. d.id) day;
  status = Option.map (λ d. d.status) day;
  method = elim day [ none ↦ none | some d ↦ d.method ];
  verification = elim day [ none ↦ none | some d ↦ d.verification ];
  check_in = elim day [ none ↦ none | some d ↦ d.check_in ];
  check_out = elim day [ none ↦ none | some d ↦ d.check_out ];
  last_seen = elim day [ none ↦ none | some d ↦ d.last_seen ];
  late_minutes = elim day [ none ↦ 0 | some d ↦ d.late_minutes ];
}

-- One round of the loop of `dashboard`.
unfoldable pub entry_of : World → Clock → User → Action DashboardEntryOut
entry_of w c emp = do
  roster ← gets (assigned_roster emp)
  date ← own_today w c roster
  day ← gets (λ db. find (is_day emp.id date) db.days.rows)
  pure (dashboard_entry emp roster day)

unfoldable pub dashboard_entries : World → Clock → List User → Action (List DashboardEntryOut)
dashboard_entries w c [] = pure []
dashboard_entries w c (emp ∷ emps) = do
  entry ← entry_of w c emp
  rest ← dashboard_entries w c emps
  pure (entry ∷ rest)

unfoldable pub dashboard : World → Clock → Action (List DashboardEntryOut)
dashboard w c = do
  employees ← gets (λ db.
      order_by (λ a b. w.text_le a.name b.name)
        (select (λ u. is_employee u.role && user_status_eq u.status UserStatus.active)
          db.users.rows))
  dashboard_entries w c employees

-- `_flagged_out`
abbrev pub flagged_out : AttendanceDay → User → FlaggedDayOut
flagged_out d user = record {
  id = d.id;
  user_id = user.id;
  name = user.name;
  email = user.email;
  date = d.date;
  status = d.status;
  method = d.method;
  verification = d.verification;
  check_in = d.check_in;
  check_out = d.check_out;
  late_minutes = d.late_minutes;
  admin_note = d.admin_note;
}

-- The inner join of a day with its user.
unfoldable pub joined : Db → List AttendanceDay → List FlaggedDayOut
joined db [] = []
joined db (d ∷ ds) =
    let rest = joined db ds in
    elim (user_by_id d.user_id db) [ none ↦ rest | some user ↦ flagged_out d user ∷ rest ]

unfoldable pub flagged_days : Action (List FlaggedDayOut)
unfolding joined
flagged_days = gets (λ db. joined db (
    order_by (λ a b. leb b.date a.date)
      (select (λ d. day_status_eq d.status DayStatus.flagged) db.days.rows)))
