-- ===== src/Reports.antt =====
-- app/routers/reports.py: the monthly report and its export. The dependency `require_admin` has let
-- the request through.
pub mod Counts
pub mod Totals
pub mod Reader
pub mod Csv
use Prim.Native.Char.{code}
use Prim.Native.String.{◌++◌ as ◌+++◌}
use office_attendance_backen.Base.{
  ℕ, ◌+◌, ◌-◌, ◌==◌, ◌&&◌, ◌||◌, leb, String, Bool, true, false, Option, none, some, List, [], ◌∷◌,
  ◌++◌, map, select, count_where, order_by, if◌then◌else◌,
}
use office_attendance_backen.Time.{Date}
use office_attendance_backen.Calendar.{first_of, days_in_month, is_month}
use office_attendance_backen.Numerals.{ℤ, pos, negsuc, str_of, int_of}
use office_attendance_backen.Model.{
  User, AttendanceDay, Db, DayStatus, day_status_eq, is_employee, is_gps, is_gps_pending,
}
use office_attendance_backen.World.{World}
use office_attendance_backen.Session.{
  Action, bad_request, internal, pure, gets, or_raise, ◌>>=◌, ◌>>◌,
}

-- `month.split("-")`
unfoldable pub split_dash : String → List String
split_dash String.[] = "" ∷ []
split_dash (String.◌∷◌ c s) = elim (split_dash s) [
  | [] ↦ String.◌∷◌ c "" ∷ []
  | w ∷ ws ↦ if code c == b'-' then "" ∷ w ∷ ws else String.◌∷◌ c w ∷ ws
]

-- The unpacking into two variables.
abbrev pub two : List String → Option (String × String)
two (a ∷ b ∷ []) = some (a, b)
two _ = none

-- `date(year, mon, 1)` and `date(year, mon, monthrange(year, mon)[1])`
abbrev pub month_span : ℕ → ℕ → Date × Date
month_span y m = (first_of y m, first_of y m + (days_in_month y m - 1))

-- The two dates, or `none` for the ValueError of a date that is not there.
unfoldable pub bounds_at : ℤ → ℤ → Option (Date × Date)
bounds_at (pos y) (pos m) = if is_month y m then some (month_span y m) else none
bounds_at _ _ = none

-- `_month_bounds`
unfoldable pub month_bounds : String → Action (Date × Date)
unfolding split_dash bounds_at int_of
month_bounds month = do
  parts ← or_raise bad_request (two (split_dash month))
  year ← or_raise bad_request (int_of parts.0)
  mon ← or_raise bad_request (int_of parts.1)
  or_raise internal (bounds_at year mon)

pub record MonthlyReportRow : Type 0 where
  pub user_id : ℕ
  pub name : String
  pub email : String
  pub present_days : ℕ
  pub late_days : ℕ
  pub flagged_days : ℕ
  pub absent_days : ℕ
  pub leave_days : ℕ
  pub off_days : ℕ
  pub gps_days : ℕ
  pub gps_pending_days : ℕ

-- The dictionary `days_by_user`: its keys in the order of insertion.
abbrev pub Groups : Type 0
Groups = List (ℕ × List AttendanceDay)

-- `days_by_user.setdefault(d.user_id, []).append(d)`
abbrev pub append_to : ℕ → AttendanceDay → Groups → Groups
append_to id d [] = (id, d ∷ []) ∷ []
append_to id d ((k, ds) ∷ groups) =
    let rest = append_to id d groups in
    if k == id then (k, ds ++ d ∷ []) ∷ groups else (k, ds) ∷ rest

-- The loop over the days.
unfoldable pub group_days : List AttendanceDay → Groups → Groups
group_days [] groups = groups
group_days (d ∷ ds) groups = group_days ds (append_to d.user_id d groups)

-- `days_by_user.get(id, [])`
unfoldable pub days_of : ℕ → Groups → List AttendanceDay
days_of id [] = []
days_of id ((k, ds) ∷ groups) = let rest = days_of id groups in if k == id then ds else rest

-- `count(status)`
abbrev pub count_status : DayStatus → List AttendanceDay → ℕ
count_status s days = count_where (λ d. day_status_eq d.status s) days

abbrev pub has_gps : AttendanceDay → Bool
has_gps d = elim d.method [ none ↦ false | some m ↦ is_gps m ]

abbrev pub awaits_gps : AttendanceDay → Bool
awaits_gps d = elim d.verification [ none ↦ false | some v ↦ is_gps_pending v ]

abbrev pub report_row : User → List AttendanceDay → MonthlyReportRow
report_row emp days = record {
  user_id = emp.id;
  name = emp.name;
  email = emp.email;
  present_days = count_status DayStatus.present days;
  late_days = count_status DayStatus.late days;
  flagged_days = count_status DayStatus.flagged days;
  absent_days = count_status DayStatus.absent days;
  leave_days = count_status DayStatus.leave days;
  off_days = count_status DayStatus.off_day days;
  gps_days = count_where has_gps days;
  gps_pending_days = count_where awaits_gps days;
}

-- The employees, by name.
unfoldable pub employees_by_name : World → Db → List User
employees_by_name w db =
    order_by (λ a b. w.text_le a.name b.name) (select (λ u. is_employee u.role) db.users.rows)

abbrev pub within : Date × Date → AttendanceDay → Bool
within month d = leb month.0 d.date && leb d.date month.1

abbrev pub report_rows : List User → Groups → List MonthlyReportRow
report_rows employees groups = map (λ emp. report_row emp (days_of emp.id groups)) employees

-- `_build_report`, which `monthly_report` returns.
unfoldable pub build_report : World → String → Action (List MonthlyReportRow)
unfolding group_days
build_report w month = do
  bounds ← month_bounds month
  employees ← gets (employees_by_name w)
  days ← gets (λ db. select (within bounds) db.days.rows)
  pure (report_rows employees (group_days days []))

-- How `csv.writer` writes a cell: in quotes if a comma, a quote or the end of a line is in it.
abbrev pub needs_quotes : String → Bool
needs_quotes String.[] = false
needs_quotes (String.◌∷◌ c s) =
    let rest = needs_quotes s in
    code c == b',' || code c == 34 || code c == 10 || code c == 13 || rest

abbrev pub double_quotes : String → String
double_quotes String.[] = ""
double_quotes (String.◌∷◌ c s) =
    let rest = double_quotes s in
    if code c == 34 then String.◌∷◌ c (String.◌∷◌ c rest) else String.◌∷◌ c rest

abbrev pub quote : String
quote = "\""

abbrev pub csv_cell : String → String
csv_cell s = if needs_quotes s then quote +++ (double_quotes s +++ quote) else s

-- `writer.writerow`, for a row of several cells.
unfoldable pub csv_row : List String → String
csv_row [] = "\r\n"
csv_row (s ∷ []) = csv_cell s +++ "\r\n"
csv_row (s ∷ t ∷ rest) = csv_cell s +++ ("," +++ csv_row (t ∷ rest))

abbrev pub csv_header : List String
csv_header =
    "Name" ∷ "Email" ∷ "Present" ∷ "Late" ∷ "Flagged" ∷ "Absent" ∷ "Leave" ∷ "Off Days" ∷ "GPS Days"
    ∷ "GPS Pending" ∷ []

abbrev pub csv_cells : MonthlyReportRow → List String
csv_cells r =
    r.name
    ∷ r.email
    ∷ str_of r.present_days
    ∷ str_of r.late_days
    ∷ str_of r.flagged_days
    ∷ str_of r.absent_days
    ∷ str_of r.leave_days
    ∷ str_of r.off_days
    ∷ str_of r.gps_days
    ∷ str_of r.gps_pending_days
    ∷ []

unfoldable pub csv_lines : List (List String) → String
unfolding csv_row
csv_lines [] = ""
csv_lines (row ∷ rows) = csv_row row +++ csv_lines rows

-- `export_report`: the text of the file and its name.
unfoldable pub export_report : World → String → Action (String × String)
unfolding csv_lines build_report
export_report w month = do
  rows ← build_report w month
  pure (csv_lines (csv_header ∷ map csv_cells rows), "attendance-report-" +++ (month +++ ".csv"))
