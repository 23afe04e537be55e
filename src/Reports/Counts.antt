-- ===== src/Reports/Counts.antt =====
-- app/routers/reports.py `_build_report`: grouping the days by user, then counting, is counting in
-- the table.
use mathlib.Core.List.{append-nil, append_assoc}
use office_attendance_backen.Base.{
  ℕ, ◌==◌, ◌&&◌, ◌≡◌, ◌∙◌, ap, sym, refl, arith, Bool, List, [], ◌∷◌, ◌++◌, map, select,
  count_where, count_where-select, count_where-order_by, String, if◌then◌else◌, Bool-cases, inl,
  inr,
}
use office_attendance_backen.Time.{Date}
use office_attendance_backen.Model.{User, AttendanceDay, Db, DayStatus, day_status_eq, is_employee}
use office_attendance_backen.World.{World}
use office_attendance_backen.Session.{Session, Result, Result-cases, request, ok, err}
use office_attendance_backen.Reports.{
  MonthlyReportRow, Groups, append_to, group_days, days_of, has_gps, awaits_gps, report_row,
  report_rows, employees_by_name, within, month_bounds, build_report,
}

days_of-append_to :
    (id k : ℕ) (d : AttendanceDay) (groups : Groups)
    → days_of id (append_to k d groups)
      ≡ (if k == id then days_of id groups ++ d ∷ [] else days_of id groups)
unfolding days_of
days_of-append_to id k d [] = refl
days_of-append_to id k d ((j, ds) ∷ groups) = ground (arith, days_of-append_to id k d groups)

days_of-group_days :
    (id : ℕ) (ds : List AttendanceDay) (groups : Groups)
    → days_of id (group_days ds groups) ≡ days_of id groups ++ select (λ d. d.user_id == id) ds
unfolding group_days
days_of-group_days id [] groups = sym (append-nil (days_of id groups))
days_of-group_days id (d ∷ ds) groups =
    days_of-group_days id ds (append_to d.user_id d groups) ∙ elim (Bool-cases (d.user_id == id)) [
      | inl same ↦
          let rest = select (λ (x : AttendanceDay). x.user_id == id) ds in
          rw (days_of-append_to id d.user_id d groups, same)
            (append_assoc (days_of id groups) (d ∷ []) rest)
      | inr other ↦ rw (days_of-append_to id d.user_id d groups, other) refl
    ]

-- The days of a user in a span of dates that pass a test, counted in the table.
abbrev pub counted : Db → Date × Date → ℕ → (AttendanceDay → Bool) → ℕ
counted db span id p = count_where (λ d. within span d && (d.user_id == id && p d)) db.days.rows

-- A line of the report, straight from the table.
abbrev pub direct_row : Db → Date × Date → User → MonthlyReportRow
direct_row db span emp = record {
  user_id = emp.id;
  name = emp.name;
  email = emp.email;
  present_days = counted db span emp.id (λ d. day_status_eq d.status DayStatus.present);
  late_days = counted db span emp.id (λ d. day_status_eq d.status DayStatus.late);
  flagged_days = counted db span emp.id (λ d. day_status_eq d.status DayStatus.flagged);
  absent_days = counted db span emp.id (λ d. day_status_eq d.status DayStatus.absent);
  leave_days = counted db span emp.id (λ d. day_status_eq d.status DayStatus.leave);
  off_days = counted db span emp.id (λ d. day_status_eq d.status DayStatus.off_day);
  gps_days = counted db span emp.id has_gps;
  gps_pending_days = counted db span emp.id awaits_gps;
}

module _ (db : Db) (span : Date × Date) where
  grouped : Groups
  grouped = group_days (select (within span) db.days.rows) []

  count-grouped :
      (id : ℕ) (p : AttendanceDay → Bool)
      → count_where p (days_of id grouped) ≡ counted db span id p
  unfolding grouped days_of
  count-grouped id p =
      let days = select (within span) db.days.rows in
      ap (count_where p) (days_of-group_days id days [])
      ∙ count_where-select p (λ d. d.user_id == id) days
      ∙ count_where-select (λ d. d.user_id == id && p d) (within span) db.days.rows

  row-grouped : (emp : User) → report_row emp (days_of emp.id grouped) ≡ direct_row db span emp
  row-grouped emp = simp (count-grouped emp.id)

  rows-grouped : (emps : List User) → report_rows emps grouped ≡ map (direct_row db span) emps
  rows-grouped [] = refl
  rows-grouped (emp ∷ emps) = cc (row-grouped emp, rows-grouped emps)

abbrev pub report_of : World → Db → Result (Date × Date) → Result (List MonthlyReportRow)
report_of w db (ok span) = ok (map (direct_row db span) (employees_by_name w db))
report_of w db (err e) = err e

month_bounds_same : (month : String) (s : Session) → (month_bounds month s).1 ≡ s
unfolding month_bounds
month_bounds_same month s = ground arith

-- The report of a month answers the error of the month, if it has one. Otherwise it has a line for
-- each employee, by name, with the counts of the days of that employee and month in the table: the
-- grouping by user loses and mixes up nothing. Every employee has as many lines as rows.
pub build_report_lem :
    (w : World) (month : String) (db : Db)
    → ((request (build_report w month) db).0 ≡ report_of w db (request (month_bounds month) db).0)
      × ((id : ℕ)
          → count_where (λ u. u.id == id) (employees_by_name w db)
            ≡ count_where (λ u. is_employee u.role && u.id == id) db.users.rows)
unfolding build_report employees_by_name grouped
build_report_lem w month db = (
  elim (Result-cases (request (month_bounds month) db).0) [
    | inl (span, e) ↦ ground (
      arith,
      month_bounds_same month (record { durable = db; current = db }),
      rows-grouped db span (employees_by_name w db),
    )
    | inr (x, e) ↦ ground (arith, month_bounds_same month (record { durable = db; current = db }))
  ],
  λ id.
      count_where-order_by (λ a b. w.text_le a.name b.name) (λ u. u.id == id)
        (select (λ u. is_employee u.role) db.users.rows)
      ∙ count_where-select (λ u. u.id == id) (λ u. is_employee u.role) db.users.rows,
)
