-- ===== src/Tests/Reports.antt =====
-- The monthly report: app/routers/reports.py.
use office_attendance_backen.Base.{
  ℕ, suc, ◌+◌, ◌&&◌, ◌==◌, ◌≡◌, refl, arith, String, List, [], ◌∷◌, All, count_where, map, some,
}
use office_attendance_backen.Calendar.{first_of, days_in_month}
use office_attendance_backen.Numerals.{int_of, digit_of, str_of}
use office_attendance_backen.Model.{AttendanceDay, Db, DayStatus, is_employee}
use office_attendance_backen.Session.{request, ok, err, internal, bad_request}
use office_attendance_backen.Presence.{bare_day}
use office_attendance_backen.Reports.{
  MonthlyReportRow, month_span, month_bounds, bounds_at, build_report, employees_by_name,
  split_dash, group_days, days_of, report_row, export_report, csv_header, csv_cells, csv_lines,
  csv_row,
}
use office_attendance_backen.Reports.Counts.{report_of, build_report_lem}
use office_attendance_backen.Reports.Totals.{
  DaysUnique, IsComplete, Names, build_report_totals, bounds_at_next,
}
use office_attendance_backen.Reports.Reader.{csv_read}
use office_attendance_backen.Reports.Csv.{export_report_read}
use office_attendance_backen.Tests.Data.{world, today, ayesha, office_db}

-- A flagged day of Ayesha's, 26 March 2026.
abbrev march_day : AttendanceDay
march_day = bare_day 1 2 today DayStatus.flagged

abbrev march_db : Db
march_db = office_db (march_day ∷ [])

first_of-june :
    (first_of 2026 6 ≡ 739767) × (first_of 2024 2 + days_in_month 2024 2 ≡ first_of 2024 3)
unfolding first_of days_in_month
first_of-june = (refl, refl)

month_bounds-cases :
    ((request (month_bounds "2026-03") march_db).0 ≡ ok (month_span 2026 3))
    × ((request (month_bounds "2026-4-1") march_db).0 ≡ err bad_request)
    × ((request (month_bounds "2026-June") march_db).0 ≡ err bad_request)
    × ((request (month_bounds "2026-13") march_db).0 ≡ err internal)
unfolding month_bounds bounds_at split_dash int_of digit_of
month_bounds-cases = (refl, refl, refl, refl)

build_report_lem_example :
    ((request (build_report world "2026-03") march_db).0
      ≡ report_of world march_db (request (month_bounds "2026-03") march_db).0)
    × ((id : ℕ)
        → count_where (λ u. u.id == id) (employees_by_name world march_db)
          ≡ count_where (λ u. is_employee u.role && u.id == id) march_db.users.rows)
build_report_lem_example = build_report_lem world "2026-03" march_db

abbrev march_row : MonthlyReportRow
march_row = report_row ayesha (march_day ∷ [])

march_unique : DaysUnique march_db
march_unique u d = ground arith

build_report_totals_example :
    (y : ℕ) × (m : ℕ) × Names "2026-03" y m
    × All (IsComplete march_db (month_span y m) (days_in_month y m)) (march_row ∷ [])
unfolding build_report month_bounds bounds_at split_dash int_of digit_of first_of days_in_month
    employees_by_name group_days days_of
build_report_totals_example =
    build_report_totals world "2026-03" march_db (march_row ∷ []) march_unique refl

bounds_at_next_example : (month_span 2027 1).0 ≡ suc (month_span 2026 12).1
unfolding bounds_at
bounds_at_next_example = bounds_at_next 2026 12 (month_span 2026 12) (month_span 2027 1) refl refl

abbrev march_text : String
march_text =
    "Name,Email,Present,Late,Flagged,Absent,Leave,Off Days,GPS Days,GPS Pending\r\nayesha@example.com,ayesha@example.com,0,0,1,0,0,0,0,0\r\n"

export_report-march :
    (request (export_report world "2026-03") march_db).0
    ≡ ok (march_text, "attendance-report-2026-03.csv")
unfolding export_report build_report month_bounds bounds_at split_dash int_of digit_of first_of
    days_in_month employees_by_name group_days days_of csv_lines csv_row str_of
export_report-march = refl

export_report_read_example :
    (rows : List MonthlyReportRow) × ((request (build_report world "2026-03") march_db).0 ≡ ok rows)
    × (csv_read march_text ≡ some (csv_header ∷ map csv_cells rows))
export_report_read_example =
    export_report_read world "2026-03" march_db march_text "attendance-report-2026-03.csv"
      export_report-march
