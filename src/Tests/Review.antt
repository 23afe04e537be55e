-- ===== src/Tests/Review.antt =====
-- The review of a GPS check-in: app/routers/admin.py.
use office_attendance_backen.Base.{◌≡◌, none, some, [], ◌∷◌}
use office_attendance_backen.Model.{AttendanceDay, Db, DayStatus, Verification}
use office_attendance_backen.Session.{request, ok}
use office_attendance_backen.Presence.{bare_day}
use office_attendance_backen.Admin.{VerifyAction, day_by_id, verify_row, verify_gps_day}
use office_attendance_backen.Admin.Review.{verify_gps_day_lem}
use office_attendance_backen.Tests.Data.{today, clock_at, boss, office_db}

abbrev gps_row : AttendanceDay
gps_row = record (bare_day 4 2 today DayStatus.present) {
  verification = some Verification.gps_pending;
}

abbrev gps_db : Db
gps_db = office_db (gps_row ∷ [])

verify_gps_day_lem_example :
    ((request (verify_gps_day (clock_at 600) boss 4 VerifyAction.approve none) gps_db).0 ≡ ok tt)
    × (day_by_id 4
          (request (verify_gps_day (clock_at 600) boss 4 VerifyAction.approve none) gps_db).1
        ≡ some (verify_row VerifyAction.approve none 1 gps_row))
verify_gps_day_lem_example =
    verify_gps_day_lem (clock_at 600) boss 4 VerifyAction.approve none gps_db 4
