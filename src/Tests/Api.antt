-- ===== src/Tests/Api.antt =====
-- The whole API: app/main.py, and the table of days after a story of calls and jobs.
use office_attendance_backen.Base.{
  ◌≡◌, ◌⊎◌, false, refl, String, true, none, some, List, [], ◌∷◌, ltb,
}
use office_attendance_backen.Model.{AttendanceDay, DayStatus, Role, wifi, verified}
use office_attendance_backen.Time.{now_utc}
use office_attendance_backen.Session.{HttpError, request, ok, err}
use office_attendance_backen.Presence.{bare_day, shift_bounds}
use office_attendance_backen.Nightly.{join_day}
use office_attendance_backen.Numerals.{str_of, int_of, digit_of}
use office_attendance_backen.Security.{create_access_token, decode_token}
use office_attendance_backen.Deps.{claims_of, require_admin}
use office_attendance_backen.Rosters.{get_roster, users_of, delete_roster}
use office_attendance_backen.Admin.{Resolution}
use office_attendance_backen.Api.{
  Call, Route, EmployeeRoute, AdminRoute, Answer, answer_admin, serve, respond, renderable,
}
use office_attendance_backen.Api.Reads.{only_reads}
use office_attendance_backen.Api.Bodies.{check_admin}
use office_attendance_backen.Api.Errors.{respond_undone}
use office_attendance_backen.Api.Permits.{is_refusal, serve_refused}
use office_attendance_backen.Scheduler.{done, job_idle_checkout, get_time_override}
use office_attendance_backen.Days.{IsCoherent, DaysOk}
use office_attendance_backen.Days.Sweep.{job_idle_checkout_lem}
use office_attendance_backen.Days.Calls.{Event, call, nightly_job, happen_all, happen_all-DaysOk}
use office_attendance_backen.Tests.Data.{
  world, at_minute, clock_at, from_office, office_db, fresh_db, today,
}

abbrev admin_badge : String
admin_badge = create_access_token world (at_minute 530) 1 Role.admin

abbrev employee_badge : String
employee_badge = create_access_token world (at_minute 530) 2 Role.employee

abbrev by_admin : Call
by_admin = record {
  token = some admin_badge;
  x_device_token = none;
  request = from_office;
  clock = clock_at 550;
}

abbrev by_employee : Call
by_employee = record {
  token = some employee_badge;
  x_device_token = some "laptop";
  request = from_office;
  clock = clock_at 550;
}

-- A roster that is in use is not deleted.
respond_undone_example :
    let r = Route.for_admin (AdminRoute.delete_roster 1) in
    ((request (respond world by_admin r) fresh_db).1 ≡ fresh_db)
    ⊎ ((only_reads r ≡ false)
        × (a : Answer) × ((request (serve world by_admin r) fresh_db).0 ≡ ok a)
        × (renderable world a ≡ false))
unfolding respond serve require_admin create_access_token str_of claims_of decode_token int_of
    digit_of check_admin answer_admin delete_roster get_roster users_of
respond_undone_example =
    respond_undone world by_admin (Route.for_admin (AdminRoute.delete_roster 1)) fresh_db refl

-- An employee deletes no roster.
serve_refused_example :
    (x : HttpError) × (request
        (serve world by_employee (Route.for_admin (AdminRoute.delete_roster 1)))
        fresh_db
      ≡ (err x, fresh_db))
    × (is_refusal x ≡ true)
unfolding create_access_token str_of claims_of decode_token int_of digit_of
serve_refused_example =
    serve_refused world by_employee (Route.for_admin (AdminRoute.delete_roster 1)) fresh_db refl

-- Yesterday is flagged.
abbrev yesterday : AttendanceDay
yesterday = bare_day 1 2 739699 DayStatus.flagged

yesterday-IsCoherent : IsCoherent yesterday
yesterday-IsCoherent = record {
  by_method = refl;
  judged = refl;
  seen = refl;
  wifi_trusted = refl;
  left = refl;
  late = refl;
  tardy = refl;
  free = refl;
}

-- Ayesha came in at nine and was last seen at ten: at noon she is idle.
abbrev idle_day : AttendanceDay
idle_day = record (bare_day 1 2 today DayStatus.present) {
  method = some wifi;
  verification = some verified;
  check_in = some (at_minute 540);
  last_seen = some (at_minute 600);
}

idle_day-IsCoherent : IsCoherent idle_day
idle_day-IsCoherent = record {
  by_method = refl;
  judged = refl;
  seen = refl;
  wifi_trusted = refl;
  left = refl;
  late = refl;
  tardy = refl;
  free = refl;
}

-- A table of one row.
single-DaysOk :
    (d : AttendanceDay) → IsCoherent d → ltb d.id 7 ≡ true → DaysOk (office_db (d ∷ [])).days
single-DaysOk d sound low = record { coherent = (sound, tt); apart = (tt, tt); below = (low, tt) }

-- Ayesha checks in, the admin puts yesterday down as leave, and the nightly job runs.
abbrev story : List Event
story =
    call by_employee (Route.for_employee EmployeeRoute.checkin_attempt)
    ∷ call by_admin (Route.for_admin (AdminRoute.resolve_flagged_day 1 Resolution.leave none))
    ∷ nightly_job [] (at_minute 1420)
    ∷ []

happen_all-DaysOk_example : DaysOk (happen_all world story (office_db (yesterday ∷ []))).days
happen_all-DaysOk_example =
    happen_all-DaysOk world story (office_db (yesterday ∷ []))
      (single-DaysOk yesterday yesterday-IsCoherent refl)

job_idle_checkout_lem_example :
    job_idle_checkout world [] (at_minute 720) (office_db (idle_day ∷ []))
    ≡ (done 1, office_db (record idle_day { check_out = some (at_minute 600) } ∷ []))
unfolding now_utc get_time_override join_day shift_bounds
job_idle_checkout_lem_example =
    job_idle_checkout_lem world [] (at_minute 720) (office_db (idle_day ∷ []))
      (single-DaysOk idle_day idle_day-IsCoherent refl)
