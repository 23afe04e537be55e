-- ===== src/Api.antt =====
-- app/main.py: the API as one function from a call to a transaction: who is calling, the validated
-- body, the handler of the route.
pub mod Routes
pub mod Bodies
pub mod Undone
pub mod Reads
pub mod Errors
pub mod Permits
pub use Routes.{Route, OpenRoute, EmployeeRoute, AdminRoute, DebugRoute}
use office_attendance_backen.Base.{
  ℕ, String, Bool, Option, none, some, true, List, [], ◌∷◌, find, ◌==◌, ◌&&◌, if◌then◌else◌, not,
}
use office_attendance_backen.Time.{Instant}
use office_attendance_backen.Model.{Db, Float, Office, Roster, User, Device}
use office_attendance_backen.World.{World, Clock}
use office_attendance_backen.Session.{
  Action, unprocessable, internal, gets, pure, or_raise, raise_if, ◌>>=◌, ◌>>◌,
}
use office_attendance_backen.Ip.{Request}
use office_attendance_backen.Deps.{
  get_current_user, require_admin, require_active_employee, device_of,
}
use office_attendance_backen.Schemas.{
  RosterOut, OfficeOut, AttendanceDayOut, MeOut, DeviceOut, EmployeeOut, DashboardEntryOut,
  FlaggedDayOut,
}
use office_attendance_backen.Auth.{LoginResponse, signup, login, refresh}
use office_attendance_backen.Auth.Me.{me}
use office_attendance_backen.Attendance.{
  Response, low_accuracy, Beat, checkin_attempt, verify_location, heartbeat, history,
}
use office_attendance_backen.Rosters.{create_roster, update_roster, delete_roster}
use office_attendance_backen.Rosters.Views.{list_active_rosters, list_all_rosters}
use office_attendance_backen.Offices.{
  create_office, current_ip, update_office, add_public_ip, add_current_ip, remove_public_ip,
  delete_office,
}
use office_attendance_backen.Offices.Views.{list_offices}
use office_attendance_backen.Admin.{
  decide_user, disable_employee, enable_employee, delete_employee, revoke_device, verify_gps_day,
  resolve_flagged_day, list_employees, list_employee_devices, dashboard, flagged_days,
}
use office_attendance_backen.Reports.{MonthlyReportRow, build_report, export_report}
use office_attendance_backen.Nightly.{Stats}
use office_attendance_backen.Debug.{my_ip, set_time, get_time, run_nightly, run_idle}
use office_attendance_backen.Api.Bodies.{check_open, employee_ok, check_admin}

-- What a call carries beside its route: the bearer token and X-Device-Token, the addresses, the
-- readings of the clock.
pub record Call : Type 0 where
  pub token : Option String
  pub x_device_token : Option String
  pub request : Request
  pub clock : Clock

-- The bodies of the responses.
pub data Answer : Type 0 where
  healthy done : Answer
  logged_in : LoginResponse → Answer
  text : String → Answer
  file : String × String → Answer
  number : ℕ → Answer
  who : MeOut → Answer
  rosters : List RosterOut → Answer
  roster : Roster → Answer
  offices : List OfficeOut → Answer
  office : Office → Answer
  devices : List DeviceOut → Answer
  employees : List EmployeeOut → Answer
  entries : List DashboardEntryOut → Answer
  flagged : List FlaggedDayOut → Answer
  days : List AttendanceDayOut → Answer
  report : List MonthlyReportRow → Answer
  attempt : Response → Answer
  beat : Beat → Answer
  stats : Stats → Answer
  moment : Option Instant × Instant → Answer

-- The response of a handler's result.
abbrev pub as_answer {ℓ} : {A : Type ℓ} → (A → Answer) → Action A → Action Answer
as_answer f m = do a ← m; pure (f a)

-- The office of an id, as the session has it.
abbrev pub office_row : ℕ → Db → Answer
office_row id db = elim (find (λ (o : Office). o.id == id) db.offices.rows) [
  | none ↦ done
  | some o ↦ office o
]

-- The response of a write to an office: its row, read back.
abbrev pub as_office {ℓ} : {A : Type ℓ} → (A → ℕ) → Action A → Action Answer
as_office id_of m = do a ← m; gets (office_row (id_of a))

abbrev pub and_done : Action (Unit {0}) → Action Answer
and_done m = as_answer (λ _. done) m

unfoldable pub answer_open : World → Call → OpenRoute → Action Answer
answer_open w e OpenRoute.health = pure healthy
answer_open w e OpenRoute.list_active_rosters = as_answer rosters list_active_rosters
answer_open w e (OpenRoute.signup p) = and_done (signup w e.clock p)
answer_open w e (OpenRoute.login p raw_token) = as_answer logged_in (login w e.clock p raw_token)
answer_open w e (OpenRoute.refresh token) = as_answer text (refresh w e.clock token)

unfoldable pub answer_employee : World → Call → User → Device → EmployeeRoute → Action Answer
answer_employee w e user device EmployeeRoute.checkin_attempt =
    as_answer attempt (checkin_attempt w e.clock e.request user)
answer_employee w e user device (EmployeeRoute.verify_location p) =
    as_answer attempt (verify_location w e.clock p user)
answer_employee w e user device (EmployeeRoute.heartbeat p) =
    as_answer beat (heartbeat w e.clock e.request p user device)

unfoldable pub answer_admin : World → Call → User → AdminRoute → Action Answer
answer_admin w e admin AdminRoute.list_all_rosters = as_answer rosters list_all_rosters
answer_admin w e admin AdminRoute.list_offices = as_answer offices list_offices
answer_admin w e admin AdminRoute.current_ip = pure (text (current_ip w e.request))
answer_admin w e admin AdminRoute.list_employees = as_answer employees list_employees
answer_admin w e admin AdminRoute.dashboard = as_answer entries (dashboard w e.clock)
answer_admin w e admin AdminRoute.flagged_days = as_answer flagged flagged_days
answer_admin w e admin (AdminRoute.create_roster p) =
    as_answer number (create_roster e.clock admin p)
answer_admin w e admin (AdminRoute.update_roster id p) =
    as_answer roster (update_roster e.clock admin id p)
answer_admin w e admin (AdminRoute.delete_roster id) = and_done (delete_roster e.clock admin id)
answer_admin w e admin (AdminRoute.create_office p) =
    as_office (λ id. id) (create_office w e.clock admin p)
answer_admin w e admin (AdminRoute.update_office id p) =
    as_answer office (update_office w e.clock admin id p)
answer_admin w e admin (AdminRoute.add_public_ip id ip) =
    as_office (λ _. id) (add_public_ip w e.clock admin id ip)
answer_admin w e admin (AdminRoute.add_current_ip id) =
    as_office (λ _. id) (add_current_ip w e.clock admin id e.request)
answer_admin w e admin (AdminRoute.remove_public_ip id ip) =
    as_office (λ _. id) (remove_public_ip w e.clock admin id ip)
answer_admin w e admin (AdminRoute.delete_office id) = and_done (delete_office e.clock admin id)
answer_admin w e admin (AdminRoute.decide_user id p) =
    as_answer number (decide_user e.clock admin id p)
answer_admin w e admin (AdminRoute.disable_employee id) =
    as_answer number (disable_employee e.clock admin id)
answer_admin w e admin (AdminRoute.enable_employee id) =
    as_answer number (enable_employee e.clock admin id)
answer_admin w e admin (AdminRoute.delete_employee id) = and_done (delete_employee e.clock admin id)
answer_admin w e admin (AdminRoute.list_employee_devices id) =
    as_answer devices (list_employee_devices id)
answer_admin w e admin (AdminRoute.revoke_device id device_id) =
    and_done (revoke_device e.clock admin id device_id)
answer_admin w e admin (AdminRoute.verify_gps_day id action remark) =
    and_done (verify_gps_day e.clock admin id action remark)
answer_admin w e admin (AdminRoute.resolve_flagged_day id r remark) =
    and_done (resolve_flagged_day e.clock admin id r remark)
answer_admin w e admin (AdminRoute.monthly_report month) = as_answer report (build_report w month)
answer_admin w e admin (AdminRoute.export_report month) = as_answer file (export_report w month)

unfoldable pub answer_debug : World → Call → DebugRoute → Action Answer
answer_debug w e DebugRoute.my_ip = as_answer text (my_ip w e.request)
answer_debug w e DebugRoute.get_time = as_answer moment (get_time w e.clock.system)
answer_debug w e DebugRoute.run_nightly = as_answer stats (run_nightly w e.clock.system)
answer_debug w e DebugRoute.run_idle = as_answer number (run_idle w e.clock.system)
answer_debug w e (DebugRoute.set_time iso) = as_answer moment (set_time w e.clock.system iso)

-- The dependencies run first, then the body is validated, then the handler runs. The debug routes are mounted
-- only in DEV_MODE; without it their paths are not the API's, and go to the frontend if one is built.
unfoldable pub serve : World → Call → Route → Action Answer
serve w e (Route.open_to_all r) = do
  checked ← or_raise unprocessable (check_open w r)
  answer_open w e checked
serve w e Route.me = do user ← get_current_user w e.clock e.token; as_answer who (me user)
serve w e Route.history = do
  user ← require_active_employee w e.clock e.token
  as_answer days (history w e.clock user)
serve w e (Route.for_employee r) = do
  user ← require_active_employee w e.clock e.token
  device ← device_of w e.x_device_token user
  raise_if (not (employee_ok w r)) unprocessable
  answer_employee w e user device r
serve w e (Route.for_admin r) = do
  admin ← require_admin w e.clock e.token
  checked ← or_raise unprocessable (check_admin w r)
  answer_admin w e admin checked
serve w e (Route.debug r) = answer_debug w e r

-- Whether a response can be written as JSON: starlette's JSONResponse refuses infinite floats and NaN.
abbrev pub coordinate_ok : World → Option Float → Bool
coordinate_ok w none = true
coordinate_ok w (some f) = w.floats.is_finite f

abbrev offices_ok : World → List OfficeOut → Bool
offices_ok w [] = true
offices_ok w (o ∷ os) =
    let rest = offices_ok w os in coordinate_ok w o.latitude && coordinate_ok w o.longitude && rest

unfoldable pub renderable : World → Answer → Bool
renderable w (attempt (low_accuracy accuracy)) = w.floats.is_finite accuracy
renderable w (office o) = coordinate_ok w o.latitude && coordinate_ok w o.longitude
renderable w (offices os) = offices_ok w os
renderable w a = true

-- The response to a call: what the handler answers is rendered when its transaction is over.
unfoldable pub respond : World → Call → Route → Action Answer
respond w e r = do answer ← serve w e r; raise_if (not (renderable w answer)) internal; pure answer
