-- ===== src/Days/Answers.antt =====
-- app/routers/: what each route answers keeps the table of days.
use office_attendance_backen.Base.{refl}
use office_attendance_backen.Model.{User, Device}
use office_attendance_backen.World.{World}
use office_attendance_backen.Session.{Action}
use office_attendance_backen.Auth.{signup, login}
use office_attendance_backen.Attendance.{checkin_attempt, verify_location, heartbeat}
use office_attendance_backen.Rosters.{create_roster, update_roster, delete_roster}
use office_attendance_backen.Offices.{
  create_office, update_office, add_public_ip, add_current_ip, remove_public_ip, delete_office,
}
use office_attendance_backen.Admin.{
  decide_user, disable_employee, enable_employee, delete_employee, revoke_device, verify_gps_day,
  resolve_flagged_day,
}
use office_attendance_backen.Debug.{my_ip, set_time, get_time, run_nightly, run_idle}
use office_attendance_backen.Api.Routes.{Route, OpenRoute, EmployeeRoute, AdminRoute, DebugRoute}
use office_attendance_backen.Api.{
  Call, Answer, answer_open, answer_employee, answer_admin, answer_debug, serve,
}
use office_attendance_backen.Api.Undone.{Looks}
use office_attendance_backen.Api.Reads.{serve-Looks, answer_open-Looks, answer_admin-Looks}
use office_attendance_backen.Days.Keeps.{
  KeepsDays, Looks-Keeps, Keeps-KeepsDays, KeepsDays-as_answer, KeepsDays-as_office,
}
use office_attendance_backen.Days.Checkins
use office_attendance_backen.Days.Beats
use office_attendance_backen.Days.Jobs
use office_attendance_backen.Days.Requests
use office_attendance_backen.Days.Decisions

pub reading-KeepsDays {ℓ} : {A : Type ℓ} (m : Action A) → Looks m → KeepsDays m
reading-KeepsDays m looks = Keeps-KeepsDays m (Looks-Keeps m looks)

pub answer_open-KeepsDays : (w : World) (e : Call) (r : OpenRoute) → KeepsDays (answer_open w e r)
unfolding answer_open
answer_open-KeepsDays w e (OpenRoute.signup p) =
    KeepsDays-as_answer (λ _. Answer.done) (signup w e.clock p)
      (Requests.signup-KeepsDays w e.clock p)
answer_open-KeepsDays w e (OpenRoute.login p raw_token) =
    KeepsDays-as_answer Answer.logged_in (login w e.clock p raw_token)
      (Requests.login-KeepsDays w e.clock p raw_token)
answer_open-KeepsDays w e r = reading-KeepsDays (answer_open w e r) (answer_open-Looks w e r refl)

pub answer_employee-KeepsDays :
    (w : World) (e : Call) (user : User) (device : Device) (r : EmployeeRoute)
    → KeepsDays (answer_employee w e user device r)
unfolding answer_employee
answer_employee-KeepsDays w e user device EmployeeRoute.checkin_attempt =
    KeepsDays-as_answer Answer.attempt (checkin_attempt w e.clock e.request user)
      (Checkins.checkin_attempt-KeepsDays w e.clock e.request user)
answer_employee-KeepsDays w e user device (EmployeeRoute.verify_location p) =
    KeepsDays-as_answer Answer.attempt (verify_location w e.clock p user)
      (Checkins.verify_location-KeepsDays w e.clock p user)
answer_employee-KeepsDays w e user device (EmployeeRoute.heartbeat p) =
    KeepsDays-as_answer Answer.beat (heartbeat w e.clock e.request p user device)
      (Beats.heartbeat-KeepsDays w e.clock e.request p user device)

pub answer_admin-KeepsDays :
    (w : World) (e : Call) (admin : User) (r : AdminRoute) → KeepsDays (answer_admin w e admin r)
unfolding answer_admin
answer_admin-KeepsDays w e admin (AdminRoute.create_roster p) =
    KeepsDays-as_answer Answer.number (create_roster e.clock admin p)
      (Requests.create_roster-KeepsDays e.clock admin p)
answer_admin-KeepsDays w e admin (AdminRoute.update_roster id p) =
    KeepsDays-as_answer Answer.roster (update_roster e.clock admin id p)
      (Requests.update_roster-KeepsDays e.clock admin id p)
answer_admin-KeepsDays w e admin (AdminRoute.delete_roster id) =
    KeepsDays-as_answer (λ _. Answer.done) (delete_roster e.clock admin id)
      (Requests.delete_roster-KeepsDays e.clock admin id)
answer_admin-KeepsDays w e admin (AdminRoute.create_office p) =
    KeepsDays-as_office (λ id. id) (create_office w e.clock admin p)
      (Requests.create_office-KeepsDays w e.clock admin p)
answer_admin-KeepsDays w e admin (AdminRoute.update_office id p) =
    KeepsDays-as_answer Answer.office (update_office w e.clock admin id p)
      (Requests.update_office-KeepsDays w e.clock admin id p)
answer_admin-KeepsDays w e admin (AdminRoute.add_public_ip id ip) =
    KeepsDays-as_office (λ _. id) (add_public_ip w e.clock admin id ip)
      (Requests.add_public_ip-KeepsDays w e.clock admin id ip)
answer_admin-KeepsDays w e admin (AdminRoute.add_current_ip id) =
    KeepsDays-as_office (λ _. id) (add_current_ip w e.clock admin id e.request)
      (Requests.add_current_ip-KeepsDays w e.clock admin id e.request)
answer_admin-KeepsDays w e admin (AdminRoute.remove_public_ip id ip) =
    KeepsDays-as_office (λ _. id) (remove_public_ip w e.clock admin id ip)
      (Requests.remove_public_ip-KeepsDays w e.clock admin id ip)
answer_admin-KeepsDays w e admin (AdminRoute.delete_office id) =
    KeepsDays-as_answer (λ _. Answer.done) (delete_office e.clock admin id)
      (Requests.delete_office-KeepsDays e.clock admin id)
answer_admin-KeepsDays w e admin (AdminRoute.decide_user id p) =
    KeepsDays-as_answer Answer.number (decide_user e.clock admin id p)
      (Requests.decide_user-KeepsDays e.clock admin id p)
answer_admin-KeepsDays w e admin (AdminRoute.disable_employee id) =
    KeepsDays-as_answer Answer.number (disable_employee e.clock admin id)
      (Requests.disable_employee-KeepsDays e.clock admin id)
answer_admin-KeepsDays w e admin (AdminRoute.enable_employee id) =
    KeepsDays-as_answer Answer.number (enable_employee e.clock admin id)
      (Requests.enable_employee-KeepsDays e.clock admin id)
answer_admin-KeepsDays w e admin (AdminRoute.delete_employee id) =
    KeepsDays-as_answer (λ _. Answer.done) (delete_employee e.clock admin id)
      (Decisions.delete_employee-KeepsDays e.clock admin id)
answer_admin-KeepsDays w e admin (AdminRoute.revoke_device id device_id) =
    KeepsDays-as_answer (λ _. Answer.done) (revoke_device e.clock admin id device_id)
      (Requests.revoke_device-KeepsDays e.clock admin id device_id)
answer_admin-KeepsDays w e admin (AdminRoute.verify_gps_day id action remark) =
    KeepsDays-as_answer (λ _. Answer.done) (verify_gps_day e.clock admin id action remark)
      (Decisions.verify_gps_day-KeepsDays e.clock admin id action remark)
answer_admin-KeepsDays w e admin (AdminRoute.resolve_flagged_day id r remark) =
    KeepsDays-as_answer (λ _. Answer.done) (resolve_flagged_day e.clock admin id r remark)
      (Decisions.resolve_flagged_day-KeepsDays e.clock admin id r remark)
answer_admin-KeepsDays w e admin r =
    reading-KeepsDays (answer_admin w e admin r) (answer_admin-Looks w e admin r refl)

pub answer_debug-KeepsDays :
    (w : World) (e : Call) (r : DebugRoute) → KeepsDays (answer_debug w e r)
unfolding answer_debug serve my_ip get_time
answer_debug-KeepsDays w e DebugRoute.run_nightly =
    KeepsDays-as_answer Answer.stats (run_nightly w e.clock.system)
      (Jobs.run_nightly-KeepsDays w e.clock.system)
answer_debug-KeepsDays w e DebugRoute.run_idle =
    KeepsDays-as_answer Answer.number (run_idle w e.clock.system)
      (Jobs.run_idle-KeepsDays w e.clock.system)
answer_debug-KeepsDays w e (DebugRoute.set_time iso) =
    KeepsDays-as_answer Answer.moment (set_time w e.clock.system iso)
      (Requests.set_time-KeepsDays w e.clock.system iso)
answer_debug-KeepsDays w e DebugRoute.my_ip =
    reading-KeepsDays (serve w e (Route.debug DebugRoute.my_ip))
      (serve-Looks w e (Route.debug DebugRoute.my_ip) refl)
answer_debug-KeepsDays w e DebugRoute.get_time =
    reading-KeepsDays (serve w e (Route.debug DebugRoute.get_time))
      (serve-Looks w e (Route.debug DebugRoute.get_time) refl)
