-- ===== src/Api/Errors.antt =====
-- app/main.py: a call that is answered by an error, or that only reads, changes nothing.
use office_attendance_backen.Base.{
  Bool, true, false, ◌||◌, not, ◌≡◌, refl, ap, ◌∙◌, ◌⊎◌, Bool-cases, arith, inl, inr,
}
use office_attendance_backen.Model.{Db, User, Device}
use office_attendance_backen.World.{World}
use office_attendance_backen.Session.{
  Result, ok, err, unprocessable, request, or_raise, raise_if, ◌>>=◌, ◌>>◌, Result-cases,
}
use office_attendance_backen.Deps.{
  get_current_user, require_admin, require_active_employee, device_of,
}
use office_attendance_backen.Auth.{signup, login}
use office_attendance_backen.Auth.Me.{me}
use office_attendance_backen.Attendance.{checkin_attempt, verify_location, heartbeat, history}
use office_attendance_backen.Rosters.{create_roster, update_roster, delete_roster}
use office_attendance_backen.Offices.{
  create_office, update_office, add_public_ip, add_current_ip, remove_public_ip, delete_office,
}
use office_attendance_backen.Admin.{
  decide_user, disable_employee, enable_employee, delete_employee, revoke_device, verify_gps_day,
  resolve_flagged_day,
}
use office_attendance_backen.Debug.{my_ip, set_time, get_time, run_nightly, run_idle}
use office_attendance_backen.Api.Routes.{Route, OpenRoute, EmployeeRoute, AdminRoute, DebugRoute}
use office_attendance_backen.Api.Bodies.{check_open, employee_ok, check_admin}
use office_attendance_backen.Api.{
  Call, Answer, as_answer, answer_open, answer_employee, answer_admin, answer_debug, serve, respond,
  renderable,
}
use office_attendance_backen.Api.Undone.{
  Undone, or_raise-Looks, Looks-Undone, Undone-bind, Undone-as_answer, Undone-as_office,
}
use office_attendance_backen.Api.Reads.{
  only_reads, serve-Looks, me-Looks, history_answer-Looks, get_current_user-Looks,
  require_admin-Looks, require_active_employee-Looks, device_of-Looks, answer_open-Looks,
  answer_admin-Looks,
}
use office_attendance_backen.Api.Undone.Accounts
use office_attendance_backen.Api.Undone.Sites
use office_attendance_backen.Api.Undone.Presence

answer_open-Undone : (w : World) (e : Call) (r : OpenRoute) → Undone (answer_open w e r)
unfolding answer_open
answer_open-Undone w e (OpenRoute.signup p) =
    Undone-as_answer (λ _. Answer.done) (signup w e.clock p) (Accounts.signup-Undone w e.clock p)
answer_open-Undone w e (OpenRoute.login p raw_token) =
    Undone-as_answer Answer.logged_in (login w e.clock p raw_token)
      (Accounts.login-Undone w e.clock p raw_token)
answer_open-Undone w e OpenRoute.health =
    Looks-Undone (answer_open w e OpenRoute.health) (answer_open-Looks w e OpenRoute.health refl)
answer_open-Undone w e OpenRoute.list_active_rosters =
    let r = OpenRoute.list_active_rosters in
    Looks-Undone (answer_open w e r) (answer_open-Looks w e r refl)
answer_open-Undone w e (OpenRoute.refresh token) =
    let r = OpenRoute.refresh token in
    Looks-Undone (answer_open w e r) (answer_open-Looks w e r refl)

answer_employee-Undone :
    (w : World) (e : Call) (user : User) (device : Device) (r : EmployeeRoute)
    → Undone (answer_employee w e user device r)
unfolding answer_employee
answer_employee-Undone w e user device EmployeeRoute.checkin_attempt =
    Undone-as_answer Answer.attempt (checkin_attempt w e.clock e.request user)
      (Presence.checkin_attempt-Undone w e.clock e.request user)
answer_employee-Undone w e user device (EmployeeRoute.verify_location p) =
    Undone-as_answer Answer.attempt (verify_location w e.clock p user)
      (Presence.verify_location-Undone w e.clock p user)
answer_employee-Undone w e user device (EmployeeRoute.heartbeat p) =
    Undone-as_answer Answer.beat (heartbeat w e.clock e.request p user device)
      (Presence.heartbeat-Undone w e.clock e.request p user device)

answer_admin-Undone :
    (w : World) (e : Call) (admin : User) (r : AdminRoute) → Undone (answer_admin w e admin r)
unfolding answer_admin
answer_admin-Undone w e admin (AdminRoute.create_roster p) =
    Undone-as_answer Answer.number (create_roster e.clock admin p)
      (Sites.create_roster-Undone e.clock admin p)
answer_admin-Undone w e admin (AdminRoute.update_roster id p) =
    Undone-as_answer Answer.roster (update_roster e.clock admin id p)
      (Sites.update_roster-Undone e.clock admin id p)
answer_admin-Undone w e admin (AdminRoute.delete_roster id) =
    Undone-as_answer (λ _. Answer.done) (delete_roster e.clock admin id)
      (Sites.delete_roster-Undone e.clock admin id)
answer_admin-Undone w e admin (AdminRoute.create_office p) =
    Undone-as_office (λ id. id) (create_office w e.clock admin p)
      (Sites.create_office-Undone w e.clock admin p)
answer_admin-Undone w e admin (AdminRoute.update_office id p) =
    Undone-as_answer Answer.office (update_office w e.clock admin id p)
      (Sites.update_office-Undone w e.clock admin id p)
answer_admin-Undone w e admin (AdminRoute.add_public_ip id ip) =
    Undone-as_office (λ _. id) (add_public_ip w e.clock admin id ip)
      (Sites.add_public_ip-Undone w e.clock admin id ip)
answer_admin-Undone w e admin (AdminRoute.add_current_ip id) =
    Undone-as_office (λ _. id) (add_current_ip w e.clock admin id e.request)
      (Sites.add_current_ip-Undone w e.clock admin id e.request)
answer_admin-Undone w e admin (AdminRoute.remove_public_ip id ip) =
    Undone-as_office (λ _. id) (remove_public_ip w e.clock admin id ip)
      (Sites.remove_public_ip-Undone w e.clock admin id ip)
answer_admin-Undone w e admin (AdminRoute.delete_office id) =
    Undone-as_answer (λ _. Answer.done) (delete_office e.clock admin id)
      (Sites.delete_office-Undone e.clock admin id)
answer_admin-Undone w e admin (AdminRoute.decide_user id p) =
    Undone-as_answer Answer.number (decide_user e.clock admin id p)
      (Accounts.decide_user-Undone e.clock admin id p)
answer_admin-Undone w e admin (AdminRoute.disable_employee id) =
    Undone-as_answer Answer.number (disable_employee e.clock admin id)
      (Accounts.disable_employee-Undone e.clock admin id)
answer_admin-Undone w e admin (AdminRoute.enable_employee id) =
    Undone-as_answer Answer.number (enable_employee e.clock admin id)
      (Accounts.enable_employee-Undone e.clock admin id)
answer_admin-Undone w e admin (AdminRoute.delete_employee id) =
    Undone-as_answer (λ _. Answer.done) (delete_employee e.clock admin id)
      (Accounts.delete_employee-Undone e.clock admin id)
answer_admin-Undone w e admin (AdminRoute.revoke_device id device_id) =
    Undone-as_answer (λ _. Answer.done) (revoke_device e.clock admin id device_id)
      (Accounts.revoke_device-Undone e.clock admin id device_id)
answer_admin-Undone w e admin (AdminRoute.verify_gps_day id action remark) =
    Undone-as_answer (λ _. Answer.done) (verify_gps_day e.clock admin id action remark)
      (Accounts.verify_gps_day-Undone e.clock admin id action remark)
answer_admin-Undone w e admin (AdminRoute.resolve_flagged_day id r remark) =
    Undone-as_answer (λ _. Answer.done) (resolve_flagged_day e.clock admin id r remark)
      (Accounts.resolve_flagged_day-Undone e.clock admin id r remark)
answer_admin-Undone w e admin r =
    Looks-Undone (answer_admin w e admin r) (answer_admin-Looks w e admin r refl)

answer_debug-Undone : (w : World) (e : Call) (r : DebugRoute) → Undone (answer_debug w e r)
unfolding answer_debug
answer_debug-Undone w e DebugRoute.my_ip =
    Undone-as_answer Answer.text (my_ip w e.request) (Presence.my_ip-Undone w e.request)
answer_debug-Undone w e DebugRoute.get_time =
    Undone-as_answer Answer.moment (get_time w e.clock.system)
      (Presence.get_time-Undone w e.clock.system)
answer_debug-Undone w e DebugRoute.run_nightly =
    Undone-as_answer Answer.stats (run_nightly w e.clock.system)
      (Presence.run_nightly-Undone w e.clock.system)
answer_debug-Undone w e DebugRoute.run_idle =
    Undone-as_answer Answer.number (run_idle w e.clock.system)
      (Presence.run_idle-Undone w e.clock.system)
answer_debug-Undone w e (DebugRoute.set_time iso) =
    Undone-as_answer Answer.moment (set_time w e.clock.system iso)
      (Presence.set_time-Undone w e.clock.system iso)

serve-Undone : (w : World) (e : Call) (r : Route) → Undone (serve w e r)
unfolding serve
serve-Undone w e (Route.open_to_all r) =
    Undone-bind (or_raise unprocessable (check_open w r)) (λ r'. answer_open w e r')
      (or_raise-Looks unprocessable (check_open w r)) (λ r'. answer_open-Undone w e r')
serve-Undone w e Route.me =
    Undone-bind (get_current_user w e.clock e.token) (λ user. as_answer Answer.who (me user))
      (get_current_user-Looks w e.clock e.token)
      (λ user. Looks-Undone (as_answer Answer.who (me user)) (me-Looks user))
serve-Undone w e Route.history =
    Undone-bind (require_active_employee w e.clock e.token)
      (λ user. as_answer Answer.days (history w e.clock user))
      (require_active_employee-Looks w e.clock e.token)
      (λ user.
        Looks-Undone (as_answer Answer.days (history w e.clock user))
          (history_answer-Looks w e user))
serve-Undone w e (Route.for_employee r) =
    Undone-bind (require_active_employee w e.clock e.token)
      (λ user. device_of w e.x_device_token user >>= λ device.
        raise_if (not (employee_ok w r)) unprocessable >> answer_employee w e user device r)
      (require_active_employee-Looks w e.clock e.token)
      (λ user.
        Undone-bind (device_of w e.x_device_token user)
          (λ device.
            raise_if (not (employee_ok w r)) unprocessable >> answer_employee w e user device r)
          (device_of-Looks w e.x_device_token user)
          (λ device.
            Undone-bind (raise_if (not (employee_ok w r)) unprocessable)
              (λ _. answer_employee w e user device r) (λ s. refl)
              (λ _. answer_employee-Undone w e user device r)))
serve-Undone w e (Route.for_admin r) =
    Undone-bind (require_admin w e.clock e.token)
      (λ admin. or_raise unprocessable (check_admin w r) >>= λ r'. answer_admin w e admin r')
      (require_admin-Looks w e.clock e.token)
      (λ admin.
        Undone-bind (or_raise unprocessable (check_admin w r)) (λ r'. answer_admin w e admin r')
          (or_raise-Looks unprocessable (check_admin w r)) (λ r'. answer_admin-Undone w e admin r'))
serve-Undone w e (Route.debug r) = answer_debug-Undone w e r

abbrev pub is_error {ℓ} : {A : Type ℓ} → Result A → Bool
is_error (ok a) = false
is_error (err x) = true

-- A call whose dependencies, validation or handler end with an error, or whose route only reads, leaves
-- the database as it was.
pub serve_undone :
    (w : World) (e : Call) (r : Route) (db : Db)
    → (is_error (request (serve w e r) db).0 || only_reads r) ≡ true
    → (request (serve w e r) db).1 ≡ db
serve_undone w e r db h = elim (Result-cases (request (serve w e r) db).0) [
  | inr (x, failed) ↦ serve-Undone w e r db x failed
  | inl (answer, fine) ↦
      ap (λ s. s.durable) (serve-Looks w e r (ground arith) (record { durable = db; current = db }))
]

render-cases :
    (w : World) (e : Call) (r : Route) (db : Db)
    → ((request (respond w e r) db).1 ≡ (request (serve w e r) db).1)
      × ((is_error (request (respond w e r) db).0 ≡ is_error (request (serve w e r) db).0)
          ⊎ ((a : Answer) × ((request (serve w e r) db).0 ≡ ok a) × (renderable w a ≡ false)))
unfolding respond
render-cases w e r db = elim (Result-cases (request (serve w e r) db).0) [
  | inr (x, failed) ↦ (ground arith, inl (ground arith))
  | inl (a, fine) ↦ elim (Bool-cases (renderable w a)) [
    | inl t ↦ (ground arith, inl (ground arith))
    | inr e' ↦ (ground arith, inr (a, fine, e'))
  ]
]

-- A call that is answered by an error, or whose route only reads, leaves the database as it was, with one
-- exception: the handler had ended with an answer that cannot be rendered, since a float in it is
-- infinite or NaN.
pub respond_undone :
    (w : World) (e : Call) (r : Route) (db : Db)
    → (is_error (request (respond w e r) db).0 || only_reads r) ≡ true
    → ((request (respond w e r) db).1 ≡ db)
      ⊎ ((only_reads r ≡ false)
          × (a : Answer) × ((request (serve w e r) db).0 ≡ ok a)
          × (renderable w a ≡ false))
respond_undone w e r db h =
    let (same, cases) = render-cases w e r db in
    elim (Bool-cases (only_reads r)) [
      | inl reads ↦ inl (same ∙ serve_undone w e r db (ground arith))
      | inr writes ↦ elim cases [
        | inl fate ↦ inl (same ∙ serve_undone w e r db (ground arith))
        | inr (a, fine, broken) ↦ inr (writes, a, fine, broken)
      ]
    ]
