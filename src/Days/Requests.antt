-- ===== src/Days/Requests.antt =====
-- app/routers/: the requests that do not write to attendance_days.
use office_attendance_backen.Base.{ℕ, String, Option, arith}
use office_attendance_backen.Time.{Instant}
use office_attendance_backen.Model.{User}
use office_attendance_backen.World.{World, Clock}
use office_attendance_backen.Ip.{Request}
use office_attendance_backen.Deps.{log_action, require_dev_mode}
use office_attendance_backen.Devices.{register_device, evict, oldest, find_active_device}
use office_attendance_backen.Auth.{
  SignupRequest, LoginRequest, signup, resolve_requested_roster, signup_with, login, login_device,
}
use office_attendance_backen.Rosters.{
  RosterCreate, RosterUpdate, create_roster, update_roster, delete_roster, get_roster,
  clear_other_defaults,
}
use office_attendance_backen.Offices.{
  OfficeCreate, OfficeUpdate, create_office, update_office, get_office, add_ip, add_public_ip,
  add_current_ip, remove_public_ip, delete_office,
}
use office_attendance_backen.Admin.{
  UserDecisionIn, decide_user, get_employee, decide, require_active_roster, disable_employee,
  enable_employee, revoke_device, bootstrap_with, ensure_admin_user,
}
use office_attendance_backen.Scheduler.{set_time_override_db}
use office_attendance_backen.Debug.{set_time}
use office_attendance_backen.Days.Keeps.{KeepsDays, same-KeepsDays}

pub signup-KeepsDays : (w : World) (c : Clock) (p : SignupRequest) → KeepsDays (signup w c p)
unfolding signup resolve_requested_roster signup_with log_action
signup-KeepsDays w c p = same-KeepsDays (signup w c p) (λ db. ground arith)

pub login-KeepsDays :
    (w : World) (c : Clock) (p : LoginRequest) (raw : String) → KeepsDays (login w c p raw)
unfolding login login_device register_device evict oldest find_active_device log_action
login-KeepsDays w c p raw = same-KeepsDays (login w c p raw) (λ db. ground arith)

pub create_roster-KeepsDays :
    (c : Clock) (admin : User) (p : RosterCreate) → KeepsDays (create_roster c admin p)
unfolding create_roster clear_other_defaults log_action
create_roster-KeepsDays c admin p = same-KeepsDays (create_roster c admin p) (λ db. ground arith)

pub update_roster-KeepsDays :
    (c : Clock) (admin : User) (id : ℕ) (p : RosterUpdate) → KeepsDays (update_roster c admin id p)
unfolding update_roster get_roster clear_other_defaults log_action
update_roster-KeepsDays c admin id p =
    same-KeepsDays (update_roster c admin id p) (λ db. ground arith)

pub delete_roster-KeepsDays :
    (c : Clock) (admin : User) (id : ℕ) → KeepsDays (delete_roster c admin id)
unfolding delete_roster get_roster log_action
delete_roster-KeepsDays c admin id = same-KeepsDays (delete_roster c admin id) (λ db. ground arith)

pub create_office-KeepsDays :
    (w : World) (c : Clock) (admin : User) (p : OfficeCreate)
    → KeepsDays (create_office w c admin p)
unfolding create_office log_action
create_office-KeepsDays w c admin p =
    same-KeepsDays (create_office w c admin p) (λ db. ground arith)

pub update_office-KeepsDays :
    (w : World) (c : Clock) (admin : User) (id : ℕ) (p : OfficeUpdate)
    → KeepsDays (update_office w c admin id p)
unfolding update_office get_office log_action
update_office-KeepsDays w c admin id p =
    same-KeepsDays (update_office w c admin id p) (λ db. ground arith)

pub add_public_ip-KeepsDays :
    (w : World) (c : Clock) (admin : User) (id : ℕ) (ip : String)
    → KeepsDays (add_public_ip w c admin id ip)
unfolding add_public_ip get_office add_ip log_action
add_public_ip-KeepsDays w c admin id ip =
    same-KeepsDays (add_public_ip w c admin id ip) (λ db. ground arith)

pub add_current_ip-KeepsDays :
    (w : World) (c : Clock) (admin : User) (id : ℕ) (req : Request)
    → KeepsDays (add_current_ip w c admin id req)
unfolding add_current_ip get_office add_ip log_action
add_current_ip-KeepsDays w c admin id req =
    same-KeepsDays (add_current_ip w c admin id req) (λ db. ground arith)

pub remove_public_ip-KeepsDays :
    (w : World) (c : Clock) (admin : User) (id : ℕ) (ip : String)
    → KeepsDays (remove_public_ip w c admin id ip)
unfolding remove_public_ip get_office log_action
remove_public_ip-KeepsDays w c admin id ip =
    same-KeepsDays (remove_public_ip w c admin id ip) (λ db. ground arith)

pub delete_office-KeepsDays :
    (c : Clock) (admin : User) (id : ℕ) → KeepsDays (delete_office c admin id)
unfolding delete_office get_office log_action
delete_office-KeepsDays c admin id = same-KeepsDays (delete_office c admin id) (λ db. ground arith)

pub decide_user-KeepsDays :
    (c : Clock) (admin : User) (id : ℕ) (p : UserDecisionIn) → KeepsDays (decide_user c admin id p)
unfolding decide_user get_employee decide require_active_roster log_action
decide_user-KeepsDays c admin id p = same-KeepsDays (decide_user c admin id p) (λ db. ground arith)

pub disable_employee-KeepsDays :
    (c : Clock) (admin : User) (id : ℕ) → KeepsDays (disable_employee c admin id)
unfolding disable_employee get_employee log_action
disable_employee-KeepsDays c admin id =
    same-KeepsDays (disable_employee c admin id) (λ db. ground arith)

pub enable_employee-KeepsDays :
    (c : Clock) (admin : User) (id : ℕ) → KeepsDays (enable_employee c admin id)
unfolding enable_employee get_employee log_action
enable_employee-KeepsDays c admin id =
    same-KeepsDays (enable_employee c admin id) (λ db. ground arith)

pub revoke_device-KeepsDays :
    (c : Clock) (admin : User) (id device_id : ℕ) → KeepsDays (revoke_device c admin id device_id)
unfolding revoke_device log_action
revoke_device-KeepsDays c admin id device_id =
    same-KeepsDays (revoke_device c admin id device_id) (λ db. ground arith)

pub ensure_admin_user-KeepsDays : (w : World) (c : Clock) → KeepsDays (ensure_admin_user w c)
unfolding ensure_admin_user bootstrap_with
ensure_admin_user-KeepsDays w c = same-KeepsDays (ensure_admin_user w c) (λ db. ground arith)

pub set_time-KeepsDays :
    (w : World) (t : Instant) (iso : Option String) → KeepsDays (set_time w t iso)
unfolding set_time require_dev_mode set_time_override_db
set_time-KeepsDays w t iso = same-KeepsDays (set_time w t iso) (λ db. ground arith)
