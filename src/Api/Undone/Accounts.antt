-- ===== src/Api/Undone/Accounts.antt =====
-- app/routers/auth.py and admin.py: signups, logins, decisions on accounts and days, when they fail.
use office_attendance_backen.Base.{ℕ, String, Option, arith}
use office_attendance_backen.Model.{User}
use office_attendance_backen.World.{World, Clock}
use office_attendance_backen.Deps.{log_action}
use office_attendance_backen.Devices.{register_device, evict, oldest, find_active_device}
use office_attendance_backen.Auth.{
  SignupRequest, LoginRequest, signup, resolve_requested_roster, signup_with, login, login_device,
  refresh,
}
use office_attendance_backen.Admin.{
  UserDecisionIn, VerifyAction, Resolution, decide_user, get_employee, decide,
  require_active_roster, disable_employee, enable_employee, delete_employee, revoke_device,
  verify_gps_day, resolve_flagged_day,
}
use office_attendance_backen.Api.Undone.{Undone}

pub signup-Undone : (w : World) (c : Clock) (p : SignupRequest) → Undone (signup w c p)
unfolding signup resolve_requested_roster signup_with log_action
signup-Undone w c p db x h = ground arith

pub login-Undone :
    (w : World) (c : Clock) (p : LoginRequest) (raw : String) → Undone (login w c p raw)
unfolding login login_device register_device evict oldest find_active_device log_action
login-Undone w c p raw db x h = ground arith

pub refresh-Undone : (w : World) (c : Clock) (t : String) → Undone (refresh w c t)
unfolding refresh
refresh-Undone w c t db x h = ground arith

pub decide_user-Undone :
    (c : Clock) (admin : User) (id : ℕ) (p : UserDecisionIn) → Undone (decide_user c admin id p)
unfolding decide_user get_employee decide require_active_roster
decide_user-Undone c admin id p db x h = ground arith

pub disable_employee-Undone :
    (c : Clock) (admin : User) (id : ℕ) → Undone (disable_employee c admin id)
unfolding disable_employee get_employee
disable_employee-Undone c admin id db x h = ground arith

pub enable_employee-Undone :
    (c : Clock) (admin : User) (id : ℕ) → Undone (enable_employee c admin id)
unfolding enable_employee get_employee
enable_employee-Undone c admin id db x h = ground arith

pub delete_employee-Undone :
    (c : Clock) (admin : User) (id : ℕ) → Undone (delete_employee c admin id)
unfolding delete_employee get_employee
delete_employee-Undone c admin id db x h = ground arith

pub revoke_device-Undone :
    (c : Clock) (admin : User) (id device_id : ℕ) → Undone (revoke_device c admin id device_id)
unfolding revoke_device
revoke_device-Undone c admin id device_id db x h = ground arith

pub verify_gps_day-Undone :
    (c : Clock) (admin : User) (id : ℕ) (action : VerifyAction) (remark : Option String)
    → Undone (verify_gps_day c admin id action remark)
unfolding verify_gps_day
verify_gps_day-Undone c admin id action remark db x h = ground arith

pub resolve_flagged_day-Undone :
    (c : Clock) (admin : User) (id : ℕ) (r : Resolution) (remark : Option String)
    → Undone (resolve_flagged_day c admin id r remark)
unfolding resolve_flagged_day
resolve_flagged_day-Undone c admin id r remark db x h = ground arith
