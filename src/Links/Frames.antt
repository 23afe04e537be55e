-- ===== src/Links/Frames.antt =====
-- The tables that a request on accounts, on rosters and on offices does not write.
use office_attendance_backen.Base.{◌≡◌, arith}
use office_attendance_backen.Model.{Db}
use office_attendance_backen.World.{World}
use office_attendance_backen.Deps.{log_action}
use office_attendance_backen.Auth.{signup, signup_with, resolve_requested_roster}
use office_attendance_backen.Admin.{
  get_employee, require_active_roster, decide, decide_user, disable_employee, enable_employee,
  detach_actor, delete_user, delete_employee, bootstrap_with, ensure_admin_user,
}
use office_attendance_backen.Accounts.Calls.{
  Call, sign_up, decide_on, disable, enable, delete, bootstrap, perform,
}
use office_attendance_backen.Rosters.{
  get_roster, clear_other_defaults, create_roster, update_roster, delete_roster,
}
use office_attendance_backen.Rosters.Calls.{RosterCall, run_call as run_roster}
use office_attendance_backen.Offices.{
  create_office, get_office, update_office, add_ip, add_public_ip, add_current_ip, remove_public_ip,
  delete_office,
}
use office_attendance_backen.Offices.Calls.{OfficeCall, run_call as run_office}

-- No request on accounts writes to rosters or offices.
pub perform-keeps_sites :
    (w : World) (call : Call) (db : Db)
    → ((perform w call db).rosters ≡ db.rosters) × ((perform w call db).offices ≡ db.offices)
unfolding perform signup signup_with resolve_requested_roster get_employee require_active_roster
    decide decide_user disable_employee enable_employee detach_actor delete_user delete_employee
    bootstrap_with ensure_admin_user log_action
perform-keeps_sites w (sign_up c p) db = (ground arith, ground arith)
perform-keeps_sites w (decide_on c admin id p) db = (ground arith, ground arith)
perform-keeps_sites w (disable c admin id) db = (ground arith, ground arith)
perform-keeps_sites w (enable c admin id) db = (ground arith, ground arith)
perform-keeps_sites w (delete c admin id) db = (ground arith, ground arith)
perform-keeps_sites w (bootstrap c) db = (ground arith, ground arith)

-- No request on rosters writes to users or offices.
pub run_roster-keeps_users :
    (call : RosterCall) (db : Db)
    → ((run_roster call db).users ≡ db.users) × ((run_roster call db).offices ≡ db.offices)
unfolding run_roster create_roster update_roster delete_roster get_roster clear_other_defaults
    log_action
run_roster-keeps_users (RosterCall.create c admin p) db = (ground arith, ground arith)
run_roster-keeps_users (RosterCall.update c admin id p) db = (ground arith, ground arith)
run_roster-keeps_users (RosterCall.delete c admin id) db = (ground arith, ground arith)

-- No request on offices writes to users or rosters.
pub run_office-keeps_staff :
    (w : World) (call : OfficeCall) (db : Db)
    → ((run_office w call db).users ≡ db.users) × ((run_office w call db).rosters ≡ db.rosters)
unfolding run_office create_office get_office update_office add_ip add_public_ip add_current_ip
    remove_public_ip delete_office log_action
run_office-keeps_staff w (OfficeCall.create c admin p) db = (ground arith, ground arith)
run_office-keeps_staff w (OfficeCall.update c admin id p) db = (ground arith, ground arith)
run_office-keeps_staff w (OfficeCall.add c admin id ip) db = (ground arith, ground arith)
run_office-keeps_staff w (OfficeCall.add_current c admin id req) db = (ground arith, ground arith)
run_office-keeps_staff w (OfficeCall.remove c admin id ip) db = (ground arith, ground arith)
run_office-keeps_staff w (OfficeCall.delete c admin id) db = (ground arith, ground arith)
