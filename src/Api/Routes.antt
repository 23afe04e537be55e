-- ===== src/Api/Routes.antt =====
-- app/main.py: the routes of the API by who may call them, with their parsed paths and bodies. A
-- negative number in one of these is refused or finds no row, and is not represented.
use office_attendance_backen.Base.{ℕ, String, Option}
use office_attendance_backen.Auth.{SignupRequest, LoginRequest}
use office_attendance_backen.Rosters.{RosterCreate, RosterUpdate}
use office_attendance_backen.Offices.{OfficeCreate, OfficeUpdate}
use office_attendance_backen.Attendance.{LocationIn, HeartbeatIn}
use office_attendance_backen.Admin.{UserDecisionIn, VerifyAction, Resolution}

-- Routes that ask for no account. A login has the token that `secrets.token_hex` makes for it.
pub data OpenRoute : Type 0 where
  health list_active_rosters : OpenRoute
  signup : SignupRequest → OpenRoute
  login : LoginRequest → String → OpenRoute
  refresh : String → OpenRoute

-- Routes behind `require_active_employee` and `get_current_device`.
pub data EmployeeRoute : Type 0 where
  checkin_attempt : EmployeeRoute
  verify_location : LocationIn → EmployeeRoute
  heartbeat : HeartbeatIn → EmployeeRoute

-- Routes behind `require_admin`.
pub data AdminRoute : Type 0 where
  list_all_rosters list_offices current_ip list_employees dashboard flagged_days : AdminRoute
  create_roster : RosterCreate → AdminRoute
  update_roster : ℕ → RosterUpdate → AdminRoute
  delete_roster delete_office add_current_ip : ℕ → AdminRoute
  create_office : OfficeCreate → AdminRoute
  update_office : ℕ → OfficeUpdate → AdminRoute
  add_public_ip remove_public_ip : ℕ → String → AdminRoute
  decide_user : ℕ → UserDecisionIn → AdminRoute
  disable_employee enable_employee delete_employee list_employee_devices : ℕ → AdminRoute
  revoke_device : ℕ → ℕ → AdminRoute
  verify_gps_day : ℕ → VerifyAction → Option String → AdminRoute
  resolve_flagged_day : ℕ → Resolution → Option String → AdminRoute
  monthly_report export_report : String → AdminRoute

-- Routes behind `require_dev_mode`.
pub data DebugRoute : Type 0 where
  my_ip get_time run_nightly run_idle : DebugRoute
  set_time : Option String → DebugRoute

-- `me` is the one route behind `get_current_user`, `history` the one that asks for an active employee
-- and for no device.
pub data Route : Type 0 where
  open_to_all : OpenRoute → Route
  me history : Route
  for_employee : EmployeeRoute → Route
  for_admin : AdminRoute → Route
  debug : DebugRoute → Route
