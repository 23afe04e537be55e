-- ===== src/Schemas.antt =====
-- app/schemas.py: the bodies of the responses, as Pydantic reads them off the rows.
use office_attendance_backen.Base.{ℕ, String, Bool, Option, List}
use office_attendance_backen.Time.{Instant, Date, TimeOfDay}
use office_attendance_backen.Model.{
  Float, Office, Roster, User, Device, AttendanceDay, Role, UserStatus, DeviceStatus, DayStatus,
  Method, Verification,
}

pub record RosterOut : Type 0 where
  pub id : ℕ
  pub name : String
  pub start_time : TimeOfDay
  pub end_time : TimeOfDay
  pub grace_minutes : ℕ
  pub working_days : List ℕ
  pub is_default : Bool
  pub office_id : ℕ
  pub active : Bool

abbrev pub roster_out : Roster → RosterOut
roster_out r = record {
  id = r.id;
  name = r.name;
  start_time = r.start_time;
  end_time = r.end_time;
  grace_minutes = r.grace_minutes;
  working_days = r.working_days;
  is_default = r.is_default;
  office_id = r.office_id;
  active = r.active;
}

pub record OfficeOut : Type 0 where
  pub id : ℕ
  pub name : String
  pub public_ips : List String
  pub latitude : Option Float
  pub longitude : Option Float
  pub radius_meters : ℕ
  pub timezone : String
  pub active : Bool
  pub created_at : Instant

abbrev pub office_out : Office → OfficeOut
office_out o = record {
  id = o.id;
  name = o.name;
  public_ips = o.public_ips;
  latitude = o.latitude;
  longitude = o.longitude;
  radius_meters = o.radius_meters;
  timezone = o.timezone;
  active = o.active;
  created_at = o.created_at;
}

pub record AttendanceDayOut : Type 0 where
  pub id : ℕ
  pub date : Date
  pub status : DayStatus
  pub method : Option Method
  pub verification : Option Verification
  pub check_in : Option Instant
  pub check_out : Option Instant
  pub late_minutes : ℕ

abbrev pub attendance_day_out : AttendanceDay → AttendanceDayOut
attendance_day_out d = record {
  id = d.id;
  date = d.date;
  status = d.status;
  method = d.method;
  verification = d.verification;
  check_in = d.check_in;
  check_out = d.check_out;
  late_minutes = d.late_minutes;
}

pub record UserOut : Type 0 where
  pub id : ℕ
  pub name : String
  pub email : String
  pub phone : Option String
  pub role : Role
  pub status : UserStatus
  pub department : Option String
  pub job_title : Option String
  pub city : Option String
  pub requested_roster_id : Option ℕ
  pub assigned_roster_id : Option ℕ
  pub admin_feedback : Option String
  pub created_at : Instant

abbrev pub user_out : User → UserOut
user_out u = record {
  id = u.id;
  name = u.name;
  email = u.email;
  phone = u.phone;
  role = u.role;
  status = u.status;
  department = u.department;
  job_title = u.job_title;
  city = u.city;
  requested_roster_id = u.requested_roster_id;
  assigned_roster_id = u.assigned_roster_id;
  admin_feedback = u.admin_feedback;
  created_at = u.created_at;
}

-- `MeOut` extends `UserOut`.
pub record MeOut : Type 0 where
  pub user : UserOut
  pub assigned_roster : Option RosterOut

pub record DeviceOut : Type 0 where
  pub id : ℕ
  pub user_agent : Option String
  pub status : DeviceStatus
  pub created_at : Instant
  pub last_seen_at : Option Instant

abbrev pub device_out : Device → DeviceOut
device_out d = record {
  id = d.id;
  user_agent = d.user_agent;
  status = d.status;
  created_at = d.created_at;
  last_seen_at = d.last_seen_at;
}

pub record EmployeeOut : Type 0 where
  pub id : ℕ
  pub name : String
  pub email : String
  pub phone : Option String
  pub status : UserStatus
  pub department : Option String
  pub job_title : Option String
  pub city : Option String
  pub requested_roster_id : Option ℕ
  pub assigned_roster_id : Option ℕ
  pub admin_feedback : Option String
  pub created_at : Instant
  pub active_device_count : ℕ

pub record DashboardEntryOut : Type 0 where
  pub user_id : ℕ
  pub name : String
  pub email : String
  pub roster_name : Option String
  pub shift_start : Option TimeOfDay
  pub shift_end : Option TimeOfDay
  pub day_id : Option ℕ
  pub status : Option DayStatus
  pub method : Option Method
  pub verification : Option Verification
  pub check_in : Option Instant
  pub check_out : Option Instant
  pub last_seen : Option Instant
  pub late_minutes : ℕ

pub record FlaggedDayOut : Type 0 where
  pub id : ℕ
  pub user_id : ℕ
  pub name : String
  pub email : String
  pub date : Date
  pub status : DayStatus
  pub method : Option Method
  pub verification : Option Verification
  pub check_in : Option Instant
  pub check_out : Option Instant
  pub late_minutes : ℕ
  pub admin_note : Option String
