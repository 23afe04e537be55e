-- ===== src/Model/Rows.antt =====
-- app/models.py: the rows of each table and the database. A float is the bit pattern of an IEEE
-- double; `created_at` and `ts` columns hold the database's clock.
use office_attendance_backen.Base.{ℕ, String, Bool, Option, List, ◌==◌, ◌&&◌}
use office_attendance_backen.Time.{Instant, Date, TimeOfDay}
use office_attendance_backen.Model.Enums.{
  Role, UserStatus, DeviceStatus, DayStatus, Method, Verification, AttemptResult,
}

abbrev pub Float : Type 0
Float = ℕ

pub record Office : Type 0 where
  pub id : ℕ
  pub name : String
  pub public_ips : List String
  pub latitude : Option Float
  pub longitude : Option Float
  pub radius_meters : ℕ
  pub timezone : String
  pub active : Bool
  pub created_at : Instant

pub record Roster : Type 0 where
  pub id : ℕ
  pub name : String
  pub start_time : TimeOfDay
  pub end_time : TimeOfDay
  pub grace_minutes : ℕ
  pub working_days : List ℕ
  pub is_default : Bool
  pub office_id : ℕ
  pub active : Bool
  pub created_at : Instant

pub record User : Type 0 where
  pub id : ℕ
  pub name : String
  pub email : String
  pub phone : Option String
  pub password_hash : String
  pub role : Role
  pub status : UserStatus
  pub department : Option String
  pub job_title : Option String
  pub city : Option String
  pub requested_roster_id : Option ℕ
  pub assigned_roster_id : Option ℕ
  pub admin_feedback : Option String
  pub approved_by : Option ℕ
  pub approved_at : Option Instant
  pub created_at : Instant

pub record Device : Type 0 where
  pub id : ℕ
  pub user_id : ℕ
  pub token_hash : String
  pub user_agent : Option String
  pub status : DeviceStatus
  pub created_at : Instant
  pub last_seen_at : Option Instant

pub record Heartbeat : Type 0 where
  pub id : ℕ
  pub user_id : ℕ
  pub device_id : ℕ
  pub ts : Instant
  pub source_ip : String
  pub ip_matched : Bool

pub record AttendanceDay : Type 0 where
  pub id : ℕ
  pub user_id : ℕ
  pub date : Date
  pub status : DayStatus
  pub method : Option Method
  pub verification : Option Verification
  pub check_in : Option Instant
  pub check_out : Option Instant
  pub last_seen : Option Instant
  pub late_minutes : ℕ
  pub admin_note : Option String
  pub resolved_by : Option ℕ

pub record CheckinAttempt : Type 0 where
  pub id : ℕ
  pub user_id : ℕ
  pub ts : Instant
  pub method : Method
  pub source_ip : Option String
  pub matched_office_id : Option ℕ
  pub latitude : Option Float
  pub longitude : Option Float
  pub gps_accuracy : Option Float
  pub distance_meters : Option Float
  pub result : AttemptResult
  pub message : Option String

-- The `detail` column is free JSON and nothing reads it: only the subject that it names is kept.
pub record AuditLog : Type 0 where
  pub id : ℕ
  pub actor_user_id : Option ℕ
  pub action : String
  pub subject : Option ℕ
  pub ts : Instant

-- A table: its rows in the order of insertion, and its id sequence.
pub record Table {ℓ} (A : Type ℓ) : Type ℓ where
  pub rows : List A
  pub next_id : ℕ

pub record Db : Type 0 where
  pub offices : Table Office
  pub rosters : Table Roster
  pub users : Table User
  pub devices : Table Device
  pub heartbeats : Table Heartbeat
  pub days : Table AttendanceDay
  pub attempts : Table CheckinAttempt
  pub audit_logs : Table AuditLog
  -- The row `time_override` of `app_state`, if there is one, with the nullable `iso` of its value.
  pub time_override : Option (Option String)

-- The key of `uq_attendance_days_user_date`.
abbrev pub is_day : ℕ → Date → AttendanceDay → Bool
is_day user_id date d = d.user_id == user_id && d.date == date
