-- ===== src/Attendance/Types.antt =====
-- app/routers/attendance.py: the responses, the attempt log and the relations that a user's row
-- is read through. The texts of messages are left out of the responses.
use office_attendance_backen.Base.{ℕ, ◌==◌, String, Option, none, some, find, if◌then◌else◌}
use office_attendance_backen.Time.{Instant, Zones}
use office_attendance_backen.Model.{
  Float, Office, Roster, User, AttendanceDay, Db, Method, DayStatus, Verification, AttemptResult,
  add_row,
}

-- The JSON responses of /checkin-attempt and /verify-location, one constructor for each `state`.
-- `not_configured` is the `outside_radius` that has no distance.
pub data Response : Type 0 where
  no_roster off_day after_shift need_location not_configured : Response
  before_shift : Instant → ℕ → Response
  low_accuracy : Float → Response
  outside_radius : ℕ → Response
  already_checked_in : DayStatus → Option Instant → Option Method → Response
  checked_in : Method → DayStatus → Option Instant → ℕ → Option Verification → Response

-- `user.assigned_roster`
abbrev pub assigned_roster : User → Db → Option Roster
assigned_roster user db = elim user.assigned_roster_id [
  | none ↦ none
  | some rid ↦ find (λ r. r.id == rid) db.rosters.rows
]

-- `roster.office`
abbrev pub office_of : Roster → Db → Option Office
office_of roster db = find (λ o. o.id == roster.office_id) db.offices.rows

-- `roster.office` with the zone that is looked up first of it: `none` where there is no office
-- (AttributeError) or its zone is not known (ZoneInfoNotFoundError).
abbrev pub zoned_office : Zones → Roster → Db → Option Office
zoned_office z roster db = elim (office_of roster db) [
  | none ↦ none
  | some o ↦ if z.is_known o.timezone then some o else none
]

-- The arguments of `_log` that most calls leave out.
pub record LogDetail : Type 0 where
  pub source_ip : Option String
  pub office_id : Option ℕ
  pub lat : Option Float
  pub lng : Option Float
  pub accuracy : Option Float
  pub distance : Option Float

abbrev pub no_detail : LogDetail
no_detail = record {
  source_ip = none;
  office_id = none;
  lat = none;
  lng = none;
  accuracy = none;
  distance = none;
}

-- `_log`
unfoldable pub log : Instant → ℕ → Method → AttemptResult → LogDetail → String → Db → Db
log ts user_id method result detail message db = record db {
  attempts =
      add_row
        (λ id. record {
          id = id;
          user_id = user_id;
          ts = ts;
          method = method;
          source_ip = detail.source_ip;
          matched_office_id = detail.office_id;
          latitude = detail.lat;
          longitude = detail.lng;
          gps_accuracy = detail.accuracy;
          distance_meters = detail.distance;
          result = result;
          message = some message;
        })
        db.attempts;
}

-- `_checked_in_payload`
unfoldable pub checked_in_payload : AttendanceDay → Method → Response
checked_in_payload day method =
    checked_in method day.status day.check_in day.late_minutes day.verification
