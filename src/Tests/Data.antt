-- ===== src/Tests/Data.antt =====
-- A small office in Lahore: one office, one roster, an admin and an employee.
use office_attendance_backen.Base.{
  ℕ, ◌+◌, ◌-◌, ◌*◌, ◌/◌, ltb, leb, str_eq, if◌then◌else◌, String, true, false, Option, none, some,
  List, [], ◌∷◌,
}
use Prim.Native.Nat.{Ordering}
use Prim.Native.String.{compare}
use office_attendance_backen.Time.{Instant, Date, Zones, combine, minutes}
use office_attendance_backen.Model.{
  Office, Roster, User, Device, Db, Role, UserStatus, DeviceStatus, AttendanceDay,
}
use office_attendance_backen.Numerals.{pos}
use office_attendance_backen.World.{World, naive, aware, Settings, Floats, Clock}
use office_attendance_backen.Ip.{Request}
use office_attendance_backen.Tests.Tokens.{issue, verify}

-- A zone five hours ahead of UTC.
abbrev pub karachi : Zones
karachi = record {
  is_known = λ name. true;
  to_wall = λ name now. now + minutes 300;
  to_instant = λ name wall. wall - minutes 300;
}

-- A Thursday.
abbrev pub today : Date
today = 739700

-- An instant of today, by the minutes since midnight on the office's clock.
abbrev pub at_minute : ℕ → Instant
at_minute n = combine today (minutes n) - minutes 300

-- Whole numbers in place of doubles.
abbrev pub whole_floats : Floats
whole_floats = record {
  lt = ltb;
  is_nan = λ f. false;
  is_finite = λ f. true;
  gt_int = λ f n. ltb n f;
  le_int = λ f n. leb f n;
  lt_neg = λ f n. false;
  round = λ f. f;
  of_int = λ n. n;
  add = λ a b. a + b;
  sub = λ a b. a - b;
  mul = λ a b. a * b;
  div = λ a b. a / b;
  radians = λ a. a;
  sin = λ a. a;
  cos = λ a. a;
  asin = λ a. a;
  sqrt = λ a. a;
  square = λ a. a * a;
  earth_radius_m = 6371008;
}

abbrev settings : Settings
settings = record {
  admin_email = "admin@example.com";
  admin_password = "change-me";
  jwt_secret = "top-secret";
  jwt_algorithm = "HS256";
  access_token_expire_hours = 12;
  refresh_token_expire_days = 30;
  trust_proxy = false;
  dev_mode = false;
  display_timezone = "Asia/Karachi";
  max_gps_accuracy_m = 100;
  gps_reverify_minutes = 30;
  checkout_idle_minutes = 15;
  run_scheduler = true;
  max_devices_per_user = 2;
}

abbrev pub world : World
world = record {
  settings = settings;
  zones = karachi;
  floats = whole_floats;
  addresses = record { canonical = λ s. some s; is_global = λ s. true };
  email_str = λ s. some s;
  from_iso = λ s.
      if str_eq s "now"
      then some naive
      else some (aware (record { instant = at_minute 600; utc_offset = pos 18000000000 }));
  isoformat = λ t. "2026-03-26T15:00:00+05:00";
  text_le = λ a b. elim (compare a b) [ Ordering.gt ↦ false | _ ↦ true ];
  secrets = record {
    hash_password = λ s. s;
    verify_password = λ plain hash. str_eq plain hash;
    hash_token = λ s. s;
    jwt_encode = issue;
    jwt_decode = verify;
    lower = λ s. s;
  };
}

abbrev pub clock_at : ℕ → Clock
clock_at n = record {
  first = at_minute n;
  second = at_minute n;
  db_now = at_minute n;
  system = at_minute n;
}

abbrev pub lahore : Office
lahore = record {
  id = 1;
  name = "Lahore";
  public_ips = "203.0.113.5" ∷ [];
  latitude = some 31;
  longitude = some 74;
  radius_meters = 150;
  timezone = "Asia/Karachi";
  active = true;
  created_at = 0;
}

-- From 09:00 to 18:00, Monday to Friday.
abbrev pub day_shift : Roster
day_shift = record {
  id = 1;
  name = "Day";
  start_time = minutes 540;
  end_time = minutes 1080;
  grace_minutes = 15;
  working_days = 0 ∷ 1 ∷ 2 ∷ 3 ∷ 4 ∷ [];
  is_default = true;
  office_id = 1;
  active = true;
  created_at = 0;
}

abbrev account : ℕ → String → Role → Option ℕ → User
account id email role roster = record {
  id = id;
  name = email;
  email = email;
  phone = none;
  password_hash = "secret";
  role = role;
  status = UserStatus.active;
  department = none;
  job_title = none;
  city = none;
  requested_roster_id = roster;
  assigned_roster_id = roster;
  admin_feedback = none;
  approved_by = none;
  approved_at = none;
  created_at = 0;
}

abbrev pub boss : User
boss = account 1 "admin@example.com" Role.admin none

abbrev pub ayesha : User
ayesha = account 2 "ayesha@example.com" Role.employee (some 1)

abbrev pub laptop : Device
laptop = record {
  id = 1;
  user_id = 2;
  token_hash = "laptop";
  user_agent = none;
  status = DeviceStatus.active;
  created_at = 0;
  last_seen_at = none;
}

abbrev pub office_db : List AttendanceDay → Db
office_db days = record {
  offices = record { rows = lahore ∷ []; next_id = 2 };
  rosters = record { rows = day_shift ∷ []; next_id = 2 };
  users = record { rows = boss ∷ ayesha ∷ []; next_id = 3 };
  devices = record { rows = laptop ∷ []; next_id = 2 };
  heartbeats = record { rows = []; next_id = 1 };
  days = record { rows = days; next_id = 7 };
  attempts = record { rows = []; next_id = 1 };
  audit_logs = record { rows = []; next_id = 1 };
  time_override = none;
}

abbrev pub fresh_db : Db
fresh_db = office_db []

abbrev pub from_office : Request
from_office = record {
  client_host = some "203.0.113.5";
  x_real_ip = none;
  x_forwarded_for = none;
  user_agent = none;
}
