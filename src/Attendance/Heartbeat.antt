-- ===== src/Attendance/Heartbeat.antt =====
-- app/routers/attendance.py: POST /heartbeat and GET /history.
use office_attendance_backen.Base.{
  ℕ, ◌==◌, String, Bool, true, false, Option, none, some, find, is_some, if◌then◌else◌,
}
use office_attendance_backen.Time.{Instant}
use office_attendance_backen.Model.{
  Float, Office, User, Device, AttendanceDay, Db, Method, wifi, gps, verified, AttemptResult,
  is_gps, is_day, add_row, update_row,
}
use office_attendance_backen.World.{World, Clock}
use office_attendance_backen.Session.{
  Action, internal, pure, gets, or_raise, raise_if, modify, commit, ◌>>=◌, ◌>>◌,
}
use office_attendance_backen.Ip.{Request, get_client_ip}
use office_attendance_backen.Presence.{
  Phase, ShiftEval, evaluate_shift, find_office_by_ip, nearest_office,
}
use office_attendance_backen.Attendance.Types.{
  assigned_roster, zoned_office, LogDetail, no_detail, log,
}

-- `HeartbeatIn`
pub record HeartbeatIn : Type 0 where
  pub latitude : Option Float
  pub longitude : Option Float
  pub accuracy : Option Float

-- The JSON responses of /heartbeat. `beat` is `state: "ok"`; `base` is the shift's bounds.
pub data Beat : Type 0 where
  no_roster : Beat
  outside : Phase → Instant → Instant → Beat
  not_checked_in : Instant → Instant → Beat
  beat : Bool → Option Method → Option Instant → Instant → Instant → Beat

-- `day.method == "gps"`
abbrev pub is_gps_day : AttendanceDay → Bool
is_gps_day d = elim d.method [ none ↦ false | some m ↦ is_gps m ]

-- A write to the loaded row `day`, by its primary key.
abbrev pub set_day : ℕ → (AttendanceDay → AttendanceDay) → Db → Db
set_day id f db = record db { days = update_row (λ d. d.id == id) f db.days }

abbrev pub set_device : ℕ → (Device → Device) → Db → Db
set_device id f db = record db { devices = update_row (λ d. d.id == id) f db.devices }

-- The change of the loaded row, `requires_location`, the attempt that is logged, if any, and whether an
-- exception is raised before: `round` of NaN is a ValueError.
pub record Verdict : Type 0 where
  pub change : AttendanceDay → AttendanceDay
  pub requires_location : Bool
  pub logged : Db → Db
  pub fails : Bool

abbrev keep_row : AttendanceDay → AttendanceDay
keep_row d = d

-- The branch `if ip_matched`: on the office network `last_seen` moves, and a GPS day is upgraded.
unfoldable pub on_network : Clock → User → String → Office → AttendanceDay → Verdict
on_network c user ip matched day =
    if is_gps_day day
    then record {
      change = λ d. record d {
        last_seen = some c.first;
        method = some wifi;
        verification = some verified;
      };
      requires_location = false;
      logged =
          log c.db_now user.id wifi AttemptResult.success
            (record no_detail { source_ip = some ip; office_id = some matched.id })
            "gps->wifi upgrade";
      fails = false;
    }
    else record {
      change = λ d. record d { last_seen = some c.first };
      requires_location = false;
      logged = λ db. db;
      fails = false;
    }

abbrev fix_detail : Float → Float → Float → Option Office → Option Float → LogDetail
fix_detail lat lng acc office distance = record {
  source_ip = none;
  office_id = elim office [ none ↦ none | some o ↦ some o.id ];
  lat = some lat;
  lng = some lng;
  accuracy = some acc;
  distance = distance;
}

-- A location that is sent on a GPS day, with what `nearest_office` finds for it.
unfoldable pub reverify :
    World → Clock → User → Float → Float → Float → Option (Office × Float) → Verdict
reverify w c user lat lng acc none = record {
  change = keep_row;
  requires_location = true;
  logged =
      log c.db_now user.id gps AttemptResult.outside_radius (fix_detail lat lng acc none none)
        "reverify outside_radius";
  fails = false;
}
reverify w c user lat lng acc (some (o, dist)) =
    let detail = fix_detail lat lng acc (some o) (some dist) in
    if w.floats.le_int dist o.radius_meters
    then record {
      change = λ d. record d { last_seen = some c.first };
      requires_location = false;
      logged = log c.db_now user.id gps AttemptResult.success detail "gps reverify ok";
      fails = false;
    }
    else record {
      change = keep_row;
      requires_location = true;
      logged =
          log c.db_now user.id gps AttemptResult.outside_radius detail "reverify outside_radius";
      fails = w.floats.is_nan dist;
    }

-- A GPS day off the network: only a location that is complete and accurate is looked up.
unfoldable pub off_network : World → Clock → User → HeartbeatIn → Db → Verdict
off_network w c user p db =
    let silent : Verdict = record {
      change = keep_row;
      requires_location = true;
      logged = λ db. db;
      fails = false;
    } in
    elim p.latitude [
      | none ↦ silent
      | some lat ↦ elim p.longitude [
        | none ↦ silent
        | some lng ↦ elim p.accuracy [
          | none ↦ silent
          | some acc ↦
              if w.floats.gt_int acc w.settings.max_gps_accuracy_m
              then record {
                change = keep_row;
                requires_location = true;
                logged =
                    log c.db_now user.id gps AttemptResult.low_accuracy
                      (fix_detail lat lng acc none none) "reverify low_accuracy";
                fails = false;
              }
              else reverify w c user lat lng acc (nearest_office w.floats db lat lng)
        ]
      ]
    ]

-- The `if`/`elif` of `heartbeat` on a day that is checked in. A WiFi day off the network is left
-- alone.
unfoldable pub judge :
    World → Clock → User → String → Option Office → HeartbeatIn → AttendanceDay → Db → Verdict
judge w c user ip (some matched) p day db = on_network c user ip matched day
judge w c user ip none p day db =
    if is_gps_day day
    then off_network w c user p db
    else record { change = keep_row; requires_location = false; logged = λ db. db; fails = false }

-- From the loaded row of the day on.
unfoldable pub beat_day :
    World
    → Clock
    → User
    → String
    → Option Office
    → HeartbeatIn
    → ShiftEval
    → AttendanceDay
    → Action Beat
beat_day w c user ip matched p ev day = do
  verdict ← gets (judge w c user ip matched p day)
  raise_if verdict.fails internal
  modify (λ db. verdict.logged (set_day day.id verdict.change db))
  commit
  let after = verdict.change day
  pure (beat verdict.requires_location after.method after.last_seen ev.shift_start ev.shift_end)

-- `if day is None or day.check_in is None`
unfoldable pub beat_found :
    World
    → Clock
    → User
    → String
    → Option Office
    → HeartbeatIn
    → ShiftEval
    → Option AttendanceDay
    → Action Beat
beat_found w c user ip matched p ev none = do
  commit
  pure (not_checked_in ev.shift_start ev.shift_end)
beat_found w c user ip matched p ev (some day) =
    if is_some day.check_in
    then beat_day w c user ip matched p ev day
    else (do commit; pure (not_checked_in ev.shift_start ev.shift_end))

-- The `Heartbeat` row and the device's `last_seen_at`.
unfoldable pub record_beat : Clock → User → Device → String → Bool → Db → Db
record_beat c user device ip ip_matched db =
    set_device device.id (λ d. record d { last_seen_at = some c.first })
      (record db {
        heartbeats =
            add_row
              (λ id. record {
                id = id;
                user_id = user.id;
                device_id = device.id;
                ts = c.db_now;
                source_ip = ip;
                ip_matched = ip_matched;
              })
              db.heartbeats;
      })

-- From `evaluate_shift` on.
unfoldable pub beat_shift :
    World → Clock → Request → HeartbeatIn → User → Device → ShiftEval → Action Beat
beat_shift w c req p user device ev = elim ev.phase [
  | Phase.in_shift ↦ do
    let ip = get_client_ip w.settings.trust_proxy w.addresses req
    matched ← gets (λ db. find_office_by_ip db ip)
    modify (record_beat c user device ip (is_some matched))
    day ← gets (λ db. find (is_day user.id ev.local_date) db.days.rows)
    beat_found w c user ip matched p ev day
  | phase ↦ pure (outside phase ev.shift_start ev.shift_end)
]

unfoldable pub heartbeat : World → Clock → Request → HeartbeatIn → User → Device → Action Beat
heartbeat w c req p user device = do
  found ← gets (assigned_roster user)
  elim found [
    | none ↦ pure no_roster
    | some roster ↦ do
      office_found ← gets (zoned_office w.zones roster)
      office ← or_raise internal office_found
      beat_shift w c req p user device (evaluate_shift w.zones office roster c.first)
  ]
