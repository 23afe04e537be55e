-- ===== src/Presence.antt =====
-- app/presence.py: where an instant falls in a shift, which office an address or a position
-- belongs to, and the one writer of a check-in.
pub mod Shift
pub mod Nearest
pub mod Writer
pub mod Taps
use office_attendance_backen.Base.{
  ℕ, ◌+◌, ◌-◌, ◌/◌, ◌==◌, ◌||◌, ◌&&◌, ltb, String, str_eq, Bool, true, false, Option, none, some,
  List, [], ◌∷◌, select, find, is_none, is_some, if◌then◌else◌, not,
}
use office_attendance_backen.Time.{
  Instant, Date, Wall, minutes, minute_us, weekday, combine, Zones, local_date_of,
}
use office_attendance_backen.Model.{
  Float, Office, Roster, AttendanceDay, Table, Db, Method, DayStatus, Verification, is_wifi, is_day,
  on_conflict, wifi,
}
use office_attendance_backen.World.{Floats}

abbrev pub elem_ℕ : ℕ → List ℕ → Bool
elem_ℕ a [] = false
elem_ℕ a (x ∷ xs) = x == a || elem_ℕ a xs

abbrev pub elem_text : String → List String → Bool
elem_text a [] = false
elem_text a (x ∷ xs) = str_eq x a || elem_text a xs

pub data Phase : Type 0 where
  off_day before_shift in_shift after_shift : Phase

pub record PresenceEvent : Type 0 where
  pub user_id : ℕ
  pub timestamp : Instant
  pub method : Method
  pub source_ip : Option String
  pub lat : Option Float
  pub lng : Option Float
  pub office_id : Option ℕ

pub record ShiftEval : Type 0 where
  pub local_date : Date
  pub weekday : ℕ
  pub is_working_day : Bool
  pub shift_start : Instant
  pub shift_end : Instant
  pub grace_end : Instant
  pub phase : Phase
  pub minutes_to_start : ℕ

-- `int(delta.total_seconds() // 60)` under `max(0, ...)`.
abbrev pub whole_minutes : Instant → Instant → ℕ
whole_minutes from to = (to - from) / minute_us

-- timeutil.py `shift_bounds`
unfoldable pub shift_bounds : Zones → Office → Roster → Date → Instant × Instant
shift_bounds z office roster d = (
  z.to_instant office.timezone (combine d roster.start_time),
  z.to_instant office.timezone (combine d roster.end_time),
)

-- The `if` ladder of `evaluate_shift`.
unfoldable pub phase_at : Bool → Instant → Instant → Instant → Phase
phase_at working start finish now =
    if not working
    then off_day
    else if ltb now start
    then before_shift
    else if ltb finish now
    then after_shift
    else in_shift

-- Adding a `timedelta` to a zone's datetime moves its wall clock.
unfoldable pub evaluate_shift : Zones → Office → Roster → Instant → ShiftEval
unfolding shift_bounds
evaluate_shift z office roster now =
    let d = local_date_of z office.timezone now in
    let working = elem_ℕ (weekday d) roster.working_days in
    let bounds = shift_bounds z office roster d in
    record {
      local_date = d;
      weekday = weekday d;
      is_working_day = working;
      shift_start = bounds.0;
      shift_end = bounds.1;
      grace_end =
          z.to_instant office.timezone (combine d roster.start_time + minutes roster.grace_minutes);
      phase = phase_at working bounds.0 bounds.1 now;
      minutes_to_start = whole_minutes now bounds.0;
    }

unfoldable pub find_office_by_ip : Db → String → Option Office
find_office_by_ip db ip =
    find (λ o. elem_text ip o.public_ips) (select (λ o. o.active) db.offices.rows)

-- geo.py
unfoldable pub haversine_meters : Floats → Float → Float → Float → Float → Float
haversine_meters f lat1 lon1 lat2 lon2 =
    let phi1 = f.radians lat1 in
    let phi2 = f.radians lat2 in
    let dphi = f.radians (f.sub lat2 lat1) in
    let dlambda = f.radians (f.sub lon2 lon1) in
    let two = f.of_int 2 in
    let a =
      f.add (f.square (f.sin (f.div dphi two)))
        (f.mul (f.mul (f.cos phi1) (f.cos phi2)) (f.square (f.sin (f.div dlambda two)))) in
    f.mul (f.mul two f.earth_radius_m) (f.asin (f.sqrt a))

-- The distance to an office that has coordinates.
unfoldable pub office_distance : Floats → Float → Float → Office → Option Float
office_distance f lat lng o = elim o.latitude [
  | none ↦ none
  | some la ↦ elim o.longitude [ none ↦ none | some lo ↦ some (haversine_meters f lat lng la lo) ]
]

-- One round of the loop of `nearest_office`.
unfoldable pub closer : Floats → Option (Office × Float) → Office → Float → Option (Office × Float)
closer f none o dist = some (o, dist)
closer f (some (b, best)) o dist = if f.lt dist best then some (o, dist) else some (b, best)

-- An office that lacks a coordinate is not in the query.
unfoldable pub visit :
    Floats → Float → Float → Option (Office × Float) → Office → Option (Office × Float)
unfolding closer office_distance
visit f lat lng best o = elim (office_distance f lat lng o) [
  | none ↦ best
  | some dist ↦ closer f best o dist
]

-- The loop, over the active offices.
unfoldable pub nearest_from :
    Floats → Float → Float → Option (Office × Float) → List Office → Option (Office × Float)
unfolding visit
nearest_from f lat lng best [] = best
nearest_from f lat lng best (o ∷ os) = nearest_from f lat lng (visit f lat lng best o) os

unfoldable pub nearest_office : Floats → Db → Float → Float → Option (Office × Float)
unfolding nearest_from
nearest_office f db lat lng = nearest_from f lat lng none (select (λ o. o.active) db.offices.rows)

-- `_classify`
unfoldable pub classify : ShiftEval → Instant → DayStatus × ℕ
classify ev now =
    if ltb ev.grace_end now
    then (DayStatus.late, whole_minutes ev.shift_start now)
    else (DayStatus.present, 0)

-- A row with the defaults of models.py.
abbrev pub bare_day : ℕ → ℕ → Date → DayStatus → AttendanceDay
bare_day id user_id date status = record {
  id = id;
  user_id = user_id;
  date = date;
  status = status;
  method = none;
  verification = none;
  check_in = none;
  check_out = none;
  last_seen = none;
  late_minutes = 0;
  admin_note = none;
  resolved_by = none;
}

-- An upsert on `attendance_days`. The sequence moves on a conflict too.
unfoldable pub upsert_day :
    ℕ
    → Date
    → (AttendanceDay → Option AttendanceDay)
    → (ℕ → AttendanceDay)
    → Db
    → Option AttendanceDay × Db
upsert_day user_id date update fresh db =
    let (written, rows) =
      on_conflict (is_day user_id date) update (fresh db.days.next_id) db.days.rows in
    (written, record db { days = record { rows = rows; next_id = db.days.next_id + 1 } })

unfoldable pub ensure_off_day : ℕ → Date → Db → Db
ensure_off_day user_id date db =
    (upsert_day user_id date (λ _. none) (λ id. bare_day id user_id date DayStatus.off_day) db).1

-- The dictionary `write` of `apply_presence_event`, put into a row.
unfoldable pub write_check_in : PresenceEvent → ShiftEval → AttendanceDay → AttendanceDay
unfolding classify
write_check_in event ev d =
    let (status, late_minutes) = classify ev event.timestamp in
    record d {
      status = status;
      method = some event.method;
      verification =
          some (if is_wifi event.method then Verification.verified else Verification.gps_pending);
      check_in = some event.timestamp;
      last_seen = some event.timestamp;
      late_minutes = late_minutes;
    }

-- The row of the event's user and day after the upsert, and whether this call wrote it. `none`
-- stands for the exception of `scalar_one` when there is no row.
unfoldable pub apply_presence_event :
    PresenceEvent → ShiftEval → Db → Option (AttendanceDay × Bool) × Db
apply_presence_event event ev db =
    let (written, db') =
      upsert_day event.user_id ev.local_date
        (λ d. if is_none d.check_in then some (write_check_in event ev d) else none)
        (λ id. write_check_in event ev (bare_day id event.user_id ev.local_date DayStatus.present))
        db in
    let existing : Option (AttendanceDay × Bool) =
      elim (find (is_day event.user_id ev.local_date) db'.days.rows) [
        | none ↦ none
        | some d ↦ some (d, false)
      ] in
    (elim written [ none ↦ existing | some d ↦ some (d, true) ], db')
