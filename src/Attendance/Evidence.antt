-- ===== src/Attendance/Evidence.antt =====
-- app/routers/attendance.py `heartbeat`: which days a heartbeat changes, how, and on what evidence.
use office_attendance_backen.Base.{
  ◌≡◌, ◌∙◌, ◌==◌, ◌⊎◌, refl, sym, ap, subst, arith, find, true, Option, none, some, List, [], ◌∷◌,
  is_some, Bool-cases, Option-cases, inl, inr, update_first, String, All, select, find-All,
  find-passes, Bool,
}
use office_attendance_backen.Model.{
  AttendanceDay, Db, Device, Office, Roster, User, Table, update_row, is_day,
}
use office_attendance_backen.World.{World, Clock}
use office_attendance_backen.Session.{Session, request}
use office_attendance_backen.Ip.{Request, get_client_ip}
use office_attendance_backen.Presence.{
  Phase, ShiftEval, evaluate_shift, find_office_by_ip, nearest_office, elem_text,
}
use office_attendance_backen.Attendance.Types.{assigned_roster, zoned_office}
use office_attendance_backen.Attendance.Heartbeat.{
  HeartbeatIn, judge, beat_day, beat_found, record_beat, heartbeat, beat_shift, set_day,
}
use office_attendance_backen.Attendance.Beating.{
  address, beaten, beat_shift_inside, beat_shift_outside, heartbeat_same, heartbeat_office,
}
use office_attendance_backen.Attendance.Verdicts.{Notes, Evidence, IsFix, judge-IsFair}

update_first_same :
    (p : AttendanceDay → Bool) (f : AttendanceDay → AttendanceDay) (ds : List AttendanceDay)
    → ((d : AttendanceDay) → f d ≡ d)
    → update_first p f ds ≡ ds
update_first_same p f [] same = refl
update_first_same p f (d ∷ ds) same = ground (arith, same d, update_first_same p f ds same)

All-active : (os : List Office) → All (λ (o : Office). o.active ≡ true) (select (λ o. o.active) os)
All-active [] = tt
All-active (o ∷ os) = elim (Bool-cases o.active) [
  | inl t ↦ rw t (refl, All-active os)
  | inr e ↦ rw e (All-active os)
]

-- What the lookup of an address finds is an active office that has the address.
find_office_by_ip-active :
    (db : Db) (ip : String) (o : Office)
    → find_office_by_ip db ip ≡ some o
    → (o.active ≡ true) × (elem_text ip o.public_ips ≡ true)
unfolding find_office_by_ip
find_office_by_ip-active db ip o found =
    let has_ip : Office → Bool = λ x. elem_text ip x.public_ips in
    let active = select (λ (x : Office). x.active) db.offices.rows in
    (
      find-All (λ (x : Office). x.active ≡ true) has_ip active o (All-active db.offices.rows) found,
      find-passes has_ip active o found,
    )

-- The client's address is one of an active office's, or the location counts.
abbrev pub Shown : World → Request → HeartbeatIn → AttendanceDay → Db → Type 0
Shown w req p day db =
    let ip = get_client_ip w.settings.trust_proxy w.addresses req in
    ((o : Office) × (find_office_by_ip db ip ≡ some o)
      × (o.active ≡ true)
      × (elem_text ip o.public_ips ≡ true))
    ⊎ IsFix w p day db

-- What a heartbeat does to the days of a database: nothing, or it notes in the user's checked-in day of
-- today, within the shift, that the employee is seen, and there is evidence for it.
abbrev pub Outcome :
    World → Clock → Request → HeartbeatIn → User → Db → Table AttendanceDay → Type 0
Outcome w c req p user db after =
    (after ≡ db.days)
    ⊎ ((roster : Roster) × (office : Office) × (day : AttendanceDay) × (change : AttendanceDay
          → AttendanceDay)
        × (assigned_roster user db ≡ some roster)
        × (zoned_office w.zones roster db ≡ some office)
        × let ev = evaluate_shift w.zones office roster c.first in
          (ev.phase ≡ Phase.in_shift)
          × (find (is_day user.id ev.local_date) db.days.rows ≡ some day)
          × (is_some day.check_in ≡ true)
          × Shown w req p day db
          × Notes c change
          × (after ≡ update_row (λ d. d.id == day.id) change db.days))

module _ (w : World) (c : Clock) (req : Request) (p : HeartbeatIn) (user : User) (device : Device)
    (db : Db) where
  abbrev start : Session
  start = record { durable = db; current = db }

  abbrev beat_start : Session
  beat_start = beaten w c req p user device start

  abbrev ip_office : Option Office
  ip_office = find_office_by_ip db (address w c req p user device)

  -- The heartbeat's own rows change no office.
  Evidence-beaten :
      (day : AttendanceDay) → Evidence w req p day beat_start.current → Shown w req p day db
  unfolding record_beat find_office_by_ip nearest_office
  Evidence-beaten day (inl (o, found)) =
      let (active, there) = find_office_by_ip-active db (address w c req p user device) o found in
      inl (o, found, active, there)
  Evidence-beaten day (inr fix) = inr (record {
    lat = fix.lat;
    lng = fix.lng;
    accuracy = fix.accuracy;
    office = fix.office;
    distance = fix.distance;
    gps_day = fix.gps_day;
    has_lat = fix.has_lat;
    has_lng = fix.has_lng;
    has_accuracy = fix.has_accuracy;
    accurate = fix.accurate;
    found = fix.found;
    near = fix.near;
  })

  same_office : find_office_by_ip beat_start.current (address w c req p user device) ≡ ip_office
  unfolding record_beat find_office_by_ip
  same_office = refl

  -- A checked-in day.
  beat_day-days :
      (ev : ShiftEval) (day : AttendanceDay)
      → let m = beat_day w c user (address w c req p user device) ip_office p ev day in
        ((m beat_start).1.durable.days ≡ db.days)
        ⊎ ((change : AttendanceDay → AttendanceDay) × Shown w req p day db
            × Notes c change
            × ((m beat_start).1.durable.days ≡ update_row (λ d. d.id == day.id) change db.days))
  unfolding beat_day record_beat
  beat_day-days ev day =
      let v = judge w c user (address w c req p user device) ip_office p day beat_start.current in
      let fair = judge-IsFair w c req user ip_office p day beat_start.current same_office in
      elim (Bool-cases v.fails) [
        | inl failed ↦ inl (rw failed refl)
        | inr fine ↦
            let written = fair.quiet (set_day day.id v.change beat_start.current) in
            elim fair.shown [
              | inl same ↦ inl (
                  rw fine (
                    written
                    ∙ ap (λ rows. record db.days { rows = rows })
                        (update_first_same (λ d. d.id == day.id) v.change db.days.rows same)))
              | inr (evidence, notes) ↦
                  inr (v.change, Evidence-beaten day evidence, notes, rw fine written)
            ]
      ]

  beat_found-days :
      (ev : ShiftEval) (found : Option AttendanceDay)
      → let m = beat_found w c user (address w c req p user device) ip_office p ev found in
        ((m beat_start).1.durable.days ≡ db.days)
        ⊎ ((day : AttendanceDay) × (change : AttendanceDay → AttendanceDay) × (found ≡ some day)
            × (is_some day.check_in ≡ true)
            × Shown w req p day db
            × Notes c change
            × ((m beat_start).1.durable.days ≡ update_row (λ d. d.id == day.id) change db.days))
  unfolding beat_found record_beat
  beat_found-days ev none = inl refl
  beat_found-days ev (some day) = elim (Bool-cases (is_some day.check_in)) [
    | inr absent ↦ inl (rw absent refl)
    | inl arrived ↦ elim (beat_day-days ev day) [
      | inl same ↦ inl (rw arrived same)
      | inr (change, evidence, notes, written) ↦
          inr (day, change, refl, arrived, evidence, notes, rw arrived written)
    ]
  ]

  beat_shift-days :
      (roster : Roster) (office : Office) (phase : Phase)
      → assigned_roster user db ≡ some roster
      → zoned_office w.zones roster db ≡ some office
      → let ev = evaluate_shift w.zones office roster c.first in
        ev.phase ≡ phase
        → Outcome w c req p user db (beat_shift w c req p user device ev start).1.durable.days
  unfolding record_beat
  beat_shift-days roster office Phase.in_shift er eo e =
      let ev = evaluate_shift w.zones office roster c.first in
      let whole = ap (λ z. z.1.durable.days) (beat_shift_inside w c req p user device ev start e) in
      elim (beat_found-days ev (find (is_day user.id ev.local_date) db.days.rows)) [
        | inl same ↦ inl (whole ∙ same)
        | inr (day, change, found, arrived, evidence, notes, written) ↦ inr (
          roster,
          office,
          day,
          change,
          er,
          eo,
          (e, found, arrived, evidence, notes, whole ∙ written),
        )
      ]
  beat_shift-days roster office phase er eo e =
      let ev = evaluate_shift w.zones office roster c.first in
      inl (
        ap (λ s. s.durable.days)
          (beat_shift_outside w c req p user device ev start phase e (λ h. cc)))

-- A heartbeat changes no attendance day but the user's checked-in day of today, within the shift; in
-- that day it notes that the employee is seen now and keeps check-in, check-out and status, and only if
-- the client's address is one of an active office's, or if the day is a GPS day and the location that is
-- sent is complete, of an accuracy not above what is asked for, and within the radius of the office
-- that nearest_office finds.
pub heartbeat_evidence :
    (w : World) (c : Clock) (req : Request) (p : HeartbeatIn) (user : User) (device : Device)
    (db : Db)
    → Outcome w c req p user db (request (heartbeat w c req p user device) db).1.days
heartbeat_evidence w c req p user device db =
    let s = start w c req p user device db in
    elim (Option-cases (assigned_roster user db)) [
      | inl absent ↦
          inl (ap (λ s. s.durable.days) (heartbeat_same w c req p user device s (inl absent)))
      | inr (roster, er) ↦ elim (Option-cases (zoned_office w.zones roster db)) [
        | inl absent ↦ inl (
            ap (λ s. s.durable.days)
              (heartbeat_same w c req p user device s (inr (roster, er, absent))))
        | inr (office, eo) ↦
            let ev = evaluate_shift w.zones office roster c.first in
            subst (λ z. Outcome w c req p user db z.1.durable.days)
              (sym (heartbeat_office w c req p user device s roster office er eo))
              (beat_shift-days w c req p user device db roster office ev.phase er eo refl)
      ]
    ]
