-- ===== src/Attendance/Verdicts.antt =====
-- app/routers/attendance.py `heartbeat`: on what evidence its verdict on a day notes that the
-- employee is seen.
use office_attendance_backen.Base.{
  ◌≡◌, ◌⊎◌, refl, String, true, false, Option, none, some, Bool-cases, inl, inr,
}
use office_attendance_backen.Model.{AttendanceDay, Db, Float, Office, User}
use office_attendance_backen.World.{World, Clock}
use office_attendance_backen.Ip.{Request, get_client_ip}
use office_attendance_backen.Presence.{find_office_by_ip, nearest_office}
use office_attendance_backen.Attendance.Types.{log}
use office_attendance_backen.Attendance.Heartbeat.{
  HeartbeatIn, Verdict, is_gps_day, on_network, reverify, off_network, judge,
}

-- A location that counts: on a GPS day, complete, of an accuracy that is not above what is asked for,
-- and within the radius of the office that nearest_office finds.
pub record IsFix (w : World) (p : HeartbeatIn) (day : AttendanceDay) (db : Db) : Type 0 where
  pub lat : Float
  pub lng : Float
  pub accuracy : Float
  pub office : Office
  pub distance : Float
  pub gps_day : is_gps_day day ≡ true
  pub has_lat : p.latitude ≡ some lat
  pub has_lng : p.longitude ≡ some lng
  pub has_accuracy : p.accuracy ≡ some accuracy
  pub accurate : w.floats.gt_int accuracy w.settings.max_gps_accuracy_m ≡ false
  pub found : nearest_office w.floats db lat lng ≡ some (office, distance)
  pub near : w.floats.le_int distance office.radius_meters ≡ true

-- A change that notes that the employee is seen now, and keeps check-in, check-out and status.
abbrev pub Notes : Clock → (AttendanceDay → AttendanceDay) → Type 0
Notes c change =
    (d : AttendanceDay)
    → ((change d).last_seen ≡ some c.first)
      × ((change d).check_in ≡ d.check_in)
      × ((change d).check_out ≡ d.check_out)
      × ((change d).status ≡ d.status)

-- A verdict that logs without touching the days, and changes a day only on the evidence `E`.
pub record IsFair (E : Type 0) (c : Clock) (v : Verdict) : Type 0 where
  pub quiet : (db : Db) → (v.logged db).days ≡ db.days
  pub shown : ((d : AttendanceDay) → v.change d ≡ d) ⊎ (E × Notes c v.change)

on_network-IsFair :
    (E : Type 0) (c : Clock) (user : User) (ip : String) (matched : Office) (day : AttendanceDay)
    → E
    → IsFair E c (on_network c user ip matched day)
unfolding on_network log
on_network-IsFair E c user ip matched day e = elim (Bool-cases (is_gps_day day)) [
  | inl t ↦ rw t (record { quiet = λ db. refl; shown = inr (e, λ d. (refl, refl, refl, refl)) })
  | inr t ↦ rw t (record { quiet = λ db. refl; shown = inr (e, λ d. (refl, refl, refl, refl)) })
]

reverify-IsFair :
    (E : Type 0) (w : World) (c : Clock) (user : User) (lat lng acc : Float)
    (found : Option (Office × Float))
    → ((o : Office) (distance : Float)
        → found ≡ some (o, distance)
        → w.floats.le_int distance o.radius_meters ≡ true
        → E)
    → IsFair E c (reverify w c user lat lng acc found)
unfolding reverify log
reverify-IsFair E w c user lat lng acc none e = record {
  quiet = λ db. refl;
  shown = inl (λ d. refl);
}
reverify-IsFair E w c user lat lng acc (some (o, distance)) e =
    elim (Bool-cases (w.floats.le_int distance o.radius_meters)) [
      | inl near ↦ rw near (record {
        quiet = λ db. refl;
        shown = inr (e o distance refl near, λ d. (refl, refl, refl, refl));
      })
      | inr far ↦ rw far (record { quiet = λ db. refl; shown = inl (λ d. refl) })
    ]

off_network-IsFair :
    (w : World) (c : Clock) (user : User) (lat lng acc : Option Float) (day : AttendanceDay)
    (db : Db)
    → is_gps_day day ≡ true
    → let p : HeartbeatIn = record { latitude = lat; longitude = lng; accuracy = acc } in
      IsFair (IsFix w p day db) c (off_network w c user p db)
unfolding off_network log
off_network-IsFair w c user none lng acc day db gps_day = record {
  quiet = λ db. refl;
  shown = inl (λ d. refl);
}
off_network-IsFair w c user (some lat) none acc day db gps_day = record {
  quiet = λ db. refl;
  shown = inl (λ d. refl);
}
off_network-IsFair w c user (some lat) (some lng) none day db gps_day = record {
  quiet = λ db. refl;
  shown = inl (λ d. refl);
}
off_network-IsFair w c user (some lat) (some lng) (some acc) day db gps_day =
    elim (Bool-cases (w.floats.gt_int acc w.settings.max_gps_accuracy_m)) [
      | inl coarse ↦ rw coarse (record { quiet = λ db. refl; shown = inl (λ d. refl) })
      | inr accurate ↦ rw accurate (
          reverify-IsFair _ w c user lat lng acc (nearest_office w.floats db lat lng)
            (λ o distance found near. record {
              lat = lat;
              lng = lng;
              accuracy = acc;
              office = o;
              distance = distance;
              gps_day = gps_day;
              has_lat = refl;
              has_lng = refl;
              has_accuracy = refl;
              accurate = accurate;
              found = found;
              near = near;
            }))
    ]

-- The address is one of an active office's, or the location counts.
abbrev pub Evidence : World → Request → HeartbeatIn → AttendanceDay → Db → Type 0
Evidence w req p day db =
    ((o : Office) × (find_office_by_ip db (get_client_ip w.settings.trust_proxy w.addresses req)
        ≡ some o))
    ⊎ IsFix w p day db

pub judge-IsFair :
    (w : World) (c : Clock) (req : Request) (user : User) (matched : Option Office)
    (p : HeartbeatIn) (day : AttendanceDay) (db : Db)
    → let ip = get_client_ip w.settings.trust_proxy w.addresses req in
      find_office_by_ip db ip ≡ matched
      → IsFair (Evidence w req p day db) c (judge w c user ip matched p day db)
unfolding judge
judge-IsFair w c req user (some o) p day db found =
    on_network-IsFair _ c user (get_client_ip w.settings.trust_proxy w.addresses req) o day
      (inl (o, found))
judge-IsFair w c req user none p day db found = elim (Bool-cases (is_gps_day day)) [
  | inr t ↦ rw t (record { quiet = λ db. refl; shown = inl (λ d. refl) })
  | inl t ↦
      let fair = off_network-IsFair w c user p.latitude p.longitude p.accuracy day db t in
      rw t (record {
        quiet = fair.quiet;
        shown = elim fair.shown [ inl same ↦ inl same | inr (fix, notes) ↦ inr (inr fix, notes) ];
      })
]
