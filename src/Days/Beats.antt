-- ===== src/Days/Beats.antt =====
-- app/routers/attendance.py: the heartbeat keeps the table of days.
use office_attendance_backen.Base.{
  String, true, Option, none, some, ◌≡◌, refl, sym, subst, arith, find, find-All, is_some, inl, inr,
  Bool-cases, Option-cases,
}
use office_attendance_backen.Model.{Float, Office, User, Device, AttendanceDay, Db, is_day}
use office_attendance_backen.World.{World, Clock}
use office_attendance_backen.Session.{Session}
use office_attendance_backen.Ip.{Request}
use office_attendance_backen.Presence.{
  Phase, ShiftEval, evaluate_shift, find_office_by_ip, nearest_office,
}
use office_attendance_backen.Attendance.{
  log, assigned_roster, zoned_office, HeartbeatIn, Verdict, is_gps_day, on_network, reverify,
  off_network, judge, beat_day, beat_found, record_beat, beat_shift, heartbeat, set_day,
}
use office_attendance_backen.Attendance.Beating.{
  address, beaten, beat_shift_inside, beat_shift_outside, heartbeat_same, heartbeat_office,
}
use office_attendance_backen.Days.{IsCoherent, DaysOk}
use office_attendance_backen.Days.Tables.{KeepsKey}
use office_attendance_backen.Days.Writes.{update_found-DaysOk}
use office_attendance_backen.Days.Keeps.{BothOk, Keeps, KeepsDays, Keeps-KeepsDays}

-- A verdict that keeps the row of a day coherent and logs without touching the days.
record IsSound (day : AttendanceDay) (v : Verdict) : Type 0 where
  keys : KeepsKey v.change
  sound : IsCoherent (v.change day)
  quiet : (db : Db) → (v.logged db).days ≡ db.days

module _ (w : World) (c : Clock) (user : User) (day : AttendanceDay) (ok : IsCoherent day)
    (arrived : is_some day.check_in ≡ true) where
  on_network-IsSound :
      (ip : String) (matched : Office) → IsSound day (on_network c user ip matched day)
  unfolding on_network log
  on_network-IsSound ip matched = elim (Bool-cases (is_gps_day day)) [
    | inl t ↦
        rw t (record { keys = λ d. (refl, refl, refl); sound = ground arith; quiet = λ db. refl })
    | inr e ↦
        rw e (record { keys = λ d. (refl, refl, refl); sound = ground arith; quiet = λ db. refl })
  ]

  reverify-IsSound :
      (lat lng acc : Float) (found : Option (Office × Float))
      → IsSound day (reverify w c user lat lng acc found)
  unfolding reverify log
  reverify-IsSound lat lng acc none = record {
    keys = λ d. (refl, refl, refl);
    sound = ok;
    quiet = λ db. refl;
  }
  reverify-IsSound lat lng acc (some (o, dist)) =
      elim (Bool-cases (w.floats.le_int dist o.radius_meters)) [
        | inl t ↦
            rw t
              (record { keys = λ d. (refl, refl, refl); sound = ground arith; quiet = λ db. refl })
        | inr e ↦ rw e (record { keys = λ d. (refl, refl, refl); sound = ok; quiet = λ db. refl })
      ]

  located-IsSound :
      (lat lng acc : Option Float) (db : Db)
      → IsSound day
          (off_network w c user (record { latitude = lat; longitude = lng; accuracy = acc }) db)
  unfolding off_network log
  located-IsSound none lng acc db = record {
    keys = λ d. (refl, refl, refl);
    sound = ok;
    quiet = λ db. refl;
  }
  located-IsSound (some lat) none acc db = record {
    keys = λ d. (refl, refl, refl);
    sound = ok;
    quiet = λ db. refl;
  }
  located-IsSound (some lat) (some lng) none db = record {
    keys = λ d. (refl, refl, refl);
    sound = ok;
    quiet = λ db. refl;
  }
  located-IsSound (some lat) (some lng) (some acc) db =
      elim (Bool-cases (w.floats.gt_int acc w.settings.max_gps_accuracy_m)) [
        | inl t ↦ rw t (record { keys = λ d. (refl, refl, refl); sound = ok; quiet = λ db. refl })
        | inr e ↦ rw e (reverify-IsSound lat lng acc (nearest_office w.floats db lat lng))
      ]

  judge-IsSound :
      (ip : String) (matched : Option Office) (p : HeartbeatIn) (db : Db)
      → IsSound day (judge w c user ip matched p day db)
  unfolding judge
  judge-IsSound ip (some matched) p db = on_network-IsSound ip matched
  judge-IsSound ip none p db = elim (Bool-cases (is_gps_day day)) [
    | inl t ↦ rw t (located-IsSound p.latitude p.longitude p.accuracy db)
    | inr e ↦ rw e (record { keys = λ d. (refl, refl, refl); sound = ok; quiet = λ db. refl })
  ]

module _ (w : World) (c : Clock) (user : User) (ip : String) (matched : Option Office)
    (p : HeartbeatIn) (ev : ShiftEval) where
  beat_day-BothOk :
      (day : AttendanceDay) (s : Session)
      → find (is_day user.id ev.local_date) s.current.days.rows ≡ some day
      → is_some day.check_in ≡ true
      → BothOk s
      → BothOk (beat_day w c user ip matched p ev day s).1
  unfolding beat_day
  beat_day-BothOk day s found arrived both =
      let row =
        find-All IsCoherent (is_day user.id ev.local_date) s.current.days.rows day both.1.coherent
          found in
      let v = judge w c user ip matched p day s.current in
      let fine = judge-IsSound w c user day row arrived ip matched p s.current in
      let after = subst DaysOk (sym (fine.quiet (set_day day.id v.change s.current))) (
        update_found-DaysOk (is_day user.id ev.local_date) v.change s.current.days day fine.keys
          found fine.sound both.1) in
      elim (Bool-cases v.fails) [
        | inl failed ↦ rw failed both
        | inr fine' ↦ rw fine' (after, after)
      ]

  beat_found-BothOk :
      (found : Option AttendanceDay) (s : Session)
      → find (is_day user.id ev.local_date) s.current.days.rows ≡ found
      → BothOk s
      → BothOk (beat_found w c user ip matched p ev found s).1
  unfolding beat_found
  beat_found-BothOk none s e both = (both.1, both.1)
  beat_found-BothOk (some day) s e both = elim (Bool-cases (is_some day.check_in)) [
    | inl t ↦ rw t (beat_day-BothOk day s e t both)
    | inr f ↦ rw f (both.1, both.1)
  ]

module _ (w : World) (c : Clock) (req : Request) (p : HeartbeatIn) (user : User)
    (device : Device) where
  beat_shift-Keeps :
      (ev : ShiftEval) (phase : Phase)
      → ev.phase ≡ phase
      → Keeps (beat_shift w c req p user device ev)
  unfolding record_beat
  beat_shift-Keeps ev Phase.in_shift e s both =
      subst (λ z. BothOk z.1) (sym (beat_shift_inside w c req p user device ev s e))
        (beat_found-BothOk w c user (address w c req p user device)
          (find_office_by_ip s.current (address w c req p user device)) p ev
          (find (is_day user.id ev.local_date) (beaten w c req p user device s).current.days.rows)
          (beaten w c req p user device s) refl both)
  beat_shift-Keeps ev phase e s both =
      subst BothOk (sym (beat_shift_outside w c req p user device ev s phase e (λ h. cc))) both

  heartbeat-Keeps : Keeps (heartbeat w c req p user device)
  heartbeat-Keeps s both = elim (Option-cases (assigned_roster user s.current)) [
    | inl absent ↦ subst BothOk (sym (heartbeat_same w c req p user device s (inl absent))) both
    | inr (roster, er) ↦ elim (Option-cases (zoned_office w.zones roster s.current)) [
      | inl absent ↦
          subst BothOk (sym (heartbeat_same w c req p user device s (inr (roster, er, absent))))
            both
      | inr (office, eo) ↦
          let ev = evaluate_shift w.zones office roster c.first in
          subst (λ z. BothOk z.1)
            (sym (heartbeat_office w c req p user device s roster office er eo))
            (beat_shift-Keeps ev ev.phase refl s both)
    ]
  ]

pub heartbeat-KeepsDays :
    (w : World) (c : Clock) (req : Request) (p : HeartbeatIn) (user : User) (device : Device)
    → KeepsDays (heartbeat w c req p user device)
heartbeat-KeepsDays w c req p user device =
    Keeps-KeepsDays (heartbeat w c req p user device) (heartbeat-Keeps w c req p user device)
