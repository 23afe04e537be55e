-- ===== src/Attendance/Beating.antt =====
-- app/routers/attendance.py `heartbeat`: the rules by which it runs, from its lookups to the loaded day.
use office_attendance_backen.Base.{
  String, none, some, ◌≡◌, refl, arith, find, is_some, ◌⊎◌, inl, inr,
}
use office_attendance_backen.Model.{Office, Roster, User, Device, is_day}
use office_attendance_backen.World.{World, Clock}
use office_attendance_backen.Session.{Session}
use office_attendance_backen.Ip.{Request, get_client_ip}
use office_attendance_backen.Presence.{Phase, ShiftEval, evaluate_shift, find_office_by_ip}
use office_attendance_backen.Attendance.Types.{assigned_roster, zoned_office}
use office_attendance_backen.Attendance.Heartbeat.{
  HeartbeatIn, beat_found, record_beat, beat_shift, heartbeat,
}

module _ (w : World) (c : Clock) (req : Request) (p : HeartbeatIn) (user : User)
    (device : Device) where
  abbrev pub address : String
  address = get_client_ip w.settings.trust_proxy w.addresses req

  -- The session after the `Heartbeat` row.
  abbrev pub beaten : Session → Session
  beaten s = record s {
    current =
        record_beat c user device address (is_some (find_office_by_ip s.current address)) s.current;
  }

  pub beat_shift_inside :
      (ev : ShiftEval) (s : Session)
      → ev.phase ≡ Phase.in_shift
      → beat_shift w c req p user device ev s
        ≡ beat_found w c user address
            (find_office_by_ip s.current address)
            p
            ev
            (find (is_day user.id ev.local_date) (beaten s).current.days.rows)
            (beaten s)
  unfolding beat_shift
  beat_shift_inside ev s e = ground arith

  -- Outside of the shift nothing is written.
  pub beat_shift_outside :
      (ev : ShiftEval) (s : Session) (phase : Phase)
      → ev.phase ≡ phase
      → (phase ≡ Phase.in_shift → ⊥)
      → (beat_shift w c req p user device ev s).1 ≡ s
  unfolding beat_shift
  beat_shift_outside ev s Phase.in_shift e out = absurd (out refl)
  beat_shift_outside ev s _ e out = ground arith

  pub heartbeat_same :
      (s : Session)
      → ((assigned_roster user s.current ≡ none)
          ⊎ ((roster : Roster) × (assigned_roster user s.current ≡ some roster)
              × (zoned_office w.zones roster s.current ≡ none)))
      → (heartbeat w c req p user device s).1 ≡ s
  unfolding heartbeat
  heartbeat_same s (inl absent) = ground arith
  heartbeat_same s (inr (roster, er, absent)) = ground arith

  pub heartbeat_office :
      (s : Session) (roster : Roster) (office : Office)
      → assigned_roster user s.current ≡ some roster
      → zoned_office w.zones roster s.current ≡ some office
      → heartbeat w c req p user device s
        ≡ beat_shift w c req p user device (evaluate_shift w.zones office roster c.first) s
  unfolding heartbeat
  heartbeat_office s roster office er eo = ground arith
