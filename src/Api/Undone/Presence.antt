-- ===== src/Api/Undone/Presence.antt =====
-- app/routers/attendance.py, debug.py and reports.py: check-ins, heartbeats, the jobs run by hand and
-- the reports, when they fail.
use office_attendance_backen.Base.{
  String, Option, List, [], ◌∷◌, ◌≡◌, refl, arith, inl, inr, select,
}
use office_attendance_backen.Time.{Instant, Zones}
use office_attendance_backen.Model.{User, Device}
use office_attendance_backen.World.{World, Clock}
use office_attendance_backen.Session.{Session, Result-cases}
use office_attendance_backen.Ip.{Request}
use office_attendance_backen.Deps.{require_dev_mode}
use office_attendance_backen.Attendance.{
  LocationIn, HeartbeatIn, history, own_today, checkin_attempt, verify_location, guard_shift,
  guard_roster, guard_eval, attempt_wifi, attempt_gps, finish, heartbeat, beat_shift, beat_found,
  beat_day,
}
use office_attendance_backen.Nightly.{
  Stats, is_active_employee, no_stats, resolve_employee, resolve_all, run_nightly_resolution,
}
use office_attendance_backen.Debug.{my_ip, set_time, get_time, request_now, run_idle, run_nightly}
use office_attendance_backen.Api.Undone.{Undone}

pub checkin_attempt-Undone :
    (w : World) (c : Clock) (req : Request) (user : User) → Undone (checkin_attempt w c req user)
unfolding checkin_attempt guard_shift guard_roster guard_eval attempt_wifi finish
checkin_attempt-Undone w c req user db x h = ground arith

pub verify_location-Undone :
    (w : World) (c : Clock) (p : LocationIn) (user : User) → Undone (verify_location w c p user)
unfolding verify_location guard_shift guard_roster guard_eval attempt_gps finish
verify_location-Undone w c p user db x h = ground arith

pub heartbeat-Undone :
    (w : World) (c : Clock) (req : Request) (p : HeartbeatIn) (user : User) (device : Device)
    → Undone (heartbeat w c req p user device)
unfolding heartbeat beat_shift beat_found beat_day
heartbeat-Undone w c req p user device db x h = ground arith

pub history-Undone : (w : World) (c : Clock) (user : User) → Undone (history w c user)
unfolding history own_today
history-Undone w c user db x h = ground arith

pub set_time-Undone : (w : World) (t : Instant) (iso : Option String) → Undone (set_time w t iso)
unfolding set_time require_dev_mode
set_time-Undone w t iso db x h = ground arith

pub get_time-Undone : (w : World) (t : Instant) → Undone (get_time w t)
unfolding get_time require_dev_mode
get_time-Undone w t db x h = ground arith

pub my_ip-Undone : (w : World) (req : Request) → Undone (my_ip w req)
unfolding my_ip require_dev_mode
my_ip-Undone w req db x h = ground arith

pub run_idle-Undone : (w : World) (t : Instant) → Undone (run_idle w t)
unfolding run_idle require_dev_mode
run_idle-Undone w t db x h = ground arith

resolve_employee-durable :
    (z : Zones) (now : Instant) (emp : User) (stats : Stats) (s : Session)
    → (resolve_employee z now emp stats s).1.durable ≡ s.durable
unfolding resolve_employee
resolve_employee-durable z now emp stats s = ground arith

resolve_all-durable :
    (z : Zones) (now : Instant) (emps : List User) (stats : Stats) (s : Session)
    → (resolve_all z now emps stats s).1.durable ≡ s.durable
unfolding resolve_all
resolve_all-durable z now [] stats s = refl
resolve_all-durable z now (emp ∷ emps) stats s =
    let once = resolve_employee-durable z now emp stats s in
    let after = (resolve_employee z now emp stats s).1 in
    elim (Result-cases (resolve_employee z now emp stats s).0) [
      | inl (stats', e) ↦ ground (arith, resolve_all-durable z now emps stats' after)
      | inr (x, e) ↦ ground arith
    ]

-- A run that dies of an exception is not committed.
pub run_nightly-Undone : (w : World) (t : Instant) → Undone (run_nightly w t)
unfolding run_nightly require_dev_mode run_nightly_resolution
run_nightly-Undone w t db x h =
    let start : Session = record { durable = db; current = db } in
    ground (
      arith,
      resolve_all-durable w.zones (request_now w db t) (select is_active_employee db.users.rows)
          no_stats start,
    )
