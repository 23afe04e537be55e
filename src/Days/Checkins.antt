-- ===== src/Days/Checkins.antt =====
-- app/routers/attendance.py: the check-ins and the heartbeat keep the table of days.
use office_attendance_backen.Base.{
  String, true, Option, none, some, ◌≡◌, refl, inl, inr, Bool-cases, Option-cases,
}
use office_attendance_backen.Model.{Float, Office, Roster, User, Method, wifi, gps}
use office_attendance_backen.World.{World, Clock}
use office_attendance_backen.Session.{Action, pure, gets, ◌>>=◌}
use office_attendance_backen.Ip.{Request, get_client_ip}
use office_attendance_backen.Presence.{
  Phase, PresenceEvent, ShiftEval, evaluate_shift, find_office_by_ip, nearest_office,
}
use office_attendance_backen.Presence.Writer.{day_of, is_free, result-apply_presence_event}
use office_attendance_backen.Attendance.{
  Response, Guarded, early, go, LogDetail, log, assigned_roster, zoned_office, checkin_attempt,
  verify_location, guard_shift, guard_roster, guard_eval, attempt_wifi, attempt_gps, finish,
  checked_in_payload, LocationIn,
}
use office_attendance_backen.Attendance.Safety.{locate}
use office_attendance_backen.Days.Writes.{apply_presence_event-DaysOk, ensure_off_day-DaysOk}
use office_attendance_backen.Days.Keeps.{Keeps, KeepsDays, Keeps-bind, Keeps-KeepsDays}

finish-Keeps :
    (c : Clock) (user : User) (event : PresenceEvent) (ev : ShiftEval) (detail : LogDetail)
    (message : String)
    → Keeps (finish c user event ev detail message)
unfolding finish checked_in_payload log
finish-Keeps c user event ev detail message s both =
    let after = apply_presence_event-DaysOk event ev s.current both.1 in
    rw (result-apply_presence_event event ev s.current)
      (elim (Bool-cases (is_free (day_of event.user_id ev.local_date s.current))) [
        | inl free ↦ rw free (after, after)
        | inr busy ↦ rw busy (after, after)
      ])

attempt_wifi-Keeps :
    (c : Clock) (user : User) (ip : String) (ev : ShiftEval) (matched : Option Office)
    → Keeps (attempt_wifi c user ip ev matched)
unfolding attempt_wifi log
attempt_wifi-Keeps c user ip ev none s both = (both.1, both.1)
attempt_wifi-Keeps c user ip ev (some matched) s both =
    finish-Keeps c user _ ev _ "wifi check-in" s both

attempt_gps-Keeps :
    (w : World) (c : Clock) (user : User) (p : LocationIn) (ev : ShiftEval)
    (found : Option (Office × Float))
    → Keeps (attempt_gps w c user p ev found)
unfolding attempt_gps log
attempt_gps-Keeps w c user p ev none s both = (both.1, both.1)
attempt_gps-Keeps w c user p ev (some (hit, distance)) s both =
    elim (Bool-cases (w.floats.gt_int distance hit.radius_meters)) [
      | inl far ↦ rw far (both.1, both.1)
      | inr near ↦ rw near (finish-Keeps c user _ ev _ "gps check-in" s both)
    ]

locate-Keeps :
    (w : World) (c : Clock) (p : LocationIn) (user : User) (ev : ShiftEval)
    → Keeps (locate w c p user ev)
unfolding log
locate-Keeps w c p user ev s both =
    elim (Bool-cases (w.floats.gt_int p.accuracy w.settings.max_gps_accuracy_m)) [
      | inl coarse ↦ rw coarse (both.1, both.1)
      | inr exact ↦ rw exact (
          attempt_gps-Keeps w c user p ev (nearest_office w.floats s.current p.latitude p.longitude)
            s both)
    ]

guard_phase-Keeps :
    (c : Clock) (user : User) (method : Method) (ev : ShiftEval) (roster : Roster) (office : Office)
    (p : Phase)
    → ev.phase ≡ p
    → ev.is_working_day ≡ true
    → Keeps (guard_eval c user method ev roster office)
unfolding guard_eval log
guard_phase-Keeps c user method ev roster office Phase.before_shift e t s both =
    rw (t, e) (both.1, both.1)
guard_phase-Keeps c user method ev roster office Phase.after_shift e t s both =
    rw (t, e) (both.1, both.1)
guard_phase-Keeps c user method ev roster office Phase.in_shift e t s both = rw (t, e) both
guard_phase-Keeps c user method ev roster office Phase.off_day e t s both = rw (t, e) both

guard_eval-Keeps :
    (c : Clock) (user : User) (method : Method) (ev : ShiftEval) (roster : Roster) (office : Office)
    → Keeps (guard_eval c user method ev roster office)
unfolding guard_eval log
guard_eval-Keeps c user method ev roster office s both = elim (Bool-cases ev.is_working_day) [
  | inl t ↦ guard_phase-Keeps c user method ev roster office ev.phase refl t s both
  | inr e ↦
      let after = ensure_off_day-DaysOk user.id ev.local_date s.current both.1 in
      rw e (after, after)
]

guard_roster-Keeps :
    (w : World) (c : Clock) (user : User) (method : Method) (roster : Option Roster)
    → Keeps (guard_roster w c user method roster)
unfolding guard_roster
guard_roster-Keeps w c user method none s both = both
guard_roster-Keeps w c user method (some roster) s both =
    elim (Option-cases (zoned_office w.zones roster s.current)) [
      | inl absent ↦ rw absent both
      | inr (office, found) ↦ rw found (
          guard_eval-Keeps c user method (evaluate_shift w.zones office roster c.first) roster
            office s both)
    ]

guard_shift-Keeps :
    (w : World) (c : Clock) (user : User) (method : Method) → Keeps (guard_shift w c user method)
unfolding guard_shift
guard_shift-Keeps w c user method s both =
    guard_roster-Keeps w c user method (assigned_roster user s.current) s both

-- What an endpoint does behind the guards.
module _ (k : ShiftEval → Roster → Office → Action Response) where
  abbrev behind : Guarded → Action Response
  behind g = elim g [ early response ↦ pure response | go ev roster office ↦ k ev roster office ]

  behind-Keeps :
      ((ev : ShiftEval) (roster : Roster) (office : Office) → Keeps (k ev roster office))
      → (g : Guarded) → Keeps (behind g)
  behind-Keeps keeps (early response) s both = both
  behind-Keeps keeps (go ev roster office) s both = keeps ev roster office s both

  guarded-Keeps :
      (w : World) (c : Clock) (user : User) (method : Method)
      → ((ev : ShiftEval) (roster : Roster) (office : Office) → Keeps (k ev roster office))
      → Keeps (guard_shift w c user method >>= behind)
  guarded-Keeps w c user method keeps =
      Keeps-bind (guard_shift w c user method) behind (guard_shift-Keeps w c user method)
        (behind-Keeps keeps)

pub checkin_attempt-KeepsDays :
    (w : World) (c : Clock) (req : Request) (user : User) → KeepsDays (checkin_attempt w c req user)
unfolding checkin_attempt
checkin_attempt-KeepsDays w c req user =
    let ip = get_client_ip w.settings.trust_proxy w.addresses req in
    Keeps-KeepsDays (checkin_attempt w c req user) (
      guarded-Keeps
        (λ ev roster office. gets (λ db. find_office_by_ip db ip) >>= attempt_wifi c user ip ev) w c
        user wifi
        (λ ev roster office s both.
          attempt_wifi-Keeps c user ip ev (find_office_by_ip s.current ip) s both))

pub verify_location-KeepsDays :
    (w : World) (c : Clock) (p : LocationIn) (user : User) → KeepsDays (verify_location w c p user)
unfolding verify_location
verify_location-KeepsDays w c p user = Keeps-KeepsDays (verify_location w c p user) (
    guarded-Keeps (λ ev roster office. locate w c p user ev) w c user gps
      (λ ev roster office. locate-Keeps w c p user ev))
