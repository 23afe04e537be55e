-- ===== src/Attendance/Safety.antt =====
-- app/routers/attendance.py: what a successful check-in proves about the employee.
use office_attendance_backen.Base.{
  ◌≡◌, refl, ap, sym, ◌∙◌, String, Bool, true, false, Option, none, some, arith, Option-cases,
  Bool-cases, inl, inr, ℕ, ◌⊎◌,
}
use office_attendance_backen.Model.{
  Db, AttemptResult, Float, Method, Office, Roster, User, wifi, gps,
}
use office_attendance_backen.World.{World, Clock, Floats}
use office_attendance_backen.Session.{
  Session, Action, request, ok, err, internal, pure, gets, ◌>>=◌,
}
use office_attendance_backen.Base.{if◌then◌else◌}
use office_attendance_backen.Session.{◌>>◌, modify, commit}
use office_attendance_backen.Presence.Shift.{phase-evaluate_shift}
use office_attendance_backen.Ip.{Request, get_client_ip}
use office_attendance_backen.Presence.{
  Phase, ShiftEval, PresenceEvent, evaluate_shift, find_office_by_ip, nearest_office,
}
use office_attendance_backen.Presence.Writer.{day_of, is_free, result-apply_presence_event}
use office_attendance_backen.Attendance.Types.{
  Response, checked_in, low_accuracy, no_detail, no_roster, assigned_roster, zoned_office, log,
  LogDetail, checked_in_payload,
}
use office_attendance_backen.Attendance.Guard.{early, go, guard_eval, guard_roster, guard_shift}
use office_attendance_backen.Attendance.Checkin.{
  finish, attempt_wifi, checkin_attempt, LocationIn, attempt_gps, verify_location,
}

-- Where an employee stands when a check-in can succeed: on a roster, on a working day, within the
-- shift, with no check-in yet.
pub record MayCheckIn (w : World) (c : Clock) (user : User) (db : Db) : Type 0 where
  pub roster : Roster
  pub office : Office
  pub assigned : assigned_roster user db ≡ some roster
  pub located : zoned_office w.zones roster db ≡ some office
  pub working : (evaluate_shift w.zones office roster c.first).is_working_day ≡ true
  pub in_shift : (evaluate_shift w.zones office roster c.first).phase ≡ Phase.in_shift
  pub free :
      is_free (day_of user.id (evaluate_shift w.zones office roster c.first).local_date db) ≡ true

abbrev pub is_checked_in : Response → Bool
is_checked_in (checked_in m s i l v) = true
is_checked_in _ = false

-- How `_guard_shift` ends, from the lookups that it makes.
guard_shift_no_roster :
    (w : World) (c : Clock) (user : User) (m : Method) (s : Session)
    → assigned_roster user s.current ≡ none
    → guard_shift w c user m s ≡ (ok (early no_roster), s)
unfolding guard_shift guard_roster
guard_shift_no_roster w c user m s e = ground arith

guard_shift_no_office :
    (w : World) (c : Clock) (user : User) (m : Method) (s : Session) (r : Roster)
    → assigned_roster user s.current ≡ some r
    → zoned_office w.zones r s.current ≡ none
    → guard_shift w c user m s ≡ (err internal, s)
unfolding guard_shift guard_roster
guard_shift_no_office w c user m s r e eo = ground arith

pub guard_shift_office :
    (w : World) (c : Clock) (user : User) (m : Method) (s : Session) (r : Roster) (o : Office)
    → assigned_roster user s.current ≡ some r
    → zoned_office w.zones r s.current ≡ some o
    → guard_shift w c user m s ≡ guard_eval c user m (evaluate_shift w.zones o r c.first) r o s
unfolding guard_shift guard_roster
guard_shift_office w c user m s r o e eo = ground arith

-- An endpoint: the guards, then `k` with the evaluated shift.
abbrev pub guarded_by :
    World → Clock → User → Method → (ShiftEval → Action Response) → Action Response
guarded_by w c user m k = do
  guarded ← guard_shift w c user m
  elim guarded [ early response ↦ pure response | go ev roster office ↦ k ev ]

-- With the roster and the office at hand, a check-in comes from `k`, within the shift.
guard_eval-passes :
    (c : Clock) (user : User) (m : Method) (k : ShiftEval → Action Response) (ev : ShiftEval)
    (r : Roster) (o : Office) (s : Session) (x : Response) (p : Phase)
    → ev.phase ≡ p
    → (ev.is_working_day ≡ true → (ev.phase ≡ Phase.off_day → ⊥))
    → ((guard_eval c user m ev r o >>= λ g. elim g [
      | early response ↦ pure response
      | go ev' roster office ↦ k ev'
    ])
        s).0
      ≡ ok x
    → is_checked_in x ≡ true
    → (ev.is_working_day ≡ true) × (ev.phase ≡ Phase.in_shift) × ((k ev s).0 ≡ ok x)
unfolding guard_eval
guard_eval-passes c user m k ev r o s x Phase.in_shift e no_off h checked = ground arith
guard_eval-passes c user m k ev r o s x Phase.off_day e no_off h checked =
    elim (Bool-cases ev.is_working_day) [ inl t ↦ absurd (no_off t e) | inr t ↦ ground arith ]
guard_eval-passes c user m k ev r o s x _ e no_off h checked = ground arith

pub bind-same :
    {A B : Type 0} (m m' : Action A) (k : A → Action B) (s : Session)
    → m s ≡ m' s
    → (m >>= k) s ≡ (m' >>= k) s
bind-same m m' k s = ap (λ z. let (r, s') = z in elim r [ ok a ↦ k a s' | err e ↦ (err e, s') ])

-- What the guards let through.
guarded_by-passes :
    (w : World) (c : Clock) (user : User) (m : Method) (k : ShiftEval → Action Response)
    (s : Session) (x : Response)
    → (guarded_by w c user m k s).0 ≡ ok x
    → is_checked_in x ≡ true
    → (r : Roster) × (o : Office) × (assigned_roster user s.current ≡ some r)
      × (zoned_office w.zones r s.current ≡ some o)
      × let ev = evaluate_shift w.zones o r c.first in
        (ev.is_working_day ≡ true) × (ev.phase ≡ Phase.in_shift) × ((k ev s).0 ≡ ok x)
guarded_by-passes w c user m k s x h checked =
    elim (Option-cases (assigned_roster user s.current)) [
      | inl absent ↦ ground (arith, guard_shift_no_roster w c user m s absent)
      | inr (r, er) ↦ elim (Option-cases (zoned_office w.zones r s.current)) [
        | inl absent ↦ ground (arith, guard_shift_no_office w c user m s r er absent)
        | inr (o, eo) ↦
            let ev = evaluate_shift w.zones o r c.first in
            (
              r,
              o,
              er,
              eo,
              guard_eval-passes c user m k ev r o s x ev.phase refl
                  (λ t e.
                    ground (arith, (phase-evaluate_shift w.zones o r c.first Phase.off_day).0 e))
                  (sym (
                      ap (λ z. z.0)
                        (bind-same (guard_shift w c user m) (guard_eval c user m ev r o)
                          (λ g. elim g [
                            | early response ↦ pure response
                            | go ev' roster office ↦ k ev'
                          ])
                          s (guard_shift_office w c user m s r o er eo)))
                    ∙ h)
                  checked,
            )
      ]
    ]

-- The end of an endpoint reports a check-in only if the day was free.
finish-is_free :
    (c : Clock) (user : User) (event : PresenceEvent) (ev : ShiftEval) (detail : LogDetail)
    (message : String) (s : Session) (x : Response)
    → (finish c user event ev detail message s).0 ≡ ok x
    → is_checked_in x ≡ true
    → is_free (day_of event.user_id ev.local_date s.current) ≡ true
unfolding finish checked_in_payload
finish-is_free c user event ev detail message s x h e =
    ground (arith, result-apply_presence_event event ev s.current)

attempt_wifi-passes :
    (c : Clock) (user : User) (ip : String) (ev : ShiftEval) (found : Option Office) (s : Session)
    (x : Response)
    → (attempt_wifi c user ip ev found s).0 ≡ ok x
    → is_checked_in x ≡ true
    → (matched : Office) × (found ≡ some matched)
      × (is_free (day_of user.id ev.local_date s.current) ≡ true)
unfolding attempt_wifi
attempt_wifi-passes c user ip ev none s x h e = ground arith
attempt_wifi-passes c user ip ev (some matched) s x h e =
    (matched, refl, finish-is_free c user _ ev _ "wifi check-in" s x h e)

attempt_gps-passes :
    (w : World) (c : Clock) (user : User) (p : LocationIn) (ev : ShiftEval)
    (found : Option (Office × Float)) (s : Session) (x : Response)
    → (attempt_gps w c user p ev found s).0 ≡ ok x
    → is_checked_in x ≡ true
    → (hit : Office) × (distance : Float) × (found ≡ some (hit, distance))
      × (w.floats.gt_int distance hit.radius_meters ≡ false)
      × (is_free (day_of user.id ev.local_date s.current) ≡ true)
unfolding attempt_gps
attempt_gps-passes w c user p ev none s x h e = ground arith
attempt_gps-passes w c user p ev (some (hit, distance)) s x h e =
    elim (Bool-cases (w.floats.gt_int distance hit.radius_meters)) [
      | inl far ↦ ground arith
      | inr near ↦ (
        hit,
        distance,
        refl,
        near,
        finish-is_free c user _ ev _ "gps check-in" s x (rw near at h) e,
      )
    ]

-- `verify_location` behind the guards.
abbrev pub locate : World → Clock → LocationIn → User → ShiftEval → Action Response
locate w c p user ev =
    if w.floats.gt_int p.accuracy w.settings.max_gps_accuracy_m
    then (do
      modify (
          log c.db_now user.id gps AttemptResult.low_accuracy
            (record no_detail {
              lat = some p.latitude;
              lng = some p.longitude;
              accuracy = some p.accuracy;
            })
            "low_accuracy")
      commit
      pure (low_accuracy p.accuracy))
    else (do
      found ← gets (λ db. nearest_office w.floats db p.latitude p.longitude)
      attempt_gps w c user p ev found)

locate-passes :
    (w : World) (c : Clock) (p : LocationIn) (user : User) (ev : ShiftEval) (s : Session)
    (x : Response)
    → (locate w c p user ev s).0 ≡ ok x
    → is_checked_in x ≡ true
    → (w.floats.gt_int p.accuracy w.settings.max_gps_accuracy_m ≡ false)
      × (hit : Office) × (distance : Float) × (nearest_office w.floats s.current p.latitude
            p.longitude
          ≡ some (hit, distance))
      × (w.floats.gt_int distance hit.radius_meters ≡ false)
      × (is_free (day_of user.id ev.local_date s.current) ≡ true)
locate-passes w c p user ev s x h e =
    elim (Bool-cases (w.floats.gt_int p.accuracy w.settings.max_gps_accuracy_m)) [
      | inl coarse ↦ ground arith
      | inr exact ↦
          let (hit, distance, found, near, free) =
            attempt_gps-passes w c user p ev
              (nearest_office w.floats s.current p.latitude p.longitude) s x (rw exact at h) e in
          (exact, hit, distance, found, near, free)
    ]

-- A WiFi check-in that succeeds comes from an employee who may check in, and from an address that is one
-- of an active office's.
pub checkin_attempt_safe :
    (w : World) (c : Clock) (req : Request) (user : User) (db : Db) (x : Response)
    → (request (checkin_attempt w c req user) db).0 ≡ ok x
    → is_checked_in x ≡ true
    → MayCheckIn w c user db
      × (matched : Office) × (find_office_by_ip db
            (get_client_ip w.settings.trust_proxy w.addresses req)
          ≡ some matched)
unfolding checkin_attempt attempt_wifi
checkin_attempt_safe w c req user db x h checked =
    let ip = get_client_ip w.settings.trust_proxy w.addresses req in
    let s : Session = record { durable = db; current = db } in
    let (r, o, er, eo, (working, phase, rest)) =
      guarded_by-passes w c user wifi
        (λ ev. gets (λ db'. find_office_by_ip db' ip) >>= attempt_wifi c user ip ev) s x h
        checked in
    let (matched, found, free) =
      attempt_wifi-passes c user ip (evaluate_shift w.zones o r c.first) (find_office_by_ip db ip) s
        x rest checked in
    (
      record {
        roster = r;
        office = o;
        assigned = er;
        located = eo;
        working = working;
        in_shift = phase;
        free = free;
      },
      matched,
      found,
    )

-- A float that is a number is at most n if it is not above n.
abbrev pub IsOrdered : Floats → Type 0
IsOrdered f = (x : Float) (n : ℕ) → f.is_nan x ≡ false → f.gt_int x n ≡ false → f.le_int x n ≡ true

-- At most n, or NaN.
abbrev pub AtMost : Floats → Float → ℕ → Type 0
AtMost f x n = (f.le_int x n ≡ true) ⊎ (f.is_nan x ≡ true)

not_above-AtMost :
    (f : Floats) (x : Float) (n : ℕ) → IsOrdered f → f.gt_int x n ≡ false → AtMost f x n
not_above-AtMost f x n ordered h = elim (Bool-cases (f.is_nan x)) [
  | inl nan ↦ inr nan
  | inr number ↦ inl (ordered x n number h)
]

-- A GPS check-in that succeeds comes from an employee who may check in; the accuracy of the fix is NaN or
-- at most what is asked for, and its distance to the office that nearest_office finds is NaN or at most
-- the office's radius. The comparisons are those of IEEE doubles: of a number, one of > and <= holds.
pub verify_location_safe :
    (w : World) (c : Clock) (p : LocationIn) (user : User) (db : Db) (x : Response)
    → (request (verify_location w c p user) db).0 ≡ ok x
    → is_checked_in x ≡ true
    → IsOrdered w.floats
    → MayCheckIn w c user db
      × AtMost w.floats p.accuracy w.settings.max_gps_accuracy_m
      × (hit : Office) × (distance : Float) × (nearest_office w.floats db p.latitude p.longitude
          ≡ some (hit, distance))
      × AtMost w.floats distance hit.radius_meters
unfolding verify_location attempt_gps
verify_location_safe w c p user db x h checked ordered =
    let s : Session = record { durable = db; current = db } in
    let (r, o, er, eo, (working, phase, rest)) =
      guarded_by-passes w c user gps (locate w c p user) s x h checked in
    let (exact, hit, distance, found, near, free) =
      locate-passes w c p user (evaluate_shift w.zones o r c.first) s x rest checked in
    (
      record {
        roster = r;
        office = o;
        assigned = er;
        located = eo;
        working = working;
        in_shift = phase;
        free = free;
      },
      not_above-AtMost w.floats p.accuracy w.settings.max_gps_accuracy_m ordered exact,
      hit,
      distance,
      found,
      not_above-AtMost w.floats distance hit.radius_meters ordered near,
    )
