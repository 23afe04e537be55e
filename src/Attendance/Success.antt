-- ===== src/Attendance/Success.antt =====
-- app/routers/attendance.py: a check-in succeeds for every employee who may check in.
use office_attendance_backen.Base.{◌≡◌, ◌∙◌, ap, refl, String, true, none, some, arith}
use office_attendance_backen.Model.{Db, Method, Office, Roster, User, wifi}
use office_attendance_backen.World.{World, Clock}
use office_attendance_backen.Session.{Session, Action, request, ok, pure, gets, ◌>>=◌}
use office_attendance_backen.Ip.{Request, get_client_ip}
use office_attendance_backen.Presence.{
  Phase, ShiftEval, PresenceEvent, evaluate_shift, find_office_by_ip, apply_presence_event,
}
use office_attendance_backen.Presence.Writer.{
  day_of, is_free, row_after, day_of-apply_presence_event, result-apply_presence_event,
}
use office_attendance_backen.Attendance.Types.{
  Response, checked_in_payload, LogDetail, no_detail, log,
}
use office_attendance_backen.Attendance.Guard.{early, go, guard_eval, guard_shift}
use office_attendance_backen.Attendance.Checkin.{finish, attempt_wifi, checkin_attempt}
use office_attendance_backen.Attendance.Safety.{
  MayCheckIn, bind-same, guard_shift_office, guarded_by,
}

guard_eval_open :
    (c : Clock) (user : User) (m : Method) (ev : ShiftEval) (r : Roster) (o : Office) (s : Session)
    → ev.is_working_day ≡ true
    → ev.phase ≡ Phase.in_shift
    → guard_eval c user m ev r o s ≡ (ok (go ev r o), s)
unfolding guard_eval
guard_eval_open c user m ev r o s working phase = ground arith

-- The guards let an employee through who may check in.
guarded_by_open :
    (w : World) (c : Clock) (user : User) (m : Method) (k : ShiftEval → Action Response) (db : Db)
    (may : MayCheckIn w c user db)
    → let s : Session = record { durable = db; current = db } in
      guarded_by w c user m k s ≡ k (evaluate_shift w.zones may.office may.roster c.first) s
guarded_by_open w c user m k db may =
    let s : Session = record { durable = db; current = db } in
    let ev = evaluate_shift w.zones may.office may.roster c.first in
    bind-same (guard_shift w c user m) (λ s'. (ok (go ev may.roster may.office), s'))
      (λ g. elim g [ early response ↦ pure response | go ev' roster office ↦ k ev' ]) s
      (guard_shift_office w c user m s may.roster may.office may.assigned may.located
        ∙ guard_eval_open c user m ev may.roster may.office s may.working may.in_shift)

-- On a free day the end of an endpoint reports the row that it commits.
finish_free :
    (c : Clock) (user : User) (event : PresenceEvent) (ev : ShiftEval) (detail : LogDetail)
    (message : String) (s : Session)
    → is_free (day_of event.user_id ev.local_date s.current) ≡ true
    → let row =
        row_after event ev s.current.days.next_id (day_of event.user_id ev.local_date s.current) in
      ((finish c user event ev detail message s).0 ≡ ok (checked_in_payload row event.method))
      × (day_of event.user_id ev.local_date (finish c user event ev detail message s).1.durable
          ≡ some row)
unfolding finish log
finish_free c user event ev detail message s free =
    let after = day_of-apply_presence_event event ev event.user_id ev.local_date s.current in
    let row =
      row_after event ev s.current.days.next_id (day_of event.user_id ev.local_date s.current) in
    let kept : day_of event.user_id ev.local_date (apply_presence_event event ev s.current).1
        ≡ some row =
      ground (arith, after) in
    rw (result-apply_presence_event event ev s.current, free) (refl, kept)

-- The event of a WiFi check-in.
abbrev pub wifi_event : World → Clock → Request → User → Office → PresenceEvent
wifi_event w c req user matched = record {
  user_id = user.id;
  timestamp = c.second;
  method = wifi;
  source_ip = some (get_client_ip w.settings.trust_proxy w.addresses req);
  lat = none;
  lng = none;
  office_id = some matched.id;
}

-- An employee who may check in and whose address is one of an active office's is checked in: the answer
-- and the committed database have the row that the event makes of their day.
pub checkin_attempt_succeeds :
    (w : World) (c : Clock) (req : Request) (user : User) (db : Db) (matched : Office)
    (may : MayCheckIn w c user db)
    → find_office_by_ip db (get_client_ip w.settings.trust_proxy w.addresses req) ≡ some matched
    → let ev = evaluate_shift w.zones may.office may.roster c.first in
      let row =
        row_after
          (wifi_event w c req user matched)
          ev
          db.days.next_id
          (day_of user.id ev.local_date db) in
      ((request (checkin_attempt w c req user) db).0 ≡ ok (checked_in_payload row wifi))
      × (day_of user.id ev.local_date (request (checkin_attempt w c req user) db).1 ≡ some row)
unfolding checkin_attempt attempt_wifi
checkin_attempt_succeeds w c req user db matched may found =
    let ip = get_client_ip w.settings.trust_proxy w.addresses req in
    let ev = evaluate_shift w.zones may.office may.roster c.first in
    let opened =
      guarded_by_open w c user wifi
        (λ ev'. gets (λ db'. find_office_by_ip db' ip) >>= attempt_wifi c user ip ev') db may in
    let s : Session = record { durable = db; current = db } in
    let passed : checkin_attempt w c req user s
        ≡ finish c user (wifi_event w c req user matched) ev
            (record no_detail { source_ip = some ip; office_id = some matched.id }) "wifi check-in"
            s =
      opened ∙ ap (λ f. attempt_wifi c user ip ev f s) found in
    let (answer, kept) =
      finish_free c user (wifi_event w c req user matched) ev
        (record no_detail { source_ip = some ip; office_id = some matched.id }) "wifi check-in" s
        may.free in
    (
      ap (λ z. z.0) passed ∙ answer,
      ap (λ z. day_of user.id ev.local_date z.1.durable) passed ∙ kept,
    )
