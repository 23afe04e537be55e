-- ===== src/Attendance/Checkin.antt =====
-- app/routers/attendance.py: POST /checkin-attempt and POST /verify-location.
use office_attendance_backen.Base.{String, Option, none, some, if◌then◌else◌}
use office_attendance_backen.Model.{Float, Office, User, wifi, gps, AttemptResult}
use office_attendance_backen.World.{World, Clock}
use office_attendance_backen.Session.{
  Action, internal, pure, gets, or_raise, execute, modify, commit, ◌>>=◌, ◌>>◌,
}
use office_attendance_backen.Ip.{Request, get_client_ip}
use office_attendance_backen.Presence.{
  PresenceEvent, ShiftEval, find_office_by_ip, nearest_office, apply_presence_event,
}
use office_attendance_backen.Attendance.Types.{
  Response, need_location, low_accuracy, not_configured, outside_radius, already_checked_in,
  LogDetail, no_detail, log, checked_in_payload,
}
use office_attendance_backen.Attendance.Guard.{early, go, guard_shift}

-- The end of both endpoints: the upsert, then a log row and the payload if it checked in.
unfoldable pub finish :
    Clock → User → PresenceEvent → ShiftEval → LogDetail → String → Action Response
finish c user event ev detail message = do
  result ← execute (apply_presence_event event ev)
  (day, checked) ← or_raise internal result
  if checked
      then (do
        modify (log c.db_now user.id event.method AttemptResult.success detail message)
        commit
        pure (checked_in_payload day event.method))
      else (do commit; pure (already_checked_in day.status day.check_in day.method))

-- `checkin_attempt` behind the guards, with the office of the client's address.
unfoldable pub attempt_wifi : Clock → User → String → ShiftEval → Option Office → Action Response
attempt_wifi c user ip ev none = do
  modify (
      log c.db_now user.id wifi AttemptResult.ip_no_match (record no_detail { source_ip = some ip })
        "ip_no_match")
  commit
  pure need_location
attempt_wifi c user ip ev (some matched) =
    finish c user
      (record {
        user_id = user.id;
        timestamp = c.second;
        method = wifi;
        source_ip = some ip;
        lat = none;
        lng = none;
        office_id = some matched.id;
      })
      ev (record no_detail { source_ip = some ip; office_id = some matched.id }) "wifi check-in"

unfoldable pub checkin_attempt : World → Clock → Request → User → Action Response
checkin_attempt w c req user = do
  guarded ← guard_shift w c user wifi
  elim guarded [
    | early response ↦ pure response
    | go ev roster office ↦ do
      let ip = get_client_ip w.settings.trust_proxy w.addresses req
      matched ← gets (λ db. find_office_by_ip db ip)
      attempt_wifi c user ip ev matched
  ]

-- `LocationIn`
pub record LocationIn : Type 0 where
  pub latitude : Float
  pub longitude : Float
  pub accuracy : Float

-- `verify_location` behind the accuracy test, with what `nearest_office` found.
unfoldable pub attempt_gps :
    World → Clock → User → LocationIn → ShiftEval → Option (Office × Float) → Action Response
attempt_gps w c user p ev none = do
  modify (
      log c.db_now user.id gps AttemptResult.outside_radius
        (record no_detail {
          lat = some p.latitude;
          lng = some p.longitude;
          accuracy = some p.accuracy;
        })
        "no office coords")
  commit
  pure not_configured
attempt_gps w c user p ev (some (hit, distance)) =
    let detail : LogDetail = record {
      source_ip = none;
      office_id = some hit.id;
      lat = some p.latitude;
      lng = some p.longitude;
      accuracy = some p.accuracy;
      distance = some distance;
    } in
    if w.floats.gt_int distance hit.radius_meters
    then (do
      modify (log c.db_now user.id gps AttemptResult.outside_radius detail "outside_radius")
      commit
      pure (outside_radius (w.floats.round distance)))
    else finish c user
        (record {
          user_id = user.id;
          timestamp = c.second;
          method = gps;
          source_ip = none;
          lat = some p.latitude;
          lng = some p.longitude;
          office_id = some hit.id;
        })
        ev detail "gps check-in"

unfoldable pub verify_location : World → Clock → LocationIn → User → Action Response
verify_location w c p user = do
  guarded ← guard_shift w c user gps
  elim guarded [
    | early response ↦ pure response
    | go ev roster office ↦
        if w.floats.gt_int p.accuracy w.settings.max_gps_accuracy_m
        then (do
          modify (
              log c.db_now user.id gps AttemptResult.low_accuracy
                (record no_detail {
                  lat = some p.latitude;
                  lng = some p.longitude;
                  accuracy = some p.accuracy;
                })
                "low_accuracy")
          commit
          pure (low_accuracy p.accuracy))
        else (do
          found ← gets (λ db. nearest_office w.floats db p.latitude p.longitude)
          attempt_gps w c user p ev found)
  ]
