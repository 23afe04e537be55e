-- ===== src/Tests/Attendance.antt =====
-- The endpoints of app/routers/attendance.py at concrete inputs.
use office_attendance_backen.Base.{◌≡◌, refl, String, true, none, some, [], ◌∷◌}
use office_attendance_backen.Model.{AttendanceDay, wifi}
use office_attendance_backen.Session.{request, ok}
use Prim.Native.String.{◌++◌ as ◌+++◌}
use office_attendance_backen.Ip.{get_client_ip, last_part, nonblank, split_comma, strip}
use office_attendance_backen.Ip.Proxy.{get_client_ip_forged}
use office_attendance_backen.Presence.{evaluate_shift, phase_at, find_office_by_ip}
use office_attendance_backen.Presence.Writer.{day_of, row_after}
use office_attendance_backen.Attendance.{
  checkin_attempt, checked_in_payload, HeartbeatIn, heartbeat,
}
use office_attendance_backen.Attendance.Safety.{MayCheckIn}
use office_attendance_backen.Attendance.Success.{wifi_event, checkin_attempt_succeeds}
use office_attendance_backen.Attendance.Evidence.{Outcome, heartbeat_evidence}
use office_attendance_backen.Tests.Data.{
  karachi, world, today, at_minute, clock_at, lahore, day_shift, ayesha, laptop, fresh_db,
  office_db, from_office,
}

may_check_in : MayCheckIn world (clock_at 550) ayesha fresh_db
unfolding evaluate_shift phase_at
may_check_in = record {
  roster = day_shift;
  office = lahore;
  assigned = refl;
  located = refl;
  working = refl;
  in_shift = refl;
  free = refl;
}

abbrev arrival_row : AttendanceDay
arrival_row =
    row_after (wifi_event world (clock_at 550) from_office ayesha lahore)
      (evaluate_shift karachi lahore day_shift (at_minute 550)) 7 none

checkin_attempt_succeeds_example :
    ((request (checkin_attempt world (clock_at 550) from_office ayesha) fresh_db).0
      ≡ ok (checked_in_payload arrival_row wifi))
    × (day_of 2 today (request (checkin_attempt world (clock_at 550) from_office ayesha) fresh_db).1
        ≡ some arrival_row)
unfolding evaluate_shift may_check_in find_office_by_ip get_client_ip
checkin_attempt_succeeds_example =
    checkin_attempt_succeeds world (clock_at 550) from_office ayesha fresh_db lahore may_check_in
      refl

abbrev no_location : HeartbeatIn
no_location = record { latitude = none; longitude = none; accuracy = none }

-- Ayesha's device beats from the office an hour after she has come.
heartbeat_evidence_example :
    let db = office_db (arrival_row ∷ []) in
    Outcome world
      (clock_at 600)
      from_office
      no_location
      ayesha
      db
      (request (heartbeat world (clock_at 600) from_office no_location ayesha laptop) db).1.days
heartbeat_evidence_example =
    heartbeat_evidence world (clock_at 600) from_office no_location ayesha laptop
      (office_db (arrival_row ∷ []))

-- A client that writes the office's address into the header is seen at its own.
get_client_ip_forged_example :
    get_client_ip true world.addresses (record from_office {
      x_forwarded_for = some ("203.0.113.5" +++ (String.◌∷◌ "," " 198.51.100.7"));
    })
    ≡ get_client_ip true world.addresses
        (record from_office { x_forwarded_for = some " 198.51.100.7" })
unfolding last_part nonblank split_comma strip
get_client_ip_forged_example =
    get_client_ip_forged true world.addresses from_office "203.0.113.5" " 198.51.100.7" refl
