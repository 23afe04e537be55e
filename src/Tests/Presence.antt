-- ===== src/Tests/Presence.antt =====
-- Check-ins: app/presence.py and the endpoints of app/routers/attendance.py.
use office_attendance_backen.Base.{
  ℕ, ◌+◌, ◌≤◌, ◌<◌, ◌≡◌, ◌↔◌, ◌⊎◌, refl, true, none, some, List, [], ◌∷◌, arith, All,
}
use office_attendance_backen.Time.{minutes}
use office_attendance_backen.Model.{
  AttendanceDay, DayStatus, Method, Office, Verification, wifi, gps, on_conflict,
}
use office_attendance_backen.Ip.{get_client_ip}
use office_attendance_backen.Presence.{
  PresenceEvent, ShiftEval, Phase, evaluate_shift, classify, apply_presence_event,
  find_office_by_ip, nearest_office, office_distance, write_check_in, phase_at, haversine_meters,
  upsert_day,
}
use office_attendance_backen.Presence.Shift.{phase-evaluate_shift, classify_lateness}
use office_attendance_backen.Presence.Nearest.{IsFrom, IsStrict, NoNearer, nearest_office_lem}
use office_attendance_backen.Presence.Writer.{
  day_of, row_after, day_of-apply_presence_event, result-apply_presence_event,
}
use office_attendance_backen.Presence.Taps.{Tap, wins, wins_once, after_taps, after_taps-keeps}
use office_attendance_backen.Attendance.{
  guard_shift, guard_roster, guard_eval, finish, attempt_wifi, attempt_gps, checkin_attempt,
  checked_in_payload, Response, checked_in, verify_location, LocationIn,
}
use office_attendance_backen.Attendance.Safety.{
  MayCheckIn, IsOrdered, AtMost, checkin_attempt_safe, verify_location_safe,
}
use office_attendance_backen.Tests.Data.{
  karachi, whole_floats, world, today, at_minute, clock_at, lahore, day_shift, ayesha, office_db,
  fresh_db, from_office,
}

abbrev tap_at : ℕ → PresenceEvent
tap_at n = record {
  user_id = 2;
  timestamp = at_minute n;
  method = wifi;
  source_ip = some "203.0.113.5";
  lat = none;
  lng = none;
  office_id = some 1;
}

abbrev shift_at : ℕ → ShiftEval
shift_at n = evaluate_shift karachi lahore day_shift (at_minute n)

abbrev two_taps : List Tap
two_taps = (tap_at 550, shift_at 550) ∷ (tap_at 551, shift_at 551) ∷ []

wins_once_example : wins 2 today two_taps fresh_db ≡ 1
unfolding evaluate_shift
wins_once_example = wins_once 2 today two_taps fresh_db

abbrev first_row : AttendanceDay
first_row = row_after (tap_at 550) (shift_at 550) 7 none

after_taps-keeps_example :
    day_of 2 today (after_taps two_taps (office_db (first_row ∷ []))) ≡ some first_row
unfolding evaluate_shift write_check_in
after_taps-keeps_example =
    after_taps-keeps 2 today two_taps (office_db (first_row ∷ [])) first_row refl refl

day_of-apply_presence_event_example :
    day_of 2 today (apply_presence_event (tap_at 550) (shift_at 550) fresh_db).1 ≡ some first_row
unfolding evaluate_shift
day_of-apply_presence_event_example =
    day_of-apply_presence_event (tap_at 550) (shift_at 550) 2 today fresh_db

result-apply_presence_event_example :
    (apply_presence_event (tap_at 550) (shift_at 550) fresh_db).0 ≡ some (first_row, true)
unfolding evaluate_shift
result-apply_presence_event_example =
    result-apply_presence_event (tap_at 550) (shift_at 550) fresh_db

phase-evaluate_shift_example :
    ((shift_at 550).phase ≡ Phase.in_shift)
    ↔ ((shift_at 550).is_working_day ≡ true)
      × ((shift_at 550).shift_start ≤ at_minute 550)
      × (at_minute 550 ≤ (shift_at 550).shift_end)
phase-evaluate_shift_example =
    phase-evaluate_shift karachi lahore day_shift (at_minute 550) Phase.in_shift

abbrev late_at : ℕ → DayStatus × ℕ
late_at n = classify (shift_at 540) (at_minute n)

classify_lateness_example :
    ((late_at 560).0 ≡ DayStatus.present)
      × ((late_at 560).1 ≡ 0)
      × (at_minute 560 ≤ (shift_at 540).shift_start + minutes 15)
    ⊎ ((late_at 560).0 ≡ DayStatus.late)
      × ((shift_at 540).shift_start + minutes 15 < at_minute 560)
      × (15 ≤ (late_at 560).1)
      × ((shift_at 540).shift_start + minutes (late_at 560).1 ≤ at_minute 560)
      × (at_minute 560 < (shift_at 540).shift_start + minutes ((late_at 560).1 + 1))
unfolding evaluate_shift
classify_lateness_example =
    classify_lateness karachi lahore day_shift (at_minute 540) (at_minute 560) refl (ground arith)

whole_floats-IsStrict : IsStrict whole_floats
whole_floats-IsStrict = record { irrefl = λ a. ground arith; trans = λ a b c h k. ground arith }

nearest_office_lem_example :
    let r = nearest_office whole_floats fresh_db 31 74 in
    All (λ o. NoNearer whole_floats r (office_distance whole_floats 31 74 o)) (lahore ∷ [])
    × IsFrom whole_floats 31 74 (lahore ∷ []) r
nearest_office_lem_example = nearest_office_lem whole_floats fresh_db 31 74 whole_floats-IsStrict

abbrev arrival : Method → Verification → Response
arrival m v = checked_in m DayStatus.present (some (at_minute 550)) 0 (some v)

checkin_attempt_safe_example :
    MayCheckIn world (clock_at 550) ayesha fresh_db
    × (matched : Office) × (find_office_by_ip fresh_db "203.0.113.5" ≡ some matched)
unfolding checkin_attempt guard_shift guard_roster guard_eval attempt_wifi finish
    apply_presence_event evaluate_shift phase_at find_office_by_ip get_client_ip upsert_day
    on_conflict checked_in_payload write_check_in
checkin_attempt_safe_example =
    checkin_attempt_safe world (clock_at 550) from_office ayesha fresh_db
      (arrival wifi Verification.verified) refl refl

abbrev at_desk : LocationIn
at_desk = record { latitude = 31; longitude = 74; accuracy = 20 }

whole_floats-IsOrdered : IsOrdered whole_floats
whole_floats-IsOrdered x n number h = ground arith

verify_location_safe_example :
    MayCheckIn world (clock_at 550) ayesha fresh_db
    × AtMost whole_floats 20 100
    × (hit : Office) × (distance : ℕ) × (nearest_office whole_floats fresh_db 31 74
        ≡ some (hit, distance))
    × AtMost whole_floats distance hit.radius_meters
unfolding verify_location guard_shift guard_roster guard_eval attempt_gps finish
    apply_presence_event evaluate_shift phase_at nearest_office haversine_meters upsert_day
    on_conflict checked_in_payload write_check_in
verify_location_safe_example =
    verify_location_safe world (clock_at 550) at_desk ayesha fresh_db
      (arrival gps Verification.gps_pending) refl refl whole_floats-IsOrdered
