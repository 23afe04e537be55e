-- ===== src/Tests/Offices.antt =====
-- Requests on offices: app/routers/offices.py.
use office_attendance_backen.Base.{◌≡◌, refl, none, some, List, [], ◌∷◌, inr, true, false}
use office_attendance_backen.Model.{DayStatus, Verification, wifi, on_conflict}
use office_attendance_backen.Ip.{normalize_ip, is_non_public_ip, get_client_ip, strip}
use office_attendance_backen.Patch.{unset, given}
use office_attendance_backen.Offices.{
  OfficeCreate, OfficeUpdate, create_office, update_office, add_public_ip, add_current_ip,
  remove_public_ip, get_office, add_ip, validate_ip, canonical_ips,
}
use office_attendance_backen.Offices.Addresses.{OfficesOk}
use office_attendance_backen.Offices.Calls.{
  OfficeCall, create, update, add, add_current, remove, run_calls, run_call, run_calls-OfficesOk,
}
use office_attendance_backen.Offices.Network.{checkin_attempt_public}
use office_attendance_backen.Deps.{log_action}
use office_attendance_backen.Presence.{
  apply_presence_event, evaluate_shift, phase_at, find_office_by_ip, upsert_day, write_check_in,
}
use office_attendance_backen.Attendance.{
  checkin_attempt, guard_shift, guard_roster, guard_eval, attempt_wifi, finish, checked_in_payload,
  checked_in,
}
use office_attendance_backen.Tests.Data.{
  world, clock_at, at_minute, boss, ayesha, fresh_db, from_office,
}

abbrev branch : OfficeCreate
branch = record {
  name = "Branch";
  public_ips = "198.51.100.7" ∷ "198.51.100.7" ∷ [];
  latitude = none;
  longitude = none;
  radius_meters = 100;
  timezone = "Asia/Karachi";
  active = true;
}

abbrev rename : OfficeUpdate
rename = record {
  name = given "Old branch";
  latitude = unset;
  longitude = unset;
  radius_meters = unset;
  timezone = unset;
  active = unset;
}

abbrev office_changes : List OfficeCall
office_changes =
    create (clock_at 500) boss branch
    ∷ update (clock_at 510) boss 2 rename
    ∷ add (clock_at 520) boss 2 "198.51.100.8"
    ∷ add_current (clock_at 530) boss 1 from_office
    ∷ remove (clock_at 540) boss 2 "198.51.100.7"
    ∷ []

pub fresh_offices : OfficesOk world fresh_db
unfolding is_non_public_ip normalize_ip strip
fresh_offices = ((refl, (((("203.0.113.5", refl), inr refl), tt), (refl, tt))), tt)

run_calls-OfficesOk_example : OfficesOk world (run_calls world office_changes fresh_db)
run_calls-OfficesOk_example = run_calls-OfficesOk world office_changes fresh_db fresh_offices

checkin_attempt_public_example :
    is_non_public_ip world.addresses
      (get_client_ip world.settings.trust_proxy world.addresses from_office)
    ≡ false
unfolding run_calls run_call create_office update_office add_public_ip add_current_ip
    remove_public_ip get_office add_ip validate_ip canonical_ips normalize_ip strip is_non_public_ip
    log_action checkin_attempt guard_shift guard_roster guard_eval attempt_wifi finish
    apply_presence_event evaluate_shift phase_at find_office_by_ip get_client_ip upsert_day
    on_conflict checked_in_payload write_check_in
checkin_attempt_public_example =
    checkin_attempt_public world office_changes fresh_db (clock_at 550) from_office ayesha
      (checked_in wifi DayStatus.present (some (at_minute 550)) 0 (some Verification.verified))
      fresh_offices refl refl refl
