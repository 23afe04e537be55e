-- ===== src/Tests/Rosters.antt =====
-- Requests on rosters: app/routers/rosters.py.
use office_attendance_backen.Base.{refl, true, List, [], ◌∷◌, inr, arith}
use office_attendance_backen.Time.{minutes}
use office_attendance_backen.Rosters.{RosterCreate, RosterUpdate}
use office_attendance_backen.Patch.{unset, given}
use office_attendance_backen.Rosters.Defaults.{RostersOk}
use office_attendance_backen.Rosters.Calls.{
  RosterCall, create, update, delete, run_calls, run_calls-RostersOk,
}
use office_attendance_backen.Tests.Data.{clock_at, boss, fresh_db}

abbrev evening : RosterCreate
evening = record {
  name = "Evening";
  start_time = minutes 780;
  end_time = minutes 1320;
  grace_minutes = 15;
  working_days = 0 ∷ 1 ∷ 2 ∷ [];
  is_default = true;
  office_id = 1;
  active = true;
}

abbrev make_default : RosterUpdate
make_default = record {
  name = unset;
  start_time = unset;
  end_time = given (minutes 1020);
  grace_minutes = unset;
  working_days = unset;
  is_default = given true;
  office_id = unset;
  active = unset;
}

abbrev changes : List RosterCall
changes =
    create (clock_at 500) boss evening
    ∷ update (clock_at 510) boss 1 make_default
    ∷ delete (clock_at 520) boss 2
    ∷ []

run_calls-RostersOk_example : RostersOk (run_calls changes fresh_db)
run_calls-RostersOk_example =
    run_calls-RostersOk changes fresh_db (1, ((ground arith, inr refl), tt))
