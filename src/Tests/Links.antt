-- ===== src/Tests/Links.antt =====
-- Requests on accounts, rosters and offices, and the nightly job after them.
use office_attendance_backen.Base.{◌≡◌, refl, true, false, none, some, List, [], ◌∷◌, count_where}
use office_attendance_backen.Time.{minutes}
use office_attendance_backen.Auth.{SignupRequest}
use office_attendance_backen.Admin.{Decision, UserDecisionIn}
use office_attendance_backen.Rosters.{RosterCreate}
use office_attendance_backen.Offices.{OfficeCreate}
use office_attendance_backen.Accounts.Calls.{sign_up, decide_on}
use office_attendance_backen.Rosters.Calls.{RosterCall}
use office_attendance_backen.Offices.Calls.{OfficeCall}
use office_attendance_backen.Nightly.{Stats, is_active_employee}
use office_attendance_backen.Nightly.Totals.{total}
use office_attendance_backen.Scheduler.{done, job_nightly}
use office_attendance_backen.Links.{IsLinked}
use office_attendance_backen.Links.Calls.{
  Change, on_account, on_roster, on_office, apply_all, apply_all-IsLinked,
}
use office_attendance_backen.Tests.Offices.{fresh_offices}
use office_attendance_backen.Links.Nightly.{job_nightly_complete}
use office_attendance_backen.Tests.Data.{world, clock_at, at_minute, boss, fresh_db}

abbrev annex : OfficeCreate
annex = record {
  name = "Annex";
  public_ips = "198.51.100.9" ∷ [];
  latitude = none;
  longitude = none;
  radius_meters = 100;
  timezone = "Asia/Karachi";
  active = true;
}

abbrev late_shift : RosterCreate
late_shift = record {
  name = "Late";
  start_time = minutes 780;
  end_time = minutes 1320;
  grace_minutes = 15;
  working_days = 0 ∷ 3 ∷ [];
  is_default = false;
  office_id = 2;
  active = true;
}

abbrev recruit : SignupRequest
recruit = record {
  name = "Danish";
  email = "danish@example.com";
  phone = "0301";
  password = "secret";
  requested_roster_id = some 2;
  department = "IT";
  job_title = "Engineer";
  city = "Lahore";
}

abbrev acceptance : UserDecisionIn
acceptance = record { action = Decision.approve; assigned_roster_id = some 2; feedback = none }

-- A new office, a shift there and an employee on it; then two deletions that are refused.
abbrev expansion : List Change
expansion =
    on_office (OfficeCall.create (clock_at 500) boss annex)
    ∷ on_roster (RosterCall.create (clock_at 510) boss late_shift)
    ∷ on_account (sign_up (clock_at 520) recruit)
    ∷ on_account (decide_on (clock_at 530) boss 3 acceptance)
    ∷ on_roster (RosterCall.delete (clock_at 540) boss 2)
    ∷ on_office (OfficeCall.delete (clock_at 550) boss 2)
    ∷ []

fresh_links : IsLinked fresh_db
fresh_links = (((tt, tt), ((refl, refl), tt)), (refl, tt))

apply_all-IsLinked_example : IsLinked (apply_all world expansion fresh_db)
apply_all-IsLinked_example = apply_all-IsLinked world expansion fresh_db fresh_links

job_nightly_complete_example :
    (stats : Stats) × ((job_nightly world []
        (at_minute 1420)
        (apply_all world expansion fresh_db)).0
      ≡ done stats)
    × (total stats ≡ count_where is_active_employee (apply_all world expansion fresh_db).users.rows)
job_nightly_complete_example =
    job_nightly_complete world expansion [] (at_minute 1420) fresh_db (refl, (refl, tt)) fresh_links
      fresh_offices refl
