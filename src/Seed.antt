-- ===== src/Seed.antt =====
-- seed.py: the admin, the office, the rosters and the demo employees of a new installation.
pub mod Sole
pub mod Steps
pub mod Employees
pub mod RosterLoop
pub mod EmployeeLoop
pub mod Again
use office_attendance_backen.Base.{
  ℕ, ◌*◌, ltb, String, str_eq, Bool, true, false, Option, none, some, List, [], ◌∷◌, find,
  count_where, if◌then◌else◌,
}
use office_attendance_backen.Time.{TimeOfDay, minutes}
use office_attendance_backen.Model.{
  Office, Roster, User, Db, Role, UserStatus, user_status_eq, add_row, update_row,
}
use office_attendance_backen.World.{World, Clock}
use office_attendance_backen.Session.{
  Action, Result, ok, err, internal, request, pure, gets, or_raise, raise_if, modify, commit, ◌>>=◌,
  ◌>>◌,
}
use office_attendance_backen.Auth.{user_by_email}
use office_attendance_backen.Admin.{ensure_admin_user}

abbrev pub seed_password : String
seed_password = "test1234"

abbrev pub office_name : String
office_name = "Head Office"

pub record RosterSpec : Type 0 where
  pub name : String
  pub start_time : TimeOfDay
  pub end_time : TimeOfDay
  pub is_default : Bool

-- `time(h, 0)`
abbrev at_hour : ℕ → TimeOfDay
at_hour h = minutes (h * 60)

-- `ROSTERS`
abbrev pub roster_specs : List RosterSpec
roster_specs =
    record { name = "Morning"; start_time = at_hour 10; end_time = at_hour 19; is_default = true }
    ∷ record { name = "Mid"; start_time = at_hour 11; end_time = at_hour 20; is_default = false }
    ∷ record { name = "Late"; start_time = at_hour 12; end_time = at_hour 21; is_default = false }
    ∷ []

pub record EmployeeSpec : Type 0 where
  pub name : String
  pub email : String
  pub phone : String
  pub department : String
  pub job_title : String
  pub city : String
  pub status : UserStatus
  pub roster : String

-- `EMPLOYEES`
abbrev pub employee_specs : List EmployeeSpec
employee_specs =
    record {
      name = "Aisha Khan";
      email = "aisha@example.com";
      phone = "+92 300 1111111";
      department = "Engineering";
      job_title = "Senior Developer";
      city = "Lahore";
      status = UserStatus.active;
      roster = "Morning";
    }
    ∷ record {
      name = "Bilal Ahmed";
      email = "bilal@example.com";
      phone = "+92 300 2222222";
      department = "Support";
      job_title = "Support Lead";
      city = "Karachi";
      status = UserStatus.active;
      roster = "Late";
    }
    ∷ record {
      name = "Sana Malik";
      email = "sana@example.com";
      phone = "+92 300 3333333";
      department = "Design";
      job_title = "Product Designer";
      city = "Islamabad";
      status = UserStatus.pending;
      roster = "Mid";
    }
    ∷ []

-- `scalar_one_or_none()` raises MultipleResultsFound if there are several rows.
abbrev pub sole {ℓ} : {A : Type ℓ} → (Db → List A) → (A → Bool) → Action (Option A)
sole rows p s = (
  if ltb 1 (count_where p (rows s.current)) then err internal else ok (find p (rows s.current)),
  s,
)

-- The tests of the three queries.
abbrev pub is_head : Office → Bool
is_head o = str_eq o.name office_name

abbrev pub is_named : String → Roster → Bool
is_named name r = str_eq r.name name

abbrev pub is_of : String → User → Bool
is_of email u = str_eq u.email email

abbrev pub office_row : Clock → ℕ → Office
office_row c id = record {
  id = id;
  name = office_name;
  public_ips = [];
  latitude = none;
  longitude = none;
  radius_meters = 80;
  timezone = "Asia/Karachi";
  active = true;
  created_at = c.db_now;
}

unfoldable pub add_office : Clock → Option Office → Action Office
add_office c (some office) = pure office
add_office c none = do
  id ← gets (λ db. db.offices.next_id)
  modify (λ db. record db { offices = add_row (office_row c) db.offices })
  pure (office_row c id)

unfoldable pub ensure_office : Clock → Action Office
unfolding add_office
ensure_office c = do found ← sole (λ db. db.offices.rows) is_head; add_office c found

abbrev pub roster_row : Clock → ℕ → RosterSpec → ℕ → Roster
roster_row c office_id spec id = record {
  id = id;
  name = spec.name;
  start_time = spec.start_time;
  end_time = spec.end_time;
  grace_minutes = 15;
  working_days = 0 ∷ 1 ∷ 2 ∷ 3 ∷ 4 ∷ [];
  is_default = spec.is_default;
  office_id = office_id;
  active = true;
  created_at = c.db_now;
}

unfoldable pub add_roster : Clock → ℕ → RosterSpec → Option Roster → Action Roster
add_roster c office_id spec (some roster) = pure roster
add_roster c office_id spec none = do
  id ← gets (λ db. db.rosters.next_id)
  modify (λ db. record db { rosters = add_row (roster_row c office_id spec) db.rosters })
  pure (roster_row c office_id spec id)

-- The body of the loop of `ensure_rosters`.
unfoldable pub ensure_roster : Clock → ℕ → RosterSpec → Action Roster
unfolding add_roster
ensure_roster c office_id spec = do
  found ← sole (λ db. db.rosters.rows) (is_named spec.name)
  add_roster c office_id spec found

-- `by_name`
abbrev pub ByName : Type 0
ByName = List (String × Roster)

unfoldable pub ensure_rosters : Clock → ℕ → List RosterSpec → Action ByName
unfolding ensure_roster
ensure_rosters c office_id [] = pure []
ensure_rosters c office_id (spec ∷ specs) = do
  roster ← ensure_roster c office_id spec
  rest ← ensure_rosters c office_id specs
  pure ((spec.name, roster) ∷ rest)

-- `rosters[name]`
abbrev pub roster_named : String → ByName → Option Roster
roster_named name [] = none
roster_named name ((k, r) ∷ rest) =
    let below = roster_named name rest in if str_eq k name then some r else below

abbrev pub assigned_of : EmployeeSpec → Roster → Option ℕ
assigned_of spec roster =
    if user_status_eq spec.status UserStatus.active then some roster.id else none

abbrev pub employee_row : World → Clock → EmployeeSpec → Roster → ℕ → User
employee_row w c spec roster id = record {
  id = id;
  name = spec.name;
  email = spec.email;
  phone = some spec.phone;
  password_hash = w.secrets.hash_password seed_password;
  role = Role.employee;
  status = spec.status;
  department = some spec.department;
  job_title = some spec.job_title;
  city = some spec.city;
  requested_roster_id = some roster.id;
  assigned_roster_id = assigned_of spec roster;
  admin_feedback = none;
  approved_by = none;
  approved_at = none;
  created_at = c.db_now;
}

abbrev pub reasserted : EmployeeSpec → Roster → User → User
reasserted spec roster u = record u {
  status = spec.status;
  requested_roster_id = some roster.id;
  assigned_roster_id = assigned_of spec roster;
}

-- The row that was found by its email, which is unique, is the one that is written.
unfoldable pub write_employee :
    World → Clock → EmployeeSpec → Roster → Option User → Action (Unit {0})
write_employee w c spec roster none =
    modify (λ db. record db { users = add_row (employee_row w c spec roster) db.users })
write_employee w c spec roster (some user) =
    modify
      (λ db. record db { users = update_row (is_of spec.email) (reasserted spec roster) db.users })

-- The body of the loop of `ensure_employees`.
unfoldable pub ensure_employee : World → Clock → ByName → EmployeeSpec → Action (Unit {0})
unfolding write_employee
ensure_employee w c rosters spec = do
  found ← sole (λ db. db.users.rows) (is_of spec.email)
  roster ← or_raise internal (roster_named spec.roster rosters)
  write_employee w c spec roster found

unfoldable pub ensure_employees : World → Clock → ByName → List EmployeeSpec → Action (Unit {0})
unfolding ensure_employee
ensure_employees w c rosters [] = pure tt
ensure_employees w c rosters (spec ∷ specs) = do
  ensure_employee w c rosters spec
  ensure_employees w c rosters specs

-- The second session of `main`.
unfoldable pub seed_data : World → Clock → Action (Unit {0})
unfolding ensure_office ensure_rosters ensure_employees
seed_data w c = do
  office ← ensure_office c
  rosters ← ensure_rosters c office.id roster_specs
  ensure_employees w c rosters employee_specs
  commit

-- `main`
unfoldable pub main : World → Clock → Db → Result (Unit {0}) × Db
unfolding ensure_admin_user seed_data
main w c db =
    let (r, db') = request (ensure_admin_user w c) db in
    elim r [ ok a ↦ request (seed_data w c) db' | err e ↦ (err e, db') ]
