-- ===== src/Auth.antt =====
-- app/routers/auth.py: signup, login and the access token's refresh.
pub mod Access
pub mod Tokens
pub mod Me
use office_attendance_backen.Base.{
  ℕ, ◌==◌, ◌&&◌, String, str_eq, Bool, true, false, not, Option, none, some, find, is_none,
  if◌then◌else◌,
}
use office_attendance_backen.Model.{
  Roster, User, Db, Role, UserStatus, is_employee, user_status_eq, add_row, update_row,
}
use office_attendance_backen.World.{World, Clock}
use office_attendance_backen.Session.{
  Action, bad_request, unauthorized, forbidden, unprocessable, internal, pure, raise, gets,
  or_raise, raise_if, modify, commit, ◌>>=◌, ◌>>◌,
}
use office_attendance_backen.Ip.{truthy}
use office_attendance_backen.Security.{
  create_access_token, create_refresh_token, decode_token, has_type, subject,
}
use office_attendance_backen.Deps.{log_action, user_by_int}
use office_attendance_backen.Devices.{register_device, find_active_device}

pub record SignupRequest : Type 0 where
  pub name : String
  pub email : String
  pub phone : String
  pub password : String
  pub requested_roster_id : Option ℕ
  pub department : String
  pub job_title : String
  pub city : String

abbrev pub active_roster : ℕ → Db → Option Roster
active_roster id db = elim (find (λ r. r.id == id) db.rosters.rows) [
  | none ↦ none
  | some r ↦ if r.active then some r else none
]

-- `_resolve_requested_roster`
unfoldable pub resolve_requested_roster : Option ℕ → Action Roster
resolve_requested_roster none = do
  found ← gets (λ db. find (λ r. r.is_default && r.active) db.rosters.rows)
  or_raise unprocessable found
resolve_requested_roster (some id) = do
  found ← gets (active_roster id)
  or_raise unprocessable found

abbrev pub user_by_email : String → Db → Option User
user_by_email email db = find (λ u. str_eq u.email email) db.users.rows

abbrev pub set_user : ℕ → (User → User) → Db → Db
set_user id f db = record db { users = update_row (λ u. u.id == id) f db.users }

-- The new row of a signup, or the old row of a rejected account, after the form is written to it.
abbrev pub applied : World → SignupRequest → ℕ → User → User
applied w p roster_id u = record u {
  name = p.name;
  phone = some p.phone;
  password_hash = w.secrets.hash_password p.password;
  department = some p.department;
  job_title = some p.job_title;
  city = some p.city;
  requested_roster_id = some roster_id;
  assigned_roster_id = none;
  status = UserStatus.pending;
  admin_feedback = none;
  approved_by = none;
  approved_at = none;
}

unfoldable pub new_user : World → Clock → SignupRequest → ℕ → ℕ → User
new_user w c p roster_id id = record {
  id = id;
  name = p.name;
  email = w.secrets.lower p.email;
  phone = some p.phone;
  password_hash = w.secrets.hash_password p.password;
  role = Role.employee;
  status = UserStatus.pending;
  department = some p.department;
  job_title = some p.job_title;
  city = some p.city;
  requested_roster_id = some roster_id;
  assigned_roster_id = none;
  admin_feedback = none;
  approved_by = none;
  approved_at = none;
  created_at = c.db_now;
}

-- `signup` once the roster is known, with the account that has the email.
unfoldable pub signup_with :
    World → Clock → SignupRequest → Roster → Option User → Action (Unit {0})
unfolding log_action new_user
signup_with w c p roster (some existing) = do
  raise_if (not (user_status_eq existing.status UserStatus.rejected)) bad_request
  modify (set_user existing.id (applied w p roster.id))
  modify (log_action c.db_now (some existing.id) "signup_resubmitted" (some roster.id))
  commit
signup_with w c p roster none = do
  id ← gets (λ db. db.users.next_id)
  modify (λ db. record db { users = add_row (new_user w c p roster.id) db.users })
  modify (log_action c.db_now (some id) "signup" (some roster.id))
  commit

unfoldable pub signup : World → Clock → SignupRequest → Action (Unit {0})
unfolding resolve_requested_roster signup_with
signup w c p = do
  roster ← resolve_requested_roster p.requested_roster_id
  existing ← gets (user_by_email (w.secrets.lower p.email))
  signup_with w c p roster existing

pub record LoginRequest : Type 0 where
  pub email : String
  pub password : String
  pub x_device_token : Option String
  pub user_agent : Option String

pub record LoginResponse : Type 0 where
  pub access_token : String
  pub refresh_token : String
  pub device_token : Option String
  pub user : User

-- The user of the email, if the password is theirs.
abbrev pub verified_user : World → LoginRequest → Db → Option User
verified_user w p db = elim (user_by_email (w.secrets.lower p.email) db) [
  | none ↦ none
  | some u ↦ if w.secrets.verify_password p.password u.password_hash then some u else none
]

-- The device that the header names, if it is an active one of the user.
abbrev pub known_device : World → User → Option String → Db → Bool
known_device w user header db = elim (truthy header) [
  | none ↦ false
  | some token ↦ not (is_none (find_active_device w user token db))
]

-- An employee on an unknown device gets a new one.
unfoldable pub login_device : World → Clock → LoginRequest → String → User → Action (Option String)
unfolding find_active_device register_device
login_device w c p raw_token user = do
  known ← gets (known_device w user p.x_device_token)
  if is_employee user.role && not known
      then (do token ← register_device w c user p.user_agent raw_token; pure (some token))
      else pure none

unfoldable pub login : World → Clock → LoginRequest → String → Action LoginResponse
unfolding login_device
login w c p raw_token = do
  found ← gets (verified_user w p)
  user ← or_raise unauthorized found
  raise_if (not (user_status_eq user.status UserStatus.active)) forbidden
  device_token ← login_device w c p raw_token user
  commit
  pure (record {
    access_token = create_access_token w c.system user.id user.role;
    refresh_token = create_refresh_token w c.system user.id;
    device_token = device_token;
    user = user;
  })

unfoldable pub refresh : World → Clock → String → Action String
refresh w c token = do
  claims ← or_raise unauthorized (decode_token w c.system token)
  raise_if (not (has_type "refresh" claims)) unauthorized
  id ← or_raise internal (subject claims)
  found ← gets (user_by_int id)
  user ← or_raise unauthorized found
  raise_if (not (user_status_eq user.status UserStatus.active)) unauthorized
  pure (create_access_token w c.system user.id user.role)
