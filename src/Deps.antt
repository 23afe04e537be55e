-- ===== src/Deps.antt =====
-- app/deps.py: who a request comes from, and what they may do. Also app/audit.py.
pub mod Access
use office_attendance_backen.Base.{
  ℕ, ◌==◌, ◌&&◌, ◌||◌, String, str_eq, Bool, true, not, Option, none, some, find, if◌then◌else◌,
}
use office_attendance_backen.Time.{Instant}
use office_attendance_backen.Model.{
  User, Device, Db, UserStatus, is_admin, is_employee, is_active_device, user_status_eq, add_row,
}
use office_attendance_backen.World.{World, Claims, Clock}
use office_attendance_backen.Numerals.{ℤ, pos, negsuc}
use office_attendance_backen.Security.{decode_token, has_type, subject}
use office_attendance_backen.Session.{
  Action, unauthorized, forbidden, not_found, internal, pure, raise, gets, or_raise, raise_if,
  ◌>>=◌, ◌>>◌,
}
use office_attendance_backen.Ip.{truthy}

-- audit.py `log_action`, with the row that the `detail` names.
unfoldable pub log_action : Instant → Option ℕ → String → Option ℕ → Db → Db
log_action ts actor action subject db = record db {
  audit_logs =
      add_row
        (λ id. record {
          id = id;
          actor_user_id = actor;
          action = action;
          subject = subject;
          ts = ts;
        })
        db.audit_logs;
}

abbrev pub user_by_id : ℕ → Db → Option User
user_by_id id db = find (λ u. u.id == id) db.users.rows

-- `db.get(User, n)`
abbrev pub user_by_int : ℤ → Db → Option User
user_by_int (pos id) db = user_by_id id db
user_by_int (negsuc n) db = none

-- `decode_token`, or `none` with no credentials or on a JWTError.
unfoldable pub claims_of : World → Clock → Option String → Option Claims
claims_of w c none = none
claims_of w c (some token) = decode_token w c.system token

unfoldable pub get_current_user : World → Clock → Option String → Action User
get_current_user w c token = do
  claims ← or_raise unauthorized (claims_of w c token)
  raise_if (not (has_type "access" claims)) unauthorized
  id ← or_raise internal (subject claims)
  found ← gets (user_by_int id)
  user ← or_raise unauthorized found
  raise_if (user_status_eq user.status UserStatus.disabled) unauthorized
  pure user

unfoldable pub require_admin : World → Clock → Option String → Action User
unfolding get_current_user
require_admin w c token = do
  user ← get_current_user w c token
  raise_if (not (is_admin user.role)) forbidden
  pure user

unfoldable pub require_active_employee : World → Clock → Option String → Action User
unfolding get_current_user
require_active_employee w c token = do
  user ← get_current_user w c token
  raise_if (not (is_employee user.role)) forbidden
  raise_if (not (user_status_eq user.status UserStatus.active)) forbidden
  pure user

-- `get_current_device` behind `require_active_employee`.
unfoldable pub device_of : World → Option String → User → Action Device
device_of w header user = do
  token ← or_raise unauthorized (truthy header)
  found ← gets (λ db.
      find (λ d. str_eq d.token_hash (w.secrets.hash_token token) && d.user_id == user.id)
        db.devices.rows)
  device ← or_raise unauthorized found
  raise_if (not (is_active_device device.status)) unauthorized
  pure device

unfoldable pub get_current_device : World → Clock → Option String → Option String → Action Device
unfolding require_active_employee device_of
get_current_device w c token header = do
  user ← require_active_employee w c token
  device_of w header user

unfoldable pub require_dev_mode : World → Action (Unit {0})
require_dev_mode w = raise_if (not w.settings.dev_mode) not_found
