-- ===== src/Admin/Employees.antt =====
-- app/routers/admin.py: signup decisions, disabling, enabling and deleting employees, revoking
-- devices. Also app/bootstrap.py.
use office_attendance_backen.Base.{
  ℕ, ◌==◌, String, false, not, Option, none, some, find, select, count_where, is_none,
}
use office_attendance_backen.Model.{
  Roster, User, Db, Role, UserStatus, is_employee, user_status_eq, add_row, update_rows,
}
use office_attendance_backen.World.{World, Clock}
use office_attendance_backen.Session.{
  Action, not_found, conflict, unprocessable, pure, gets, or_raise, raise_if, modify, commit, ◌>>=◌,
  ◌>>◌,
}
use office_attendance_backen.Deps.{log_action, user_by_id}
use office_attendance_backen.Devices.{is_active_of, set_device, revoke_row}
use office_attendance_backen.Auth.{active_roster, set_user, user_by_email}

-- `_get_employee`
unfoldable pub get_employee : ℕ → Action User
get_employee id = do
  found ← gets (user_by_id id)
  user ← or_raise not_found found
  raise_if (not (is_employee user.role)) not_found
  pure user

-- `_active_device_count`
unfoldable pub active_device_count : ℕ → Db → ℕ
active_device_count user_id db = count_where (is_active_of user_id) db.devices.rows

-- `_require_active_roster`
unfoldable pub require_active_roster : Option ℕ → Action Roster
require_active_roster none s = or_raise unprocessable none s
require_active_roster (some id) s = or_raise unprocessable (active_roster id s.current) s

pub data Decision : Type 0 where
  approve reject : Decision

pub record UserDecisionIn : Type 0 where
  pub action : Decision
  pub assigned_roster_id : Option ℕ
  pub feedback : Option String

abbrev pub approved_row : Clock → User → UserDecisionIn → Roster → User → User
approved_row c admin p roster u = record u {
  status = UserStatus.active;
  assigned_roster_id = some roster.id;
  approved_by = some admin.id;
  approved_at = some c.first;
  admin_feedback = p.feedback;
}

abbrev pub rejected_row : UserDecisionIn → User → User
rejected_row p u = record u {
  status = UserStatus.rejected;
  assigned_roster_id = none;
  admin_feedback = p.feedback;
}

-- The two branches of `decide_user`.
unfoldable pub decide : Clock → User → UserDecisionIn → User → Decision → Action (Unit {0})
decide c admin p employee approve = do
  roster ← require_active_roster p.assigned_roster_id
  modify (set_user employee.id (approved_row c admin p roster))
  modify (log_action c.db_now (some admin.id) "user_approved" (some employee.id))
decide c admin p employee reject = do
  modify (set_user employee.id (rejected_row p))
  modify (log_action c.db_now (some admin.id) "user_rejected" (some employee.id))

-- The response is the employee's row with the count of active devices: here the count.
unfoldable pub decide_user : Clock → User → ℕ → UserDecisionIn → Action ℕ
decide_user c admin user_id p = do
  employee ← get_employee user_id
  raise_if (not (user_status_eq employee.status UserStatus.pending)) conflict
  decide c admin p employee p.action
  commit
  gets (active_device_count employee.id)

abbrev pub set_status : UserStatus → User → User
set_status s u = record u { status = s }

unfoldable pub disable_employee : Clock → User → ℕ → Action ℕ
disable_employee c admin id = do
  employee ← get_employee id
  modify (set_user employee.id (set_status UserStatus.disabled))
  modify (log_action c.db_now (some admin.id) "employee_disabled" (some id))
  commit
  gets (active_device_count id)

unfoldable pub enable_employee : Clock → User → ℕ → Action ℕ
enable_employee c admin id = do
  employee ← get_employee id
  raise_if (is_none employee.assigned_roster_id) conflict
  modify (set_user employee.id (set_status UserStatus.active))
  modify (log_action c.db_now (some admin.id) "employee_enabled" (some id))
  commit
  gets (active_device_count id)

-- `UPDATE audit_logs SET actor_user_id = NULL WHERE actor_user_id = id`
unfoldable pub detach_actor : ℕ → Db → Db
detach_actor id db = record db {
  audit_logs =
      update_rows (λ a. elim a.actor_user_id [ none ↦ false | some x ↦ x == id ])
        (λ a. record a { actor_user_id = none }) db.audit_logs;
}

-- `DELETE` of the user, with the rows that reference it under ON DELETE CASCADE.
unfoldable pub delete_user : ℕ → Db → Db
delete_user id db = record db {
  users = record db.users { rows = select (λ u. not (u.id == id)) db.users.rows };
  devices = record db.devices { rows = select (λ d. not (d.user_id == id)) db.devices.rows };
  heartbeats = record db.heartbeats {
    rows = select (λ h. not (h.user_id == id)) db.heartbeats.rows;
  };
  days = record db.days { rows = select (λ d. not (d.user_id == id)) db.days.rows };
  attempts = record db.attempts { rows = select (λ a. not (a.user_id == id)) db.attempts.rows };
}

unfoldable pub delete_employee : Clock → User → ℕ → Action (Unit {0})
delete_employee c admin id = do
  employee ← get_employee id
  modify (log_action c.db_now (some admin.id) "employee_deleted" (some employee.id))
  modify (detach_actor id)
  modify (delete_user employee.id)
  commit

unfoldable pub revoke_device : Clock → User → ℕ → ℕ → Action (Unit {0})
revoke_device c admin employee_id device_id = do
  found ← gets (λ db. find (λ d. d.id == device_id) db.devices.rows)
  device ← or_raise not_found found
  raise_if (not (device.user_id == employee_id)) not_found
  modify (set_device device.id revoke_row)
  modify (log_action c.db_now (some admin.id) "device_revoked_by_admin" (some device_id))
  commit

-- bootstrap.py
unfoldable pub bootstrap_with : World → Clock → Option User → Action (Unit {0})
bootstrap_with w c none = do
  modify (λ db. record db {
    users =
        add_row
          (λ id. record {
            id = id;
            name = "Admin";
            email = w.secrets.lower w.settings.admin_email;
            phone = none;
            password_hash = w.secrets.hash_password w.settings.admin_password;
            role = Role.admin;
            status = UserStatus.active;
            department = none;
            job_title = none;
            city = none;
            requested_roster_id = none;
            assigned_roster_id = none;
            admin_feedback = none;
            approved_by = none;
            approved_at = none;
            created_at = c.db_now;
          })
          db.users;
  })
  commit
bootstrap_with w c (some u) = do
  modify (
      set_user u.id (λ x. record x {
        role = Role.admin;
        status = UserStatus.active;
        password_hash = w.secrets.hash_password w.settings.admin_password;
      }))
  commit

unfoldable pub ensure_admin_user : World → Clock → Action (Unit {0})
ensure_admin_user w c = do
  found ← gets (user_by_email (w.secrets.lower w.settings.admin_email))
  bootstrap_with w c found
