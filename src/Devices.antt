-- ===== src/Devices.antt =====
-- app/device_service.py: the devices of a user, at most a few of which are active.
pub mod Cap
use office_attendance_backen.Base.{
  ℕ, ◌==◌, ◌&&◌, ltb, leb, String, str_eq, Bool, Option, none, some, List, [], ◌∷◌, find, select,
  length, if◌then◌else◌,
}
use office_attendance_backen.Model.{
  User, Device, Db, DeviceStatus, is_active_device, add_row, update_row,
}
use office_attendance_backen.World.{World, Clock}
use office_attendance_backen.Session.{Action, internal, pure, gets, or_raise, modify, ◌>>=◌, ◌>>◌}
use office_attendance_backen.Deps.{log_action}

abbrev pub is_active_of : ℕ → Device → Bool
is_active_of user_id d = d.user_id == user_id && is_active_device d.status

-- The first row of `ORDER BY created_at ASC`; rows of one instant come in the order of insertion.
unfoldable pub oldest_from : Device → List Device → Device
oldest_from best [] = best
oldest_from best (d ∷ ds) = oldest_from (if ltb d.created_at best.created_at then d else best) ds

unfoldable pub oldest : List Device → Option Device
unfolding oldest_from
oldest [] = none
oldest (d ∷ ds) = some (oldest_from d ds)

abbrev pub revoke_row : Device → Device
revoke_row d = record d { status = DeviceStatus.revoked }

abbrev pub set_device : ℕ → (Device → Device) → Db → Db
set_device id f db = record db { devices = update_row (λ d. d.id == id) f db.devices }

-- The `if` of `register_device`. With a cap of 0 and no device, `active_devices[0]` is an
-- IndexError.
unfoldable pub evict : World → Clock → User → Action (Unit {0})
unfolding oldest log_action
evict w c user = do
  active ← gets (λ db. select (is_active_of user.id) db.devices.rows)
  if leb w.settings.max_devices_per_user (length active)
      then (do
        device ← or_raise internal (oldest active)
        modify (set_device device.id revoke_row)
        modify (log_action c.db_now (some user.id) "device_auto_revoked" (some device.id)))
      else pure tt

abbrev pub new_device : World → Clock → User → Option String → String → ℕ → Device
new_device w c user user_agent raw_token id = record {
  id = id;
  user_id = user.id;
  token_hash = w.secrets.hash_token raw_token;
  user_agent = user_agent;
  status = DeviceStatus.active;
  created_at = c.db_now;
  last_seen_at = some c.first;
}

-- `register_device`, with the token that `secrets.token_hex` made. It returns that token.
unfoldable pub register_device : World → Clock → User → Option String → String → Action String
unfolding evict log_action
register_device w c user user_agent raw_token = do
  evict w c user
  modify
      (λ db. record db { devices = add_row (new_device w c user user_agent raw_token) db.devices })
  modify (log_action c.db_now (some user.id) "device_registered" none)
  pure raw_token

unfoldable pub find_active_device : World → User → String → Db → Option Device
find_active_device w user raw_token db =
    find (λ d. is_active_of user.id d && str_eq d.token_hash (w.secrets.hash_token raw_token))
      db.devices.rows
