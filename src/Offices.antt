-- ===== src/Offices.antt =====
-- app/routers/offices.py: what an admin does with offices. The dependency `require_admin` has
-- returned `admin`, and the validators of app/schemas.py have let the body through.
pub mod Addresses
pub mod Writes
pub mod Calls
pub mod Views
pub mod Network
use office_attendance_backen.Base.{
  ℕ, ltb, ◌==◌, ◌||◌, ◌&&◌, String, str_eq, Bool, true, false, not, Option, none, some, List, [],
  ◌∷◌, ◌++◌, find, select, count_where, if◌then◌else◌, or_else,
}
use office_attendance_backen.Model.{Db, Float, Office, User, add_row, update_row, update_rows}
use office_attendance_backen.World.{World, Clock}
use office_attendance_backen.Session.{
  Action, not_found, conflict, unprocessable, internal, pure, gets, or_raise, raise_if, modify,
  commit, ◌>>=◌, ◌>>◌,
}
use office_attendance_backen.Patch.{Field, unset, null, given, is_null, value_or, nullable_or}
use office_attendance_backen.Ip.{Request, normalize_ip, is_non_public_ip, get_client_ip}
use office_attendance_backen.Presence.{elem_text}
use office_attendance_backen.Deps.{log_action}

-- `_validate_ip`: the canonical address, or `none` for a 422.
unfoldable pub validate_ip : World → String → Option String
validate_ip w ip = elim (normalize_ip w.addresses ip) [
  | none ↦ none
  | some canonical ↦
      if not w.settings.dev_mode && is_non_public_ip w.addresses canonical
      then none
      else some canonical
]

abbrev pub add_new : String → List String → List String
add_new c ips = if elem_text c ips then ips else ips ++ c ∷ []

-- The loop of `create_office` over `payload.public_ips`, with `canonical_ips`.
unfoldable pub canonical_ips : World → List String → List String → Option (List String)
canonical_ips w [] done = some done
canonical_ips w (ip ∷ ips) done = elim (validate_ip w ip) [
  | none ↦ none
  | some c ↦ canonical_ips w ips (add_new c done)
]

-- `_get_office`
unfoldable pub get_office : ℕ → Action Office
get_office id = do
  found ← gets (λ db. find (λ o. o.id == id) db.offices.rows)
  or_raise not_found found

abbrev pub set_office : ℕ → (Office → Office) → Db → Db
set_office id f db = record db { offices = update_row (λ o. o.id == id) f db.offices }

pub record OfficeCreate : Type 0 where
  pub name : String
  pub public_ips : List String
  pub latitude : Option Float
  pub longitude : Option Float
  pub radius_meters : ℕ
  pub timezone : String
  pub active : Bool

abbrev pub new_office : Clock → OfficeCreate → List String → ℕ → Office
new_office c p ips id = record {
  id = id;
  name = p.name;
  public_ips = ips;
  latitude = p.latitude;
  longitude = p.longitude;
  radius_meters = p.radius_meters;
  timezone = p.timezone;
  active = p.active;
  created_at = c.db_now;
}

-- The id of the new office.
unfoldable pub create_office : World → Clock → User → OfficeCreate → Action ℕ
create_office w c admin p = do
  raise_if (not (w.zones.is_known p.timezone)) unprocessable
  ips ← or_raise unprocessable (canonical_ips w p.public_ips [])
  id ← gets (λ db. db.offices.next_id)
  modify (λ db. record db { offices = add_row (new_office c p ips) db.offices })
  modify (log_action c.db_now (some admin.id) "office_created" (some id))
  commit
  pure id

unfoldable pub current_ip : World → Request → String
current_ip w req = get_client_ip w.settings.trust_proxy w.addresses req

pub record OfficeUpdate : Type 0 where
  pub name : Field String
  pub latitude : Field Float
  pub longitude : Field Float
  pub radius_meters : Field ℕ
  pub timezone : Field String
  pub active : Field Bool

abbrev pub merged_office : OfficeUpdate → Office → Office
merged_office p o = record o {
  name = value_or o.name p.name;
  latitude = nullable_or o.latitude p.latitude;
  longitude = nullable_or o.longitude p.longitude;
  radius_meters = value_or o.radius_meters p.radius_meters;
  timezone = value_or o.timezone p.timezone;
  active = value_or o.active p.active;
}

-- `if "timezone" in data`: whether the value is refused.
abbrev pub refused_zone : World → Field String → Bool
refused_zone w (given tz) = not (w.zones.is_known tz)
refused_zone w _ = false

-- A null in a column that is NOT NULL: the flush raises.
abbrev pub has_bad_null : OfficeUpdate → Bool
has_bad_null p = is_null p.name || is_null p.radius_meters || is_null p.active

-- `update_office`. `ZoneInfo(None)` is a TypeError.
unfoldable pub update_office : World → Clock → User → ℕ → OfficeUpdate → Action Office
update_office w c admin office_id p = do
  office ← get_office office_id
  raise_if (is_null p.timezone) internal
  raise_if (refused_zone w p.timezone) unprocessable
  raise_if (has_bad_null p) internal
  modify (set_office office.id (merged_office p))
  modify (log_action c.db_now (some admin.id) "office_updated" (some office.id))
  commit
  pure (merged_office p office)

abbrev pub with_ip : String → Office → Office
with_ip c o = record o { public_ips = o.public_ips ++ c ∷ [] }

-- `_add_ip`
unfoldable pub add_ip : World → Clock → Office → String → ℕ → Action (Unit {0})
add_ip w c office ip admin_id = do
  canonical ← or_raise unprocessable (validate_ip w ip)
  if elem_text canonical office.public_ips then pure tt else (do
    modify (set_office office.id (with_ip canonical))
    modify (log_action c.db_now (some admin_id) "office_ip_added" (some office.id)))

unfoldable pub add_public_ip : World → Clock → User → ℕ → String → Action (Unit {0})
add_public_ip w c admin office_id ip = do
  office ← get_office office_id
  add_ip w c office ip admin.id
  commit

unfoldable pub add_current_ip : World → Clock → User → ℕ → Request → Action (Unit {0})
add_current_ip w c admin office_id req = do
  office ← get_office office_id
  add_ip w c office (get_client_ip w.settings.trust_proxy w.addresses req) admin.id
  commit

abbrev pub without_ip : String → Office → Office
without_ip c o = record o { public_ips = select (λ x. not (str_eq x c)) o.public_ips }

unfoldable pub remove_public_ip : World → Clock → User → ℕ → String → Action (Unit {0})
remove_public_ip w c admin office_id ip = do
  office ← get_office office_id
  let canonical = or_else (normalize_ip w.addresses ip) ip
  raise_if (not (elem_text canonical office.public_ips)) not_found
  modify (set_office office.id (without_ip canonical))
  modify (log_action c.db_now (some admin.id) "office_ip_removed" (some office.id))
  commit

-- How many rosters reference the office.
unfoldable pub rosters_of : ℕ → Db → ℕ
rosters_of office_id db = count_where (λ r. r.office_id == office_id) db.rosters.rows

-- ON DELETE SET NULL of `checkin_attempts.matched_office_id`.
abbrev pub unmatch : ℕ → Db → Db
unmatch id db = record db {
  attempts =
      update_rows (λ a. elim a.matched_office_id [ none ↦ false | some office ↦ office == id ])
        (λ a. record a { matched_office_id = none }) db.attempts;
}

unfoldable pub delete_office : Clock → User → ℕ → Action (Unit {0})
delete_office c admin office_id = do
  office ← get_office office_id
  count ← gets (rosters_of office_id)
  raise_if (ltb 0 count) conflict
  modify (log_action c.db_now (some admin.id) "office_deleted" (some office_id))
  modify (unmatch office.id)
  modify (λ db. record db {
    offices = record db.offices { rows = select (λ o. not (o.id == office.id)) db.offices.rows };
  })
  commit
