-- ===== src/Rosters.antt =====
-- app/routers/rosters.py: what an admin does with rosters. The dependency `require_admin` has
-- returned `admin`, and the validators of app/schemas.py have let the body through.
pub mod Defaults
pub mod Calls
pub mod Views
use office_attendance_backen.Base.{
  ℕ, ltb, leb, ◌==◌, ◌||◌, ◌&&◌, String, Bool, true, false, not, Option, none, some, List, find,
  is_some, is_none, select, update_where, count_where, if◌then◌else◌,
}
use office_attendance_backen.Time.{TimeOfDay}
use office_attendance_backen.Model.{Db, Roster, User, Table, add_row, update_row, update_rows}
use office_attendance_backen.World.{Clock}
use office_attendance_backen.Session.{
  Action, not_found, conflict, unprocessable, internal, pure, gets, or_raise, raise_if, modify,
  commit, ◌>>=◌, ◌>>◌,
}
use office_attendance_backen.Patch.{Field, unset, null, given, is_null, value_or}
use office_attendance_backen.Deps.{log_action}

-- `_get_roster`
unfoldable pub get_roster : ℕ → Action Roster
get_roster id = do
  found ← gets (λ db. find (λ r. r.id == id) db.rosters.rows)
  or_raise not_found found

abbrev pub is_other_default : ℕ → Roster → Bool
is_other_default keep_id r = r.is_default && not (r.id == keep_id)

abbrev pub clear_default : Roster → Roster
clear_default r = record r { is_default = false }

-- `_clear_other_defaults`, which is always called with an id to keep.
unfoldable pub clear_other_defaults : ℕ → Db → Db
clear_other_defaults keep_id db = record db {
  rosters = update_rows (is_other_default keep_id) clear_default db.rosters;
}

abbrev pub has_office : ℕ → Db → Bool
has_office id db = is_some (find (λ o. o.id == id) db.offices.rows)

pub record RosterCreate : Type 0 where
  pub name : String
  pub start_time : TimeOfDay
  pub end_time : TimeOfDay
  pub grace_minutes : ℕ
  pub working_days : List ℕ
  pub is_default : Bool
  pub office_id : ℕ
  pub active : Bool

abbrev pub new_roster : Clock → RosterCreate → ℕ → Roster
new_roster c p id = record {
  id = id;
  name = p.name;
  start_time = p.start_time;
  end_time = p.end_time;
  grace_minutes = p.grace_minutes;
  working_days = p.working_days;
  is_default = p.is_default;
  office_id = p.office_id;
  active = p.active;
  created_at = c.db_now;
}

-- The id of the new roster.
unfoldable pub create_roster : Clock → User → RosterCreate → Action ℕ
create_roster c admin p = do
  raise_if (leb p.end_time p.start_time) unprocessable
  office_found ← gets (has_office p.office_id)
  raise_if (not office_found) unprocessable
  id ← gets (λ db. db.rosters.next_id)
  modify (λ db. record db { rosters = add_row (new_roster c p) db.rosters })
  modify (λ db. if p.is_default then clear_other_defaults id db else db)
  modify (log_action c.db_now (some admin.id) "roster_created" (some id))
  commit
  pure id

pub record RosterUpdate : Type 0 where
  pub name : Field String
  pub start_time : Field TimeOfDay
  pub end_time : Field TimeOfDay
  pub grace_minutes : Field ℕ
  pub working_days : Field (List ℕ)
  pub is_default : Field Bool
  pub office_id : Field ℕ
  pub active : Field Bool

-- `"office_id" in data and await db.get(Office, data["office_id"]) is None`
unfoldable pub lacks_office : Field ℕ → Db → Bool
lacks_office unset db = false
lacks_office null db = true
lacks_office (given id) db = not (has_office id db)

-- A null in a column that is NOT NULL: the flush raises.
unfoldable pub violates_not_null : RosterUpdate → Bool
violates_not_null p =
    is_null p.name
    || is_null p.grace_minutes
    || is_null p.working_days
    || is_null p.is_default
    || is_null p.active

abbrev pub merged_roster : RosterUpdate → Roster → Roster
merged_roster p r = record r {
  name = value_or r.name p.name;
  start_time = value_or r.start_time p.start_time;
  end_time = value_or r.end_time p.end_time;
  grace_minutes = value_or r.grace_minutes p.grace_minutes;
  working_days = value_or r.working_days p.working_days;
  is_default = value_or r.is_default p.is_default;
  office_id = value_or r.office_id p.office_id;
  active = value_or r.active p.active;
}

abbrev pub set_roster : ℕ → (Roster → Roster) → Db → Db
set_roster id f db = record db { rosters = update_row (λ r. r.id == id) f db.rosters }

-- `update_roster`. Comparing a time with None is a TypeError.
unfoldable pub update_roster : Clock → User → ℕ → RosterUpdate → Action Roster
update_roster c admin roster_id p = do
  roster ← get_roster roster_id
  let next = merged_roster p roster
  raise_if (is_null p.start_time || is_null p.end_time) internal
  raise_if (leb next.end_time next.start_time) unprocessable
  missing ← gets (lacks_office p.office_id)
  raise_if missing unprocessable
  raise_if (violates_not_null p) internal
  modify (set_roster roster.id (merged_roster p))
  modify (λ db. if value_or false p.is_default then clear_other_defaults roster.id db else db)
  modify (log_action c.db_now (some admin.id) "roster_updated" (some roster.id))
  commit
  pure next

abbrev pub is_at : ℕ → Option ℕ → Bool
is_at id none = false
is_at id (some x) = x == id

-- How many users reference the roster.
unfoldable pub users_of : ℕ → Db → ℕ
users_of id db =
    count_where (λ u. is_at id u.assigned_roster_id || is_at id u.requested_roster_id) db.users.rows

unfoldable pub delete_roster : Clock → User → ℕ → Action (Unit {0})
delete_roster c admin roster_id = do
  roster ← get_roster roster_id
  in_use ← gets (users_of roster_id)
  raise_if (ltb 0 in_use) conflict
  modify (log_action c.db_now (some admin.id) "roster_deleted" (some roster_id))
  modify (λ db. record db {
    rosters = record db.rosters { rows = select (λ r. not (r.id == roster.id)) db.rosters.rows };
  })
  commit
