-- ===== src/Links.antt =====
-- app/models.py: the foreign keys from users to rosters and from rosters to offices, across
-- app/routers/auth.py, app/routers/admin.py, app/routers/rosters.py and app/routers/offices.py.
pub mod Frames
pub mod Users
pub mod Sites
pub mod Premises
pub mod Calls
pub mod Nightly
use office_attendance_backen.Base.{ℕ, ◌≡◌, true, Option, none, some, List, All, has_key}
use office_attendance_backen.Model.{Db, Office, Roster, User}

abbrev pub HasRoster : List Roster → Option ℕ → Type 0
HasRoster rosters none = Unit
HasRoster rosters (some id) = has_key (λ r. r.id) id rosters ≡ true

-- The rosters that a user has been assigned, or has asked for, are there.
abbrev pub IsUserLinked : List Roster → User → Type 0
IsUserLinked rosters u =
    HasRoster rosters u.assigned_roster_id × HasRoster rosters u.requested_roster_id

abbrev pub IsRosterLinked : List Office → Roster → Type 0
IsRosterLinked offices r = has_key (λ o. o.id) r.office_id offices ≡ true

abbrev pub IsLinked : Db → Type 0
IsLinked db =
    All (IsUserLinked db.rosters.rows) db.users.rows
    × All (IsRosterLinked db.offices.rows) db.rosters.rows
