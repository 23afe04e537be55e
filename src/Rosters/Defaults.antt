-- ===== src/Rosters/Defaults.antt =====
-- app/routers/rosters.py: the invariant of rosters, and `create_roster`.
use office_attendance_backen.Base.{
  ℕ, ◌<◌, ◌==◌, ◌&&◌, ◌≡◌, ◌⊎◌, refl, Bool, true, false, List, [], ◌∷◌, ◌++◌, All, arith, ltb,
  update_where, All-append, ==_iff, Bool-cases, inl, inr, if◌then◌else◌,
}
use office_attendance_backen.Model.{Db, Roster, User}
use office_attendance_backen.World.{Clock}
use office_attendance_backen.Session.{request}
use office_attendance_backen.Deps.{log_action}
use office_attendance_backen.Rosters.{
  RosterCreate, is_other_default, clear_default, clear_other_defaults, has_office, new_roster,
  create_roster,
}

-- A roster with a shift that ends after it starts, and which is not the default unless its id is `k`.
abbrev pub IsRosterAt : ℕ → Roster → Type 0
IsRosterAt k r = (r.start_time < r.end_time) × ((r.is_default ≡ false) ⊎ (r.id ≡ k))

-- All shifts end after they start, and one id has every default there is.
abbrev pub RostersOk : Db → Type 0
RostersOk db = (k : ℕ) × All (IsRosterAt k) db.rosters.rows

-- Rosters that are well timed, whatever their defaults.
abbrev pub IsTimed : Roster → Type 0
IsTimed r = r.start_time < r.end_time

pub IsTimed-IsRosterAt : (k : ℕ) (rows : List Roster) → All (IsRosterAt k) rows → All IsTimed rows
IsTimed-IsRosterAt k [] all = tt
IsTimed-IsRosterAt k (r ∷ rows) (h, all) = (h.0, IsTimed-IsRosterAt k rows all)

cleared-IsRosterAt :
    (k : ℕ) (r : Roster)
    → IsTimed r
    → IsRosterAt k (if is_other_default k r then clear_default r else r)
cleared-IsRosterAt k r h = elim (Bool-cases r.is_default) [
  | inr plain ↦ rw plain (h, inl refl)
  | inl default ↦ elim (Bool-cases (r.id == k)) [
    | inl same ↦ rw (default, same) (h, inr ((==_iff r.id k).0 same))
    | inr other ↦ rw (default, other) (h, inl refl)
  ]
]

-- Clearing the other defaults makes the kept id the one of all defaults.
pub cleared-All :
    (k : ℕ) (rows : List Roster)
    → All IsTimed rows
    → All (IsRosterAt k) (update_where (is_other_default k) clear_default rows)
cleared-All k [] all = tt
cleared-All k (r ∷ rows) (h, hs) = (cleared-IsRosterAt k r h, cleared-All k rows hs)

-- The rosters that a PATCH or POST leaves, from the rows before the defaults are cleared.
abbrev pub settled_rows : Bool → ℕ → List Roster → List Roster
settled_rows clear id rows =
    if clear then update_where (is_other_default id) clear_default rows else rows

abbrev pub RowsOk : List Roster → Type 0
RowsOk rows = (k : ℕ) × All (IsRosterAt k) rows

pub rows-create_roster :
    (c : Clock) (admin : User) (p : RosterCreate) (db : Db)
    → (request (create_roster c admin p) db).1.rosters.rows ≡ (
        if ltb p.start_time p.end_time && has_office p.office_id db
        then settled_rows p.is_default db.rosters.next_id
            (db.rosters.rows ++ new_roster c p db.rosters.next_id ∷ [])
        else db.rosters.rows)
unfolding create_roster clear_other_defaults log_action
rows-create_roster c admin p db = ground arith

created-RowsOk :
    (c : Clock) (p : RosterCreate) (id k : ℕ) (rows : List Roster) (b : Bool)
    → p.is_default ≡ b
    → p.start_time < p.end_time
    → All (IsRosterAt k) rows
    → RowsOk (settled_rows b id (rows ++ new_roster c p id ∷ []))
created-RowsOk c p id k rows true e timed all = (
  id,
  cleared-All id (rows ++ new_roster c p id ∷ [])
      (All-append IsTimed rows _ (IsTimed-IsRosterAt k rows all) (timed, tt)),
)
created-RowsOk c p id k rows false e timed all =
    (k, All-append (IsRosterAt k) rows _ all ((timed, inl e), tt))

pub create_roster-RostersOk :
    (c : Clock) (admin : User) (p : RosterCreate) (db : Db)
    → RostersOk db
    → RostersOk (request (create_roster c admin p) db).1
create_roster-RostersOk c admin p db (k, all) =
    rw (rows-create_roster c admin p db)
      (elim (Bool-cases (ltb p.start_time p.end_time && has_office p.office_id db)) [
        | inr refused ↦ rw refused (k, all)
        | inl granted ↦ rw granted (
            created-RowsOk c p db.rosters.next_id k db.rosters.rows p.is_default refl (ground arith)
              all)
      ])
