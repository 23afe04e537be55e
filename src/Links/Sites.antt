-- ===== src/Links/Sites.antt =====
-- app/routers/rosters.py and app/routers/offices.py: a request on rosters or offices removes
-- nothing that is in use, and gives a roster only an office that is there.
use office_attendance_backen.Base.{
  ℕ, ◌≡◌, ◌==◌, ◌&&◌, ◌||◌, ◌++◌, ◌∷◌, [], refl, not, ltb, none, some, Option, List, All,
  All-append, All-map, All-both, arith, find, find-passes, ==_iff, select, select-All, update_first,
  update_where-All, update_first-keeps, count_where-none, has_key, has_key-append,
  has_key-update_first, has_key-update_where, has_key-select, Bool, true, false, Bool-cases,
  Option-cases, inl, inr, if◌then◌else◌,
}
use office_attendance_backen.Model.{Db, Office, Roster, User}
use office_attendance_backen.World.{Clock}
use office_attendance_backen.Session.{request}
use office_attendance_backen.Deps.{log_action}
use office_attendance_backen.Patch.{Field, unset, null, given, value_or}
use office_attendance_backen.Rosters.{
  RosterCreate, RosterUpdate, is_at, users_of, has_office, new_roster, merged_roster,
  is_other_default, clear_default, get_roster, delete_roster, create_roster, update_roster,
  lacks_office,
}
use office_attendance_backen.Rosters.Defaults.{settled_rows, rows-create_roster}
use office_attendance_backen.Rosters.Calls.{accepted, rows-update_roster}
use office_attendance_backen.Links.{HasRoster, IsUserLinked, IsRosterLinked}

-- Whatever roster was there is there still.
abbrev Grows : List Roster → List Roster → Type 0
Grows old new = (id : ℕ) → has_key (λ r. r.id) id old ≡ true → has_key (λ r. r.id) id new ≡ true

HasRoster-Grows :
    (old new : List Roster) (id : Option ℕ) → Grows old new → HasRoster old id → HasRoster new id
HasRoster-Grows old new none grows h = tt
HasRoster-Grows old new (some id) grows h = grows id h

users-Grows :
    (old new : List Roster) (users : List User)
    → Grows old new
    → All (IsUserLinked old) users
    → All (IsUserLinked new) users
users-Grows old new users grows all =
    All-map (IsUserLinked old) (IsUserLinked new) users
      (λ u h. (
        HasRoster-Grows old new u.assigned_roster_id grows h.0,
        HasRoster-Grows old new u.requested_roster_id grows h.1,
      ))
      all

settled_rows-Grows :
    (clear : Bool) (k : ℕ) (old new : List Roster)
    → Grows old new
    → Grows old (settled_rows clear k new)
settled_rows-Grows true k old new grows id h =
    has_key-update_where (λ r. r.id) id (is_other_default k) clear_default new (λ r. refl)
      (grows id h)
settled_rows-Grows false k old new grows id h = grows id h

settled_rows-linked :
    (offices : List Office) (clear : Bool) (k : ℕ) (rows : List Roster)
    → All (IsRosterLinked offices) rows
    → All (IsRosterLinked offices) (settled_rows clear k rows)
settled_rows-linked offices true k rows all =
    update_where-All (IsRosterLinked offices) (is_other_default k) clear_default rows (λ r t h. h)
      all
settled_rows-linked offices false k rows all = all

-- The rosters after a request: linked to the offices, and none of those that users have is gone.
abbrev pub Kept : Db → List Roster → Type 0
Kept db rows = All (IsUserLinked rows) db.users.rows × All (IsRosterLinked db.offices.rows) rows

pub create_roster-Kept :
    (c : Clock) (admin : User) (p : RosterCreate) (db : Db)
    → Kept db db.rosters.rows
    → Kept db (request (create_roster c admin p) db).1.rosters.rows
create_roster-Kept c admin p db (users, rosters) =
    rw (rows-create_roster c admin p db)
      (elim (Bool-cases (ltb p.start_time p.end_time && has_office p.office_id db)) [
        | inr refused ↦ rw refused (users, rosters)
        | inl granted ↦
            let rows = db.rosters.rows ++ new_roster c p db.rosters.next_id ∷ [] in
            rw granted (
              users-Grows db.rosters.rows (settled_rows p.is_default db.rosters.next_id rows)
                  db.users.rows
                  (settled_rows-Grows p.is_default db.rosters.next_id db.rosters.rows rows
                    (λ id h. has_key-append (λ r. r.id) id db.rosters.rows _ h))
                  users,
              settled_rows-linked db.offices.rows p.is_default db.rosters.next_id rows (
                  All-append (IsRosterLinked db.offices.rows) db.rosters.rows _ rosters
                    (ground arith, tt)),
            )
      ])

merged_roster-linked :
    (p : RosterUpdate) (db : Db) (office_id : Field ℕ) (r : Roster)
    → p.office_id ≡ office_id
    → lacks_office office_id db ≡ false
    → IsRosterLinked db.offices.rows r
    → IsRosterLinked db.offices.rows (merged_roster p r)
unfolding lacks_office
merged_roster-linked p db unset r e h linked = rw e linked
merged_roster-linked p db null r e h linked = cc
merged_roster-linked p db (given id) r e h linked = rw e (ground arith)

pub update_roster-Kept :
    (c : Clock) (admin : User) (id : ℕ) (p : RosterUpdate) (db : Db)
    → Kept db db.rosters.rows
    → Kept db (request (update_roster c admin id p) db).1.rosters.rows
update_roster-Kept c admin id p db (users, rosters) =
    rw (rows-update_roster c admin id p db)
      (elim (Option-cases (find (λ (r : Roster). r.id == id) db.rosters.rows)) [
        | inl absent ↦ rw absent (users, rosters)
        | inr (r, found) ↦ elim (Bool-cases (accepted p r db)) [
          | inr refused ↦ rw (found, refused) (users, rosters)
          | inl granted ↦
              let rows = update_first (λ x. x.id == r.id) (merged_roster p) db.rosters.rows in
              let clear = value_or false p.is_default in
              rw (found, granted)
                (
                  users-Grows db.rosters.rows (settled_rows clear r.id rows) db.users.rows
                      (settled_rows-Grows clear r.id db.rosters.rows rows (λ k h.
                        has_key-update_first (λ x. x.id) k (λ x. x.id == r.id) (merged_roster p)
                          db.rosters.rows (λ x. refl) h))
                      users,
                  settled_rows-linked db.offices.rows clear r.id rows (
                      update_first-keeps (IsRosterLinked db.offices.rows) (λ x. x.id == r.id)
                        (merged_roster p) db.rosters.rows
                        (λ x h. merged_roster-linked p db p.office_id x refl (ground arith) h)
                        rosters),
                )
        ]
      ])

-- The rosters that a deletion leaves.
abbrev undeleted_rows : ℕ → Db → Option Roster → List Roster
undeleted_rows id db none = db.rosters.rows
undeleted_rows id db (some r) =
    if ltb 0 (users_of id db)
    then db.rosters.rows
    else select (λ x. not (x.id == r.id)) db.rosters.rows

undeleted-delete_roster :
    (c : Clock) (admin : User) (id : ℕ) (db : Db)
    → (request (delete_roster c admin id) db).1.rosters.rows
      ≡ undeleted_rows id db (find (λ r. r.id == id) db.rosters.rows)
unfolding delete_roster get_roster log_action
undeleted-delete_roster c admin id db =
    elim (Option-cases (find (λ (r : Roster). r.id == id) db.rosters.rows)) [
      | inl absent ↦ ground arith
      | inr (r, found) ↦ ground arith
    ]

unused-HasRoster :
    (n : ℕ) (rows : List Roster) (id : Option ℕ)
    → is_at n id ≡ false
    → HasRoster rows id
    → HasRoster (select (λ x. not (x.id == n)) rows) id
unused-HasRoster n rows none e h = tt
unused-HasRoster n rows (some id) e h = has_key-select (λ r. r.id) id n rows (ground arith) h

abbrev uses : ℕ → User → Bool
uses n u = is_at n u.assigned_roster_id || is_at n u.requested_roster_id

deleted-users :
    (n : ℕ) (db : Db)
    → ltb 0 (users_of n db) ≡ false
    → All (IsUserLinked db.rosters.rows) db.users.rows
    → All (IsUserLinked (select (λ x. not (x.id == n)) db.rosters.rows)) db.users.rows
unfolding users_of
deleted-users n db free all =
    All-both (λ u. uses n u ≡ false) (IsUserLinked db.rosters.rows) _ db.users.rows
      (λ u e h. (
        unused-HasRoster n db.rosters.rows u.assigned_roster_id (ground arith) h.0,
        unused-HasRoster n db.rosters.rows u.requested_roster_id (ground arith) h.1,
      ))
      (count_where-none (uses n) db.users.rows free) all

pub delete_roster-Kept :
    (c : Clock) (admin : User) (id : ℕ) (db : Db)
    → Kept db db.rosters.rows
    → Kept db (request (delete_roster c admin id) db).1.rosters.rows
delete_roster-Kept c admin id db (users, rosters) =
    rw (undeleted-delete_roster c admin id db)
      (elim (Option-cases (find (λ (r : Roster). r.id == id) db.rosters.rows)) [
        | inl absent ↦ rw absent (users, rosters)
        | inr (r, found) ↦ elim (Bool-cases (ltb 0 (users_of id db))) [
          | inl used ↦ rw (found, used) (users, rosters)
          | inr free ↦
              let same =
                (==_iff r.id id).0 (find-passes (λ x. x.id == id) db.rosters.rows r found) in
              rw (found, free, same)
                (
                  deleted-users id db free users,
                  select-All (IsRosterLinked db.offices.rows) (λ x. not (x.id == id))
                      db.rosters.rows rosters,
                )
        ]
      ])
