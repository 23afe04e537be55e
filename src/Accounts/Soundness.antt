-- ===== src/Accounts/Soundness.antt =====
-- The invariant of employees' accounts, and that every operation on accounts keeps it.
use office_attendance_backen.Base.{
  ℕ, ◌==◌, ◌&&◌, ◌≡◌, refl, Bool, true, false, Option, none, some, List, All, arith, update_first,
  is_none, is_some, ==_iff, find-passes, update_first-All, if◌then◌else◌, Option-cases, inl, inr,
}
use office_attendance_backen.Model.{Role, User, UserStatus, Db, is_employee, user_status_eq}
use office_attendance_backen.World.{Clock}
use office_attendance_backen.Session.{request}
use office_attendance_backen.Deps.{user_by_id, log_action}
use office_attendance_backen.Admin.{get_employee, set_status, disable_employee, enable_employee}

abbrev sound_at : Role → UserStatus → Option ℕ → Bool
sound_at Role.admin _ _ = true
sound_at Role.employee UserStatus.active roster = is_some roster
sound_at Role.employee UserStatus.disabled roster = true
sound_at Role.employee UserStatus.pending roster = is_none roster
sound_at Role.employee UserStatus.rejected roster = is_none roster

-- An account is sound if it is an admin's, or active with a roster, or disabled, or pending or
-- rejected without a roster.
abbrev pub IsSound : User → Type 0
IsSound u = sound_at u.role u.status u.assigned_roster_id ≡ true

active_at-rostered :
    (r : Role) (s : UserStatus) (roster : Option ℕ)
    → sound_at r s roster ≡ true
    → (is_employee r && user_status_eq s UserStatus.active) ≡ true
    → is_some roster ≡ true
active_at-rostered Role.admin s roster h e = cc
active_at-rostered Role.employee UserStatus.active roster h e = h
active_at-rostered Role.employee UserStatus.disabled roster h e = cc
active_at-rostered Role.employee UserStatus.pending roster h e = cc
active_at-rostered Role.employee UserStatus.rejected roster h e = cc

-- A sound active employee has a roster.
pub IsSound-active :
    (u : User)
    → IsSound u
    → (is_employee u.role && user_status_eq u.status UserStatus.active) ≡ true
    → is_some u.assigned_roster_id ≡ true
IsSound-active u h e = active_at-rostered u.role u.status u.assigned_roster_id h e

abbrev pub AllSound : Db → Type 0
AllSound db = All IsSound db.users.rows

abbrev pub employee_at : ℕ → Db → Option User
employee_at id db = elim (user_by_id id db) [
  | none ↦ none
  | some u ↦ if is_employee u.role then some u else none
]

-- The users after a write to the row of `e`, if there is one.
abbrev pub written_at : (User → User) → Option User → List User → List User
written_at f none rows = rows
written_at f (some e) rows = update_first (λ u. u.id == e.id) f rows

pub employee_at-found :
    (id : ℕ) (db : Db) (e : User)
    → employee_at id db ≡ some e
    → (user_by_id id db ≡ some e) × (is_employee e.role ≡ true)
employee_at-found id db e h = elim (Option-cases (user_by_id id db)) [
  | inl absent ↦ ground arith
  | inr (u, found) ↦ ground arith
]

-- A write to the row of an id is sound if the row that it makes is.
pub written_at-IsSound :
    (id : ℕ) (f : User → User) (db : Db) (target : Option User)
    → ((e : User) → target ≡ some e → (user_by_id id db ≡ some e) × IsSound (f e))
    → AllSound db
    → All IsSound (written_at f target db.users.rows)
written_at-IsSound id f db none h all = all
written_at-IsSound id f db (some e) h all =
    let (found, new) = h e refl in
    rw ((==_iff e.id id).0 (find-passes (λ u. u.id == id) db.users.rows e found))
      (update_first-All IsSound (λ u. u.id == id) f db.users.rows e found new all)

pub users-disable_employee :
    (c : Clock) (admin : User) (id : ℕ) (db : Db)
    → (request (disable_employee c admin id) db).1.users.rows
      ≡ written_at (set_status UserStatus.disabled) (employee_at id db) db.users.rows
unfolding disable_employee get_employee log_action
users-disable_employee c admin id db = ground arith

pub disable_employee-AllSound :
    (c : Clock) (admin : User) (id : ℕ) (db : Db)
    → AllSound db
    → AllSound (request (disable_employee c admin id) db).1
disable_employee-AllSound c admin id db all = rw (users-disable_employee c admin id db) (
    written_at-IsSound id (set_status UserStatus.disabled) db (employee_at id db)
      (λ e h. let k = employee_at-found id db e h in (k.0, ground arith)) all)

-- Only an employee with a roster is enabled.
abbrev pub rostered_at : ℕ → Db → Option User
rostered_at id db = elim (employee_at id db) [
  | none ↦ none
  | some u ↦ if is_none u.assigned_roster_id then none else some u
]

rostered_at-found :
    (id : ℕ) (db : Db) (e : User)
    → rostered_at id db ≡ some e
    → (employee_at id db ≡ some e) × (is_none e.assigned_roster_id ≡ false)
rostered_at-found id db e h = elim (Option-cases (employee_at id db)) [
  | inl absent ↦ ground arith
  | inr (u, found) ↦ ground arith
]

pub users-enable_employee :
    (c : Clock) (admin : User) (id : ℕ) (db : Db)
    → (request (enable_employee c admin id) db).1.users.rows
      ≡ written_at (set_status UserStatus.active) (rostered_at id db) db.users.rows
unfolding enable_employee get_employee log_action
users-enable_employee c admin id db = ground arith

pub enable_employee-AllSound :
    (c : Clock) (admin : User) (id : ℕ) (db : Db)
    → AllSound db
    → AllSound (request (enable_employee c admin id) db).1
enable_employee-AllSound c admin id db all = rw (users-enable_employee c admin id db) (
    written_at-IsSound id (set_status UserStatus.active) db (rostered_at id db)
      (λ e h.
        let r = rostered_at-found id db e h in
        let k = employee_at-found id db e r.0 in (k.0, ground arith))
      all)
