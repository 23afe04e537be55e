-- ===== src/Links/Users.antt =====
-- app/routers/auth.py and app/routers/admin.py: a request on accounts gives a user only rosters
-- that are there.
use office_attendance_backen.Base.{
  ℕ, ◌≡◌, ◌==◌, ◌&&◌, ◌∷◌, [], refl, not, none, some, Option, List, All, All-append, arith, find,
  update_first-keeps, select-All, Option-cases, Bool-cases, inl, inr, Bool,
}
use office_attendance_backen.Model.{Db, Roster, User, UserStatus, user_status_eq}
use office_attendance_backen.World.{World, Clock}
use office_attendance_backen.Session.{request}
use office_attendance_backen.Deps.{log_action}
use office_attendance_backen.Auth.{
  SignupRequest, signup_with, applied, new_user, active_roster, user_by_email,
}
use office_attendance_backen.Admin.{
  Decision, UserDecisionIn, approved_row, rejected_row, set_status, bootstrap_with,
  ensure_admin_user,
}
use office_attendance_backen.Accounts.Soundness.{
  employee_at, rostered_at, written_at, users-disable_employee, users-enable_employee,
}
use office_attendance_backen.Accounts.Calls.{
  Call, sign_up, decide_on, disable, enable, delete, bootstrap, perform, granted, approvable,
  pending_at, approval, users-decide_approve, users-decide_reject, rows_without,
  users-delete_employee, requested_roster, signup_end, db-signup,
}
use office_attendance_backen.Links.{HasRoster, IsUserLinked}

-- A roster that a lookup by any test found is there under its id.
found-HasRoster :
    (p : Roster → Bool) (rows : List Roster) (r : Roster)
    → find p rows ≡ some r
    → HasRoster rows (some r.id)
found-HasRoster p [] r h = cc
found-HasRoster p (x ∷ rows) r h = elim (Bool-cases (p x)) [
  | inl t ↦ ground arith
  | inr e ↦ ground (arith, found-HasRoster p rows r)
]

active_roster-found :
    (id : ℕ) (db : Db) (r : Roster)
    → active_roster id db ≡ some r
    → HasRoster db.rosters.rows (some r.id)
active_roster-found id db r h =
    elim (Option-cases (find (λ (x : Roster). x.id == id) db.rosters.rows)) [
      | inl absent ↦ ground arith
      | inr (x, found) ↦ found-HasRoster (λ x. x.id == id) db.rosters.rows r (ground arith)
    ]

granted-found :
    (p : UserDecisionIn) (db : Db) (r : Roster)
    → granted p db ≡ some r
    → HasRoster db.rosters.rows (some r.id)
granted-found p db r h = elim (Option-cases p.assigned_roster_id) [
  | inl absent ↦ ground arith
  | inr (id, e) ↦ active_roster-found id db r (ground arith)
]

requested_roster-found :
    (p : SignupRequest) (db : Db) (r : Roster)
    → requested_roster p db ≡ some r
    → HasRoster db.rosters.rows (some r.id)
requested_roster-found p db r h = elim (Option-cases p.requested_roster_id) [
  | inl absent ↦ found-HasRoster (λ x. x.is_default && x.active) db.rosters.rows r (ground arith)
  | inr (id, e) ↦ active_roster-found id db r (ground arith)
]

-- Users who are all linked to `rosters`.
abbrev Linked : List Roster → List User → Type 0
Linked rosters users = All (IsUserLinked rosters) users

written_at-Linked :
    (rosters : List Roster) (f : User → User) (target : Option User) (users : List User)
    → ((u : User) → IsUserLinked rosters u → IsUserLinked rosters (f u))
    → Linked rosters users
    → Linked rosters (written_at f target users)
written_at-Linked rosters f none users keep all = all
written_at-Linked rosters f (some e) users keep all =
    update_first-keeps (IsUserLinked rosters) (λ u. u.id == e.id) f users keep all

rows_without-Linked :
    (rosters : List Roster) (target : Option User) (users : List User)
    → Linked rosters users
    → Linked rosters (rows_without target users)
rows_without-Linked rosters none users all = all
rows_without-Linked rosters (some e) users all =
    select-All (IsUserLinked rosters) (λ u. not (u.id == e.id)) users all

decide_approve-Linked :
    (c : Clock) (admin : User) (p : UserDecisionIn) (db : Db) (target : Option User)
    → Linked db.rosters.rows db.users.rows
    → Linked db.rosters.rows (
        written_at
          (approval c admin p (granted p db))
          (approvable (granted p db) target)
          db.users.rows)
decide_approve-Linked c admin p db target all = elim (Option-cases (granted p db)) [
  | inl refused ↦ rw refused all
  | inr (r, found) ↦ rw found (
      written_at-Linked db.rosters.rows (approved_row c admin p r) target db.users.rows
        (λ u h. (granted-found p db r found, h.1)) all)
]

signup_with-Linked :
    (w : World) (c : Clock) (p : SignupRequest) (r : Roster) (existing : Option User) (db : Db)
    → HasRoster db.rosters.rows (some r.id)
    → Linked db.rosters.rows db.users.rows
    → Linked db.rosters.rows (request (signup_with w c p r existing) db).1.users.rows
unfolding signup_with new_user log_action
signup_with-Linked w c p r none db found all =
    All-append (IsUserLinked db.rosters.rows) db.users.rows _ all ((tt, found), tt)
signup_with-Linked w c p r (some u) db found all =
    elim (Bool-cases (user_status_eq u.status UserStatus.rejected)) [
      | inl t ↦
          rw (t, signup_with)
            (update_first-keeps (IsUserLinked db.rosters.rows) (λ x. x.id == u.id)
              (applied w p r.id) db.users.rows (λ x h. (tt, found)) all)
      | inr t ↦ rw (t, signup_with) all
    ]

signup_end-Linked :
    (w : World) (c : Clock) (p : SignupRequest) (db : Db)
    → Linked db.rosters.rows db.users.rows
    → Linked db.rosters.rows (signup_end w c p db (requested_roster p db)).users.rows
signup_end-Linked w c p db all = elim (Option-cases (requested_roster p db)) [
  | inl absent ↦ rw absent all
  | inr (r, found) ↦ rw found (
      signup_with-Linked w c p r (user_by_email (w.secrets.lower p.email) db) db
        (requested_roster-found p db r found) all)
]

bootstrap_with-Linked :
    (w : World) (c : Clock) (found : Option User) (db : Db)
    → Linked db.rosters.rows db.users.rows
    → Linked db.rosters.rows (request (bootstrap_with w c found) db).1.users.rows
unfolding bootstrap_with
bootstrap_with-Linked w c none db all =
    All-append (IsUserLinked db.rosters.rows) db.users.rows _ all ((tt, tt), tt)
bootstrap_with-Linked w c (some u) db all =
    update_first-keeps (IsUserLinked db.rosters.rows) (λ x. x.id == u.id) _ db.users.rows (λ x h. h)
      all

decide_on-Linked :
    (c : Clock) (admin : User) (id : ℕ) (p : UserDecisionIn) (db : Db) (w : World)
    (action : Decision)
    → p.action ≡ action
    → Linked db.rosters.rows db.users.rows
    → Linked db.rosters.rows (perform w (decide_on c admin id p) db).users.rows
unfolding perform
decide_on-Linked c admin id p db w Decision.approve e all =
    rw (users-decide_approve c admin id p db e)
      (decide_approve-Linked c admin p db (pending_at id db) all)
decide_on-Linked c admin id p db w Decision.reject e all =
    rw (users-decide_reject c admin id p db e) (
      written_at-Linked db.rosters.rows (rejected_row p) (pending_at id db) db.users.rows
        (λ u h. (tt, h.1)) all)

pub perform-Linked :
    (w : World) (call : Call) (db : Db)
    → All (IsUserLinked db.rosters.rows) db.users.rows
    → All (IsUserLinked db.rosters.rows) (perform w call db).users.rows
unfolding perform ensure_admin_user
perform-Linked w (sign_up c p) db all = rw (db-signup w c p db) (signup_end-Linked w c p db all)
perform-Linked w (decide_on c admin id p) db all =
    decide_on-Linked c admin id p db w p.action refl all
perform-Linked w (disable c admin id) db all = rw (users-disable_employee c admin id db) (
    written_at-Linked db.rosters.rows (set_status UserStatus.disabled) (employee_at id db)
      db.users.rows (λ u h. h) all)
perform-Linked w (enable c admin id) db all = rw (users-enable_employee c admin id db) (
    written_at-Linked db.rosters.rows (set_status UserStatus.active) (rostered_at id db)
      db.users.rows (λ u h. h) all)
perform-Linked w (delete c admin id) db all =
    rw (users-delete_employee c admin id db)
      (rows_without-Linked db.rosters.rows (employee_at id db) db.users.rows all)
perform-Linked w (bootstrap c) db all =
    bootstrap_with-Linked w c (user_by_email (w.secrets.lower w.settings.admin_email) db) db all
