-- ===== src/Accounts/Calls.antt =====
-- Deciding, deleting, signing up and the bootstrap keep accounts sound; so does any sequence of
-- requests on accounts.
use office_attendance_backen.Base.{
  ℕ, ◌==◌, ◌&&◌, ◌≡◌, refl, Option, none, some, List, [], ◌∷◌, All, arith, find, select,
  update_first, update_first-All, update_first_absent, select-All, All-append, if◌then◌else◌,
  Bool-cases, Option-cases, inl, inr, not,
}
use office_attendance_backen.Model.{User, UserStatus, Db, user_status_eq, Roster}
use office_attendance_backen.World.{World, Clock}
use office_attendance_backen.Session.{request}
use office_attendance_backen.Deps.{log_action}
use office_attendance_backen.Auth.{
  SignupRequest, resolve_requested_roster, signup_with, signup, new_user, applied, active_roster,
  user_by_email,
}
use office_attendance_backen.Admin.{
  Decision, UserDecisionIn, get_employee, require_active_roster, approved_row, rejected_row, decide,
  decide_user, disable_employee, enable_employee, detach_actor, delete_user, delete_employee,
  bootstrap_with, ensure_admin_user,
}
use office_attendance_backen.Accounts.Soundness.{
  IsSound, AllSound, employee_at, employee_at-found, written_at, written_at-IsSound,
  disable_employee-AllSound, enable_employee-AllSound,
}

abbrev pub pending_at : ℕ → Db → Option User
pending_at id db = elim (employee_at id db) [
  | none ↦ none
  | some u ↦ if user_status_eq u.status UserStatus.pending then some u else none
]

pending_at-found :
    (id : ℕ) (db : Db) (e : User) → pending_at id db ≡ some e → employee_at id db ≡ some e
pending_at-found id db e h = elim (Option-cases (employee_at id db)) [
  | inl absent ↦ ground arith
  | inr (u, found) ↦ ground arith
]

abbrev pub granted : UserDecisionIn → Db → Option Roster
granted p db = elim p.assigned_roster_id [ none ↦ none | some id ↦ active_roster id db ]

-- The user that an approval reaches: a pending one, if the roster that it grants is active.
abbrev pub approvable : Option Roster → Option User → Option User
approvable none target = none
approvable (some roster) target = target

abbrev pub approval : Clock → User → UserDecisionIn → Option Roster → User → User
approval c admin p none u = u
approval c admin p (some roster) u = approved_row c admin p roster u

pub users-decide_approve :
    (c : Clock) (admin : User) (id : ℕ) (p : UserDecisionIn) (db : Db)
    → p.action ≡ Decision.approve
    → (request (decide_user c admin id p) db).1.users.rows
      ≡ written_at
          (approval c admin p (granted p db))
          (approvable (granted p db) (pending_at id db))
          db.users.rows
unfolding decide_user get_employee decide require_active_roster log_action
users-decide_approve c admin id p db e = elim (Option-cases p.assigned_roster_id) [
  | inl absent ↦ ground arith
  | inr (rid, found) ↦ elim (Option-cases (active_roster rid db)) [
    | inl inactive ↦ ground arith
    | inr (roster, r) ↦ ground arith
  ]
]

pub users-decide_reject :
    (c : Clock) (admin : User) (id : ℕ) (p : UserDecisionIn) (db : Db)
    → p.action ≡ Decision.reject
    → (request (decide_user c admin id p) db).1.users.rows
      ≡ written_at (rejected_row p) (pending_at id db) db.users.rows
unfolding decide_user get_employee decide log_action
users-decide_reject c admin id p db e = ground arith

decide_user-AllSound :
    (c : Clock) (admin : User) (id : ℕ) (p : UserDecisionIn) (db : Db) (action : Decision)
    → p.action ≡ action
    → AllSound db
    → AllSound (request (decide_user c admin id p) db).1
decide_user-AllSound c admin id p db Decision.reject e all =
    rw (users-decide_reject c admin id p db e) (
      written_at-IsSound id (rejected_row p) db (pending_at id db)
        (λ u h.
          let k = employee_at-found id db u (pending_at-found id db u h) in (k.0, ground arith))
        all)
decide_user-AllSound c admin id p db Decision.approve e all =
    rw (users-decide_approve c admin id p db e) (elim (Option-cases (granted p db)) [
      | inl refused ↦ rw refused all
      | inr (roster, r) ↦ rw r (
          written_at-IsSound id (approved_row c admin p roster) db (pending_at id db)
            (λ u h.
              let k = employee_at-found id db u (pending_at-found id db u h) in (k.0, ground arith))
            all)
    ])

abbrev pub rows_without : Option User → List User → List User
rows_without none rows = rows
rows_without (some e) rows = select (λ u. not (u.id == e.id)) rows

pub users-delete_employee :
    (c : Clock) (admin : User) (id : ℕ) (db : Db)
    → (request (delete_employee c admin id) db).1.users.rows
      ≡ rows_without (employee_at id db) db.users.rows
unfolding delete_employee get_employee delete_user detach_actor log_action
users-delete_employee c admin id db = ground arith

rows_without-IsSound :
    (target : Option User) (rows : List User)
    → All IsSound rows
    → All IsSound (rows_without target rows)
rows_without-IsSound none rows all = all
rows_without-IsSound (some e) rows all = select-All IsSound (λ u. not (u.id == e.id)) rows all

delete_employee-AllSound :
    (c : Clock) (admin : User) (id : ℕ) (db : Db)
    → AllSound db
    → AllSound (request (delete_employee c admin id) db).1
delete_employee-AllSound c admin id db all =
    rw (users-delete_employee c admin id db)
      (rows_without-IsSound (employee_at id db) db.users.rows all)

-- A write that makes any row sound.
AllSound-any :
    (k : ℕ) (f : User → User) (rows : List User)
    → ((u : User) → IsSound (f u))
    → All IsSound rows
    → All IsSound (update_first (λ u. u.id == k) f rows)
AllSound-any k f rows new all = elim (Option-cases (find (λ (u : User). u.id == k) rows)) [
  | inl absent ↦ rw (update_first_absent (λ u. u.id == k) f rows absent) all
  | inr (e, found) ↦ update_first-All IsSound (λ u. u.id == k) f rows e found (new e) all
]

applied-IsSound : (w : World) (p : SignupRequest) (rid : ℕ) (u : User) → IsSound (applied w p rid u)
applied-IsSound w p rid u = ground arith

signup_with-AllSound :
    (w : World) (c : Clock) (p : SignupRequest) (roster : Roster) (existing : Option User) (db : Db)
    → AllSound db
    → AllSound (request (signup_with w c p roster existing) db).1
unfolding signup_with new_user log_action
signup_with-AllSound w c p roster none db all = All-append IsSound db.users.rows _ all (refl, tt)
signup_with-AllSound w c p roster (some u) db all =
    elim (Bool-cases (user_status_eq u.status UserStatus.rejected)) [
      | inl t ↦
          rw (t, signup_with)
            (AllSound-any u.id (applied w p roster.id) db.users.rows (applied-IsSound w p roster.id)
              all)
      | inr t ↦ rw (t, signup_with) all
    ]

bootstrap_with-AllSound :
    (w : World) (c : Clock) (found : Option User) (db : Db)
    → AllSound db
    → AllSound (request (bootstrap_with w c found) db).1
unfolding bootstrap_with
bootstrap_with-AllSound w c none db all = All-append IsSound db.users.rows _ all (refl, tt)
bootstrap_with-AllSound w c (some u) db all = AllSound-any u.id _ db.users.rows (λ x. refl) all

abbrev pub requested_roster : SignupRequest → Db → Option Roster
requested_roster p db = elim p.requested_roster_id [
  | none ↦ find (λ r. r.is_default && r.active) db.rosters.rows
  | some id ↦ active_roster id db
]

abbrev pub signup_end : World → Clock → SignupRequest → Db → Option Roster → Db
signup_end w c p db none = db
signup_end w c p db (some roster) =
    (request (signup_with w c p roster (user_by_email (w.secrets.lower p.email) db)) db).1

pub db-signup :
    (w : World) (c : Clock) (p : SignupRequest) (db : Db)
    → (request (signup w c p) db).1 ≡ signup_end w c p db (requested_roster p db)
unfolding signup resolve_requested_roster
db-signup w c p db = elim (Option-cases p.requested_roster_id) [
  | inl absent ↦ ground arith
  | inr (id, named) ↦ ground arith
]

signup_end-AllSound :
    (w : World) (c : Clock) (p : SignupRequest) (db : Db) (roster : Option Roster)
    → AllSound db
    → AllSound (signup_end w c p db roster)
signup_end-AllSound w c p db none all = all
signup_end-AllSound w c p db (some roster) all =
    signup_with-AllSound w c p roster (user_by_email (w.secrets.lower p.email) db) db all

-- A request on accounts, with the readings of the clock and the admin who makes it.
pub data Call : Type 0 where
  sign_up : Clock → SignupRequest → Call
  decide_on : Clock → User → ℕ → UserDecisionIn → Call
  disable enable delete : Clock → User → ℕ → Call
  bootstrap : Clock → Call

-- The database that a request leaves.
unfoldable pub perform : World → Call → Db → Db
perform w (sign_up c p) db = (request (signup w c p) db).1
perform w (decide_on c admin id p) db = (request (decide_user c admin id p) db).1
perform w (disable c admin id) db = (request (disable_employee c admin id) db).1
perform w (enable c admin id) db = (request (enable_employee c admin id) db).1
perform w (delete c admin id) db = (request (delete_employee c admin id) db).1
perform w (bootstrap c) db = (request (ensure_admin_user w c) db).1

unfoldable pub perform_all : World → List Call → Db → Db
unfolding perform
perform_all w [] db = db
perform_all w (call ∷ calls) db = perform_all w calls (perform w call db)

pub perform-AllSound :
    (w : World) (call : Call) (db : Db) → AllSound db → AllSound (perform w call db)
unfolding perform ensure_admin_user
perform-AllSound w (sign_up c p) db all =
    rw (db-signup w c p db) (signup_end-AllSound w c p db (requested_roster p db) all)
perform-AllSound w (decide_on c admin id p) db all =
    decide_user-AllSound c admin id p db p.action refl all
perform-AllSound w (disable c admin id) db all = disable_employee-AllSound c admin id db all
perform-AllSound w (enable c admin id) db all = enable_employee-AllSound c admin id db all
perform-AllSound w (delete c admin id) db all = delete_employee-AllSound c admin id db all
perform-AllSound w (bootstrap c) db all =
    bootstrap_with-AllSound w c (user_by_email (w.secrets.lower w.settings.admin_email) db) db all

-- Whatever requests on accounts come, in any order and with any outcome, from sound accounts only sound
-- accounts are reached: an active employee always has a roster, and a pending or rejected one has none.
pub perform_all-AllSound :
    (w : World) (calls : List Call) (db : Db) → AllSound db → AllSound (perform_all w calls db)
unfolding perform_all
perform_all-AllSound w [] db all = all
perform_all-AllSound w (call ∷ calls) db all =
    perform_all-AllSound w calls (perform w call db) (perform-AllSound w call db all)
