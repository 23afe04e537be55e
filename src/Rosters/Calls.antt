-- ===== src/Rosters/Calls.antt =====
-- app/routers/rosters.py: the invariant of rosters under `update_roster` and `delete_roster`, and
-- under any sequence of requests.
use office_attendance_backen.Base.{
  ℕ, ◌<◌, ◌==◌, ◌&&◌, ◌||◌, ◌≡◌, ◌⊎◌, refl, sym, subst, Bool, true, false, not, Option, none, some,
  List, [], ◌∷◌, All, arith, ltb, leb, find, find-passes, find-All, update_first, update_first-All,
  select, select-All, ==_iff, Bool-cases, Option-cases, inl, inr, if◌then◌else◌,
}
use office_attendance_backen.Model.{Db, Roster, User}
use office_attendance_backen.World.{Clock}
use office_attendance_backen.Session.{request}
use office_attendance_backen.Deps.{log_action}
use office_attendance_backen.Rosters.{
  RosterCreate, RosterUpdate, get_roster, clear_other_defaults, create_roster, lacks_office,
  violates_not_null, merged_roster, update_roster, users_of, delete_roster,
}
use office_attendance_backen.Patch.{is_null, value_or}
use office_attendance_backen.Rosters.Defaults.{
  IsRosterAt, RostersOk, RowsOk, IsTimed, IsTimed-IsRosterAt, cleared-All, settled_rows,
  create_roster-RostersOk,
}

-- The conditions under which a PATCH of `r` is written.
abbrev pub accepted : RosterUpdate → Roster → Db → Bool
accepted p r db =
    not (is_null p.start_time || is_null p.end_time)
    && ltb (merged_roster p r).start_time (merged_roster p r).end_time
    && not (lacks_office p.office_id db)
    && not (violates_not_null p)

abbrev pub patched_rows : RosterUpdate → Db → Option Roster → List Roster
patched_rows p db none = db.rosters.rows
patched_rows p db (some r) =
    if accepted p r db
    then settled_rows (value_or false p.is_default) r.id
        (update_first (λ x. x.id == r.id) (merged_roster p) db.rosters.rows)
    else db.rosters.rows

pub rows-update_roster :
    (c : Clock) (admin : User) (id : ℕ) (p : RosterUpdate) (db : Db)
    → (request (update_roster c admin id p) db).1.rosters.rows
      ≡ patched_rows p db (find (λ r. r.id == id) db.rosters.rows)
unfolding update_roster get_roster clear_other_defaults log_action
rows-update_roster c admin id p db =
    elim (Option-cases (find (λ (r : Roster). r.id == id) db.rosters.rows)) [
      | inl absent ↦ ground arith
      | inr (r, found) ↦ elim (Bool-cases (is_null p.start_time || is_null p.end_time)) [
        | inl t ↦ ground arith
        | inr timed ↦
            elim (Bool-cases (leb (merged_roster p r).end_time (merged_roster p r).start_time)) [
              | inl t ↦ ground arith
              | inr later ↦ ground arith
            ]
      ]
    ]

merged_roster-IsRosterAt :
    (p : RosterUpdate) (k : ℕ) (r : Roster)
    → value_or false p.is_default ≡ false
    → (merged_roster p r).start_time < (merged_roster p r).end_time
    → IsRosterAt k r
    → IsRosterAt k (merged_roster p r)
merged_roster-IsRosterAt p k r e timed h = ground arith

patched-RowsOk :
    (p : RosterUpdate) (id k : ℕ) (rows : List Roster) (r : Roster) (b : Bool)
    → value_or false p.is_default ≡ b
    → find (λ x. x.id == id) rows ≡ some r
    → (merged_roster p r).start_time < (merged_roster p r).end_time
    → All (IsRosterAt k) rows
    → RowsOk (settled_rows b r.id (update_first (λ x. x.id == id) (merged_roster p) rows))
patched-RowsOk p id k rows r true e found timed all = (
  r.id,
  cleared-All r.id (update_first (λ x. x.id == id) (merged_roster p) rows) (
      update_first-All IsTimed (λ x. x.id == id) (merged_roster p) rows r found timed
        (IsTimed-IsRosterAt k rows all)),
)
patched-RowsOk p id k rows r false e found timed all = (
  k,
  update_first-All (IsRosterAt k) (λ x. x.id == id) (merged_roster p) rows r found
      (merged_roster-IsRosterAt p k r e timed
        (find-All (IsRosterAt k) (λ x. x.id == id) rows r all found))
      all,
)

update_roster-RostersOk :
    (c : Clock) (admin : User) (id : ℕ) (p : RosterUpdate) (db : Db)
    → RostersOk db
    → RostersOk (request (update_roster c admin id p) db).1
update_roster-RostersOk c admin id p db (k, all) =
    rw (rows-update_roster c admin id p db)
      (elim (Option-cases (find (λ (r : Roster). r.id == id) db.rosters.rows)) [
        | inl absent ↦ rw absent (k, all)
        | inr (r, found) ↦
            let same = (==_iff r.id id).0 (find-passes (λ x. x.id == id) db.rosters.rows r found) in
            elim (Bool-cases (accepted p r db)) [
              | inr refused ↦ rw (found, refused) (k, all)
              | inl granted ↦
                  rw (found, granted)
                    (subst
                      (λ n. RowsOk (
                        settled_rows (value_or false p.is_default) r.id
                          (update_first (λ x. x.id == n) (merged_roster p) db.rosters.rows)))
                      (sym same)
                      (patched-RowsOk p id k db.rosters.rows r (value_or false p.is_default) refl
                        found (ground arith) all))
            ]
      ])

pub rows-delete_roster :
    (c : Clock) (admin : User) (id : ℕ) (db : Db)
    → ((request (delete_roster c admin id) db).1.rosters.rows ≡ db.rosters.rows)
      ⊎ ((n : ℕ) × ((request (delete_roster c admin id) db).1.rosters.rows
            ≡ select (λ r. not (r.id == n)) db.rosters.rows))
unfolding delete_roster get_roster log_action
rows-delete_roster c admin id db =
    elim (Option-cases (find (λ (r : Roster). r.id == id) db.rosters.rows)) [
      | inl absent ↦ inl (ground arith)
      | inr (r, found) ↦ elim (Bool-cases (ltb 0 (users_of id db))) [
        | inl used ↦ inl (ground arith)
        | inr free ↦ inr (r.id, ground arith)
      ]
    ]

delete_roster-RostersOk :
    (c : Clock) (admin : User) (id : ℕ) (db : Db)
    → RostersOk db
    → RostersOk (request (delete_roster c admin id) db).1
delete_roster-RostersOk c admin id db (k, all) = elim (rows-delete_roster c admin id db) [
  | inl same ↦ rw same (k, all)
  | inr (n, e) ↦ rw e (k, select-All (IsRosterAt k) (λ r. not (r.id == n)) db.rosters.rows all)
]

-- A request on rosters.
pub data RosterCall : Type 0 where
  create : Clock → User → RosterCreate → RosterCall
  update : Clock → User → ℕ → RosterUpdate → RosterCall
  delete : Clock → User → ℕ → RosterCall

unfoldable pub run_call : RosterCall → Db → Db
run_call (create c admin p) db = (request (create_roster c admin p) db).1
run_call (update c admin id p) db = (request (update_roster c admin id p) db).1
run_call (delete c admin id) db = (request (delete_roster c admin id) db).1

unfoldable pub run_calls : List RosterCall → Db → Db
unfolding run_call
run_calls [] db = db
run_calls (call ∷ calls) db = run_calls calls (run_call call db)

run_call-RostersOk : (call : RosterCall) (db : Db) → RostersOk db → RostersOk (run_call call db)
unfolding run_call
run_call-RostersOk (create c admin p) db ok_before = create_roster-RostersOk c admin p db ok_before
run_call-RostersOk (update c admin id p) db ok_before =
    update_roster-RostersOk c admin id p db ok_before
run_call-RostersOk (delete c admin id) db ok_before =
    delete_roster-RostersOk c admin id db ok_before

-- Whatever requests on rosters come, accepted or refused: if every shift ends after it starts and all
-- default rosters have one id, then so it is after them.
pub run_calls-RostersOk :
    (calls : List RosterCall) (db : Db) → RostersOk db → RostersOk (run_calls calls db)
unfolding run_calls
run_calls-RostersOk [] db ok_before = ok_before
run_calls-RostersOk (call ∷ calls) db ok_before =
    run_calls-RostersOk calls (run_call call db) (run_call-RostersOk call db ok_before)
