-- ===== src/Links/Nightly.antt =====
-- app/scheduler.py `job_nightly` on a database that requests have made.
use office_attendance_backen.Base.{
  ℕ, ◌≡◌, ◌==◌, ◌∙◌, refl, subst, true, false, some, is_some, List, [], ◌∷◌, All, select, find-All,
  count_where, arith, Bool-cases, Option-cases, inl, inr,
}
use office_attendance_backen.Time.{Instant, Zones, now_utc}
use office_attendance_backen.Model.{Db, Office, Roster, User}
use office_attendance_backen.World.{World}
use office_attendance_backen.Presence.{elem_ℕ}
use office_attendance_backen.Attendance.{assigned_roster, office_of, zoned_office}
use office_attendance_backen.Nightly.{Stats, is_active_employee, no_stats}
use office_attendance_backen.Nightly.Rounds.{Round, rounds, run_rounds}
use office_attendance_backen.Nightly.Totals.{total}
use office_attendance_backen.Scheduler.{done, job_nightly, lock_nightly, get_time_override}
use office_attendance_backen.Scheduler.Idempotent.{job_nightly_transaction, total-job_nightly}
use office_attendance_backen.Accounts.Soundness.{IsSound, AllSound, IsSound-active}
use office_attendance_backen.Links.{HasRoster, IsUserLinked, IsRosterLinked, IsLinked}
use office_attendance_backen.Accounts.Calls.{perform}
use office_attendance_backen.Rosters.Calls.{run_call as run_roster}
use office_attendance_backen.Offices.Addresses.{IsOfficeOk, OfficesOk}
use office_attendance_backen.Offices.Calls.{run_call as run_office, run_call-OfficesOk}
use office_attendance_backen.Links.Frames.{perform-keeps_sites, run_roster-keeps_users}
use office_attendance_backen.Links.Calls.{
  Change, on_account, on_roster, on_office, apply, apply_all, apply_all-IsLinked,
  apply_all-AllSound,
}

zoned_office-known :
    (z : Zones) (r : Roster) (db : Db) (o : Office)
    → office_of r db ≡ some o
    → z.is_known o.timezone ≡ true
    → zoned_office z r db ≡ some o
zoned_office-known z r db o found known = ground arith

zoned_office-IsLinked :
    (w : World) (u : User) (db : Db) (r : Roster)
    → OfficesOk w db
    → All (IsRosterLinked db.offices.rows) db.rosters.rows
    → assigned_roster u db ≡ some r
    → (o : Office) × (zoned_office w.zones r db ≡ some o)
zoned_office-IsLinked w u db r offices all h = elim (Option-cases u.assigned_roster_id) [
  | inl absent ↦ cc
  | inr (id, e) ↦
      let linked : IsRosterLinked db.offices.rows r =
        find-All (IsRosterLinked db.offices.rows) (λ x. x.id == id) db.rosters.rows r all
          (ground arith) in
      elim (Option-cases (office_of r db)) [
        | inl gone ↦ ground arith
        | inr (o, found) ↦
            let sound =
              find-All (IsOfficeOk w) (λ x. x.id == r.office_id) db.offices.rows o offices found in
            (o, zoned_office-known w.zones r db o found sound.0)
      ]
]

rounds-IsLinked :
    (w : World) (emps : List User) (db : Db)
    → OfficesOk w db
    → All (IsRosterLinked db.offices.rows) db.rosters.rows
    → (rs : List Round) × (rounds w.zones emps db ≡ some rs)
unfolding rounds
rounds-IsLinked w [] db offices all = ([], refl)
rounds-IsLinked w (emp ∷ emps) db offices all =
    let (rest, e) = rounds-IsLinked w emps db offices all in
    elim (Option-cases (assigned_roster emp db)) [
      | inl absent ↦ (rest, ground arith)
      | inr (r, er) ↦
          let (o, eo) = zoned_office-IsLinked w emp db r offices all er in
          ((emp.id, r, o) ∷ rest, ground arith)
    ]

-- A sound active employee whose roster is there has it assigned.
rostered_employee :
    (u : User) (db : Db)
    → IsSound u
    → IsUserLinked db.rosters.rows u
    → is_active_employee u ≡ true
    → is_some (assigned_roster u db) ≡ true
rostered_employee u db sound linked active = elim (Option-cases u.assigned_roster_id) [
  | inl absent ↦ ground (arith, IsSound-active u sound active)
  | inr (id, e) ↦
      let there : HasRoster db.rosters.rows (some id) =
        subst (HasRoster db.rosters.rows) e linked.0 in
      rw e there
]

count-rostered :
    (users : List User) (db : Db)
    → All IsSound users
    → All (IsUserLinked db.rosters.rows) users
    → count_where (λ e. is_some (assigned_roster e db)) (select is_active_employee users)
      ≡ count_where is_active_employee users
count-rostered [] db sound linked = refl
count-rostered (u ∷ users) db sound linked =
    let rest = count-rostered users db sound.1 linked.1 in
    elim (Bool-cases (is_active_employee u)) [
      | inr other ↦ ground (arith, rest)
      | inl active ↦ ground (arith, rest, rostered_employee u db sound.0 linked.0 active)
    ]

apply_all-OfficesOk :
    (w : World) (changes : List Change) (db : Db)
    → OfficesOk w db
    → OfficesOk w (apply_all w changes db)
unfolding apply_all apply
apply_all-OfficesOk w [] db h = h
apply_all-OfficesOk w (on_account call ∷ changes) db h =
    apply_all-OfficesOk w changes (perform w call db) (rw (perform-keeps_sites w call db).1 h)
apply_all-OfficesOk w (on_roster call ∷ changes) db h =
    apply_all-OfficesOk w changes (run_roster call db) (rw (run_roster-keeps_users call db).1 h)
apply_all-OfficesOk w (on_office call ∷ changes) db h =
    apply_all-OfficesOk w changes (run_office w call db) (run_call-OfficesOk w call db h)

-- Whatever requests on accounts, rosters and offices have come to a database with sound accounts, no
-- dangling references, and offices with known zones and canonical, public and distinct addresses: if
-- its lock is free, the nightly job is done, its lookups of offices and zones without an exception, and
-- its counters add up to the number of all active employees.
pub job_nightly_complete :
    (w : World) (changes : List Change) (held : List ℕ) (clock : Instant) (db : Db)
    → AllSound db
    → IsLinked db
    → OfficesOk w db
    → elem_ℕ lock_nightly held ≡ false
    → (stats : Stats) × ((job_nightly w held clock (apply_all w changes db)).0 ≡ done stats)
      × (total stats ≡ count_where is_active_employee (apply_all w changes db).users.rows)
job_nightly_complete w changes held clock db sound linked offices free =
    let db' = apply_all w changes db in
    let now = now_utc (get_time_override w db') clock in
    let links = apply_all-IsLinked w changes db linked in
    let emps = select is_active_employee db'.users.rows in
    let (rs, e) = rounds-IsLinked w emps db' (apply_all-OfficesOk w changes db offices) links.1 in
    let run = run_rounds w.zones now rs no_stats db' in
    let whole : job_nightly w held clock db' ≡ (done run.0, run.1) =
      job_nightly_transaction w held clock db' ∙ rw (free, e) in
    (
      run.0,
      rw whole refl,
      total-job_nightly w held clock db' run.1 run.0 whole
          ∙ count-rostered db'.users.rows db' (apply_all-AllSound w changes db sound) links.0,
    )
