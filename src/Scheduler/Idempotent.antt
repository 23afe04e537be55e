-- ===== src/Scheduler/Idempotent.antt =====
-- app/nightly_service.py and app/scheduler.py: running the nightly job again changes no row, its
-- statistics account for every employee, and it never marks anybody absent.
use office_attendance_backen.Base.{
  ℕ, ◌≡◌, ◌∙◌, refl, sym, ap, subst, true, Option, none, some, List, [], ◌∷◌, arith, is_some,
  select, count_where, length, if◌then◌else◌, Bool-cases, Option-cases, inl, inr,
}
use office_attendance_backen.Time.{Instant, Date, Zones, now_utc}
use office_attendance_backen.Model.{Db, DayStatus, Table, User}
use office_attendance_backen.World.{World}
use office_attendance_backen.Session.{Session, internal}
use office_attendance_backen.Presence.{elem_ℕ}
use office_attendance_backen.Presence.Writer.{day_of}
use office_attendance_backen.Attendance.{assigned_roster, zoned_office}
use office_attendance_backen.Nightly.{Stats, no_stats, is_active_employee, run_nightly_resolution}
use office_attendance_backen.Scheduler.{
  Outcome, skipped, done, failed, settle, run_locked, get_time_override, job_nightly, lock_nightly,
}
use office_attendance_backen.Nightly.Again.{
  has_status, by_admin, run_rounds-not_new, run_rounds_settles, rows-run_rounds_settled,
}
use office_attendance_backen.Nightly.Totals.{total, total-run_rounds}
use office_attendance_backen.Nightly.Rounds.{
  Round, rounds, run_rounds, run_rounds-keeps, resolve_all-rounds, resolve_all_no_rounds,
  rounds-SameStaff, resolve_day-SameStaff, SameStaff,
}

abbrev job_result : Zones → Instant → Db → Option (List Round) → Outcome Stats × Db
job_result z now db none = (failed internal, db)
job_result z now db (some rs) = let (st, db') = run_rounds z now rs no_stats db in (done st, db')

-- The nightly job is a transaction. If the lock is held elsewhere it is skipped. If some roster in use
-- has no office, or one of an unknown zone, it fails. In both cases the database is what it was. Otherwise it is done, and the
-- database is the fold of `resolve_day` over the active employees that have a roster.
pub job_nightly_transaction :
    (w : World) (held : List ℕ) (clock : Instant) (db : Db)
    → job_nightly w held clock db ≡ (
        if elem_ℕ lock_nightly held
        then (skipped, db)
        else job_result w.zones
            (now_utc (get_time_override w db) clock)
            db
            (rounds w.zones (select is_active_employee db.users.rows) db))
unfolding job_nightly run_locked settle run_nightly_resolution
job_nightly_transaction w held clock db =
    let emps = select is_active_employee db.users.rows in
    let now = now_utc (get_time_override w db) clock in
    let s : Session = record { durable = db; current = db } in
    elim (Option-cases (rounds w.zones emps db)) [
      | inl e ↦ ground (arith, resolve_all_no_rounds w.zones now emps no_stats s e)
      | inr (rs, e) ↦ ground (arith, resolve_all-rounds w.zones now emps no_stats s rs e)
    ]

override_same :
    (w : World) (a b : Db)
    → a.time_override ≡ b.time_override
    → get_time_override w a ≡ get_time_override w b
unfolding get_time_override
override_same w a b e = rw e

module _ (w : World) (clock : Instant) (db : Db) (rs : List Round)
    (found : rounds w.zones (select is_active_employee db.users.rows) db ≡ some rs) where
  abbrev moment : Instant
  moment = now_utc (get_time_override w db) clock

  abbrev after : Db
  after = (run_rounds w.zones moment rs no_stats db).1

  after-SameStaff : SameStaff after db
  after-SameStaff =
      run_rounds-keeps w.zones moment (λ x. SameStaff x db)
        (λ a r o st x. resolve_day-SameStaff w.zones moment db a r o st x) rs no_stats db
        (refl, refl, refl, refl)

  after-rounds : rounds w.zones (select is_active_employee after.users.rows) after ≡ some rs
  after-rounds =
      ap (λ (t : Table User). rounds w.zones (select is_active_employee t.rows) after)
        after-SameStaff.0
      ∙ rounds-SameStaff w.zones (select is_active_employee db.users.rows) after db after-SameStaff
      ∙ found

  after-moment : now_utc (get_time_override w after) clock ≡ moment
  after-moment = ap (λ o. now_utc o clock) (override_same w after db after-SameStaff.3)

  job_nightly-again :
      (held : List ℕ) → (job_nightly w held clock after).1.days.rows ≡ after.days.rows
  job_nightly-again held =
      rw (job_nightly_transaction w held clock after)
        (elim (Bool-cases (elem_ℕ lock_nightly held)) [
          | inl t ↦ rw t
          | inr t ↦
              rw (t, after-rounds, after-moment)
                (rows-run_rounds_settled w.zones moment rs no_stats after
                  (run_rounds_settles w.zones moment rs no_stats db))
        ])

-- Running the nightly job a second time at the same moment changes no attendance row: if a first run
-- is done, then whatever locks are held at the second, it leaves the rows of the first.
pub job_nightly_twice :
    (w : World) (held held' : List ℕ) (clock : Instant) (db db' : Db) (stats : Stats)
    → job_nightly w held clock db ≡ (done stats, db')
    → (job_nightly w held' clock db').1.days.rows ≡ db'.days.rows
job_nightly_twice w held held' clock db db' stats h =
    let spec = job_nightly_transaction w held clock db in
    elim (Bool-cases (elem_ℕ lock_nightly held)) [
      | inl t ↦ ground (arith, spec)
      | inr t ↦ elim (Option-cases (rounds w.zones (select is_active_employee db.users.rows) db)) [
        | inl e ↦ ground (arith, spec)
        | inr (rs, e) ↦
            subst (λ x. (job_nightly w held' clock x).1.days.rows ≡ x.days.rows)
              (ap (λ x. x.1) (sym (rw (t, e) at spec) ∙ h))
              (job_nightly-again w clock db rs e held')
      ]
    ]

pub length-rounds :
    (z : Zones) (emps : List User) (db : Db) (rs : List Round)
    → rounds z emps db ≡ some rs
    → length rs ≡ count_where (λ e. is_some (assigned_roster e db)) emps
unfolding rounds
length-rounds z [] db rs h = ground arith
length-rounds z (emp ∷ emps) db rs h = elim (Option-cases (assigned_roster emp db)) [
  | inl e ↦ ground (arith, length-rounds z emps db rs)
  | inr (r, e) ↦ elim (Option-cases (zoned_office z r db)) [
    | inl eo ↦ ground arith
    | inr (o, eo) ↦ elim (Option-cases (rounds z emps db)) [
      | inl none_left ↦ ground arith
      | inr (xs, ex) ↦ ground (arith, length-rounds z emps db xs ex)
    ]
  ]
]

-- When the nightly job is done, its four counters add up to the number of active employees that have
-- a roster: each is counted once.
pub total-job_nightly :
    (w : World) (held : List ℕ) (clock : Instant) (db db' : Db) (stats : Stats)
    → job_nightly w held clock db ≡ (done stats, db')
    → total stats
      ≡ count_where (λ e. is_some (assigned_roster e db)) (select is_active_employee db.users.rows)
total-job_nightly w held clock db db' stats h =
    let spec = job_nightly_transaction w held clock db in
    let emps = select is_active_employee db.users.rows in
    let now = now_utc (get_time_override w db) clock in
    elim (Bool-cases (elem_ℕ lock_nightly held)) [
      | inl t ↦ ground (arith, spec)
      | inr t ↦ elim (Option-cases (rounds w.zones emps db)) [
        | inl e ↦ ground (arith, spec)
        | inr (rs, e) ↦ ground (
          arith,
          spec,
          total-run_rounds w.zones now rs no_stats db,
          length-rounds w.zones emps db rs e,
        )
      ]
    ]

-- The nightly job marks nobody absent or on leave: a user and date that is absent (or on leave) after
-- it, however it ended, was absent (or on leave) before it.
pub job_nightly_never_absent :
    (s : DayStatus) (w : World) (held : List ℕ) (clock : Instant) (u : ℕ) (d : Date) (db : Db)
    → by_admin s ≡ true
    → has_status s (day_of u d (job_nightly w held clock db).1) ≡ true
    → has_status s (day_of u d db) ≡ true
job_nightly_never_absent s w held clock u d db admin h =
    let spec = job_nightly_transaction w held clock db in
    let now = now_utc (get_time_override w db) clock in
    elim (Bool-cases (elem_ℕ lock_nightly held)) [
      | inl t ↦ rw (spec, t) at h
      | inr t ↦ elim (Option-cases (rounds w.zones (select is_active_employee db.users.rows) db)) [
        | inl e ↦ rw (spec, t, e) at h
        | inr (rs, e) ↦
            run_rounds-not_new s admin u d w.zones now rs no_stats db (rw (spec, t, e) at h)
      ]
    ]
