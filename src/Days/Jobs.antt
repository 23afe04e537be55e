-- ===== src/Days/Jobs.antt =====
-- app/nightly_service.py, app/scheduler.py and app/routers/debug.py: the jobs keep the table of days.
use office_attendance_backen.Base.{
  ℕ, ◌+◌, ◌-◌, true, Option, none, some, List, [], ◌∷◌, ◌≡◌, refl, arith, All, All-map, find,
  find-All, select, is_none, is_some, or_else, ◌⊎◌, inl, inr, Bool-cases, Option-cases,
  if◌then◌else◌, subst, sym, min,
}
use office_attendance_backen.Time.{Instant, Date, Zones, minutes, weekday, local_date_of, now_utc}
use office_attendance_backen.Model.{Office, Roster, User, AttendanceDay, Db, is_day}
use office_attendance_backen.World.{World}
use office_attendance_backen.Session.{
  Session, Action, Result, ok, err, gets, execute, commit, pure, ◌>>=◌, ◌>>◌,
}
use office_attendance_backen.Presence.{elem_ℕ, shift_bounds}
use office_attendance_backen.Attendance.{assigned_roster, zoned_office}
use office_attendance_backen.Nightly.{
  Closing, closing_of, closings, idle_since, close_all, close_day, run_idle_checkout, Stats,
  no_stats, close_checked_in, resolve_working, resolve_day, resolve_employee, resolve_all,
  run_nightly_resolution, is_active_employee,
}
use office_attendance_backen.Scheduler.{
  run_locked, settle, get_time_override, job_idle_checkout, job_nightly, lock_idle_checkout,
  lock_nightly,
}
use office_attendance_backen.Deps.{require_dev_mode}
use office_attendance_backen.Debug.{request_now, run_nightly, run_idle}
use office_attendance_backen.Days.{DaysOk}
use office_attendance_backen.Days.Tables.{Arrived, All-Arrived}
use office_attendance_backen.Days.Writes.{
  close_day-DaysOk, Arrived-close_day, flag_day-DaysOk, ensure_off_day-DaysOk,
}
use office_attendance_backen.Days.Keeps.{BothOk, Keeps, KeepsDays, Keeps-bind, KeepsDays-bind}

-- A row that is closed for being idle has a check-in.
pub closing_of-arrived :
    (z : Zones) (cutoff : Instant) (db : Db) (d : AttendanceDay) (c : Closing)
    → closing_of z cutoff db d ≡ some c
    → (d.id ≡ c.day_id) × (is_some d.check_in ≡ true)
unfolding closing_of idle_since
closing_of-arrived z cutoff db d c h = (ground arith, ground arith)

pub closings_step :
    (z : Zones) (cutoff : Instant) (db : Db) (d : AttendanceDay) (ds : List AttendanceDay)
    (found : Option Closing)
    → closing_of z cutoff db d ≡ found
    → closings z cutoff db (d ∷ ds)
      ≡ (elim found [ none ↦ closings z cutoff db ds | some c ↦ c ∷ closings z cutoff db ds ])
unfolding closings
closings_step z cutoff db d ds none e = ground arith
closings_step z cutoff db d ds (some c) e = ground arith

closings-Arrived :
    (z : Zones) (cutoff : Instant) (db : Db) (rows ds : List AttendanceDay)
    → All (λ d. is_some d.check_in ≡ true → Arrived rows d.id) ds
    → All (λ c. Arrived rows c.day_id) (closings z cutoff db ds)
closings-Arrived z cutoff db rows [] all = unfold closings in tt
closings-Arrived z cutoff db rows (d ∷ ds) all =
    let P : Closing → Type 0 = λ c. Arrived rows c.day_id in
    let rest = closings-Arrived z cutoff db rows ds all.1 in
    elim (Option-cases (closing_of z cutoff db d)) [
      | inl absent ↦ subst (All P) (sym (closings_step z cutoff db d ds none absent)) rest
      | inr (c, e) ↦
          let (same, arrived) = closing_of-arrived z cutoff db d c e in
          subst (All P) (sym (closings_step z cutoff db d ds (some c) e))
            (subst (Arrived rows) same (all.0 arrived), rest)
    ]

close_all-DaysOk :
    (cs : List Closing) (closed : ℕ) (db : Db)
    → All (λ c. Arrived db.days.rows c.day_id) cs
    → DaysOk db.days
    → DaysOk (close_all cs closed db).1.days
unfolding close_all
close_all-DaysOk [] closed db all good = good
close_all-DaysOk (c ∷ cs) closed db all good =
    let after = (close_day c.day_id c.check_out db).1 in
    close_all-DaysOk cs (if (close_day c.day_id c.check_out db).0 then closed + 1 else closed) after
      (All-map _ _ cs (λ c' h. Arrived-close_day c.day_id c.check_out c'.day_id db h) all.1)
      (close_day-DaysOk c.day_id c.check_out db all.0 good)

pub run_idle_checkout-DaysOk :
    (w : World) (now : Instant) (db : Db)
    → DaysOk db.days
    → DaysOk (run_idle_checkout w now db).1.days
unfolding run_idle_checkout
run_idle_checkout-DaysOk w now db good =
    let cutoff = now - minutes w.settings.checkout_idle_minutes in
    close_all-DaysOk (closings w.zones cutoff db db.days.rows) 0 db
      (closings-Arrived w.zones cutoff db db.days.rows db.days.rows
        (All-Arrived db.days.rows good.apart))
      good

resolve_working-DaysOk :
    (u : ℕ) (date : Date) (shift_end : Instant) (found : Option AttendanceDay) (st : Stats)
    (db : Db)
    → find (is_day u date) db.days.rows ≡ found
    → DaysOk db.days
    → DaysOk (resolve_working u date shift_end found st db).1.days
unfolding resolve_working close_checked_in
resolve_working-DaysOk u date shift_end none st db e good = flag_day-DaysOk u date db good
resolve_working-DaysOk u date shift_end (some day) st db e good = elim (Option-cases day.check_in) [
  | inl free ↦ rw free (flag_day-DaysOk u date db good)
  | inr (t, busy) ↦
      let arrived =
        find-All (λ d. is_some d.check_in ≡ true → Arrived db.days.rows d.id) (is_day u date)
          db.days.rows day (All-Arrived db.days.rows good.apart) e (ground arith) in
      elim (Bool-cases (is_none day.check_out)) [
        | inl open_row ↦ rw busy (
            rw open_row
              (close_day-DaysOk day.id (min (or_else day.last_seen t) shift_end) db arrived good))
        | inr closed ↦ rw busy (rw closed good)
      ]
]

resolve_day-DaysOk :
    (z : Zones) (now : Instant) (u : ℕ) (roster : Roster) (office : Office) (st : Stats) (db : Db)
    → DaysOk db.days
    → DaysOk (resolve_day z now u roster office st db).1.days
unfolding resolve_day
resolve_day-DaysOk z now u roster office st db good =
    let date = local_date_of z office.timezone now in
    elim (Bool-cases (elem_ℕ (weekday date) roster.working_days)) [
      | inl t ↦ rw t (
          resolve_working-DaysOk u date (shift_bounds z office roster date).1
            (find (is_day u date) db.days.rows) st db refl good)
      | inr f ↦ rw f (ensure_off_day-DaysOk u date db good)
    ]

module _ (z : Zones) (now : Instant) (emp : User) (st : Stats) (s : Session) where
  resolve_employee_same :
      (assigned_roster emp s.current ≡ none)
        ⊎ ((roster : Roster) × (assigned_roster emp s.current ≡ some roster)
            × (zoned_office z roster s.current ≡ none))
      → (resolve_employee z now emp st s).1 ≡ s
  unfolding resolve_employee
  resolve_employee_same (inl absent) = ground arith
  resolve_employee_same (inr (roster, er, absent)) = ground arith

  resolve_employee_office :
      (roster : Roster) (office : Office)
      → assigned_roster emp s.current ≡ some roster
      → zoned_office z roster s.current ≡ some office
      → (resolve_employee z now emp st s).1
        ≡ record s { current = (resolve_day z now emp.id roster office st s.current).1 }
  unfolding resolve_employee
  resolve_employee_office roster office er eo = ground arith

resolve_employee-Keeps :
    (z : Zones) (now : Instant) (emp : User) (st : Stats) → Keeps (resolve_employee z now emp st)
resolve_employee-Keeps z now emp st s both = elim (Option-cases (assigned_roster emp s.current)) [
  | inl absent ↦ subst BothOk (sym (resolve_employee_same z now emp st s (inl absent))) both
  | inr (roster, er) ↦ elim (Option-cases (zoned_office z roster s.current)) [
    | inl absent ↦
        subst BothOk (sym (resolve_employee_same z now emp st s (inr (roster, er, absent)))) both
    | inr (office, eo) ↦
        subst BothOk (sym (resolve_employee_office z now emp st s roster office er eo))
          (both.0, resolve_day-DaysOk z now emp.id roster office st s.current both.1)
  ]
]

resolve_all-Keeps :
    (z : Zones) (now : Instant) (emps : List User) (st : Stats) → Keeps (resolve_all z now emps st)
unfolding resolve_all
resolve_all-Keeps z now [] st s both = both
resolve_all-Keeps z now (emp ∷ emps) st s both =
    Keeps-bind (resolve_employee z now emp st) (resolve_all z now emps)
      (resolve_employee-Keeps z now emp st) (λ st'. resolve_all-Keeps z now emps st') s both

pub run_nightly_resolution-Keeps :
    (w : World) (now : Instant) → Keeps (run_nightly_resolution w now)
unfolding run_nightly_resolution
run_nightly_resolution-Keeps w now s both =
    resolve_all-Keeps w.zones now (select is_active_employee s.current.users.rows) no_stats s both

-- A route that runs a job by hand.
module _ {ℓ} {A : Type ℓ} (w : World) (clock : Instant) (job : Instant → Action A) where
  abbrev by_hand : Action A
  by_hand = do now ← gets (λ db. request_now w db clock); a ← job now; commit; pure a

  by_hand-KeepsDays :
      ((now : Instant) → Keeps (job now)) → KeepsDays (require_dev_mode w >>= λ _. by_hand)
  unfolding require_dev_mode
  by_hand-KeepsDays keeps =
      KeepsDays-bind (require_dev_mode w) (λ _. by_hand) (λ s. refl)
        (λ _ db good.
          let now = request_now w db clock in
          (Keeps-bind (job now) (λ a. commit >> pure a) (keeps now) (λ a s both. (both.1, both.1))
            (record { durable = db; current = db }) (good, good)).0)

pub run_nightly-KeepsDays : (w : World) (t : Instant) → KeepsDays (run_nightly w t)
unfolding run_nightly
run_nightly-KeepsDays w t =
    by_hand-KeepsDays w t (run_nightly_resolution w) (run_nightly_resolution-Keeps w)

pub run_idle-KeepsDays : (w : World) (t : Instant) → KeepsDays (run_idle w t)
unfolding run_idle
run_idle-KeepsDays w t =
    by_hand-KeepsDays w t (λ now. execute (run_idle_checkout w now))
      (λ now s both. (both.0, run_idle_checkout-DaysOk w now s.current both.1))

pub job_idle_checkout-DaysOk :
    (w : World) (held : List ℕ) (clock : Instant) (db : Db)
    → DaysOk db.days
    → DaysOk (job_idle_checkout w held clock db).1.days
unfolding job_idle_checkout run_locked settle
job_idle_checkout-DaysOk w held clock db good = elim (Bool-cases (elem_ℕ lock_idle_checkout held)) [
  | inl t ↦ rw t good
  | inr f ↦ rw f (run_idle_checkout-DaysOk w (now_utc (get_time_override w db) clock) db good)
]

settle-DaysOk {ℓ} : {A : Type ℓ} (r : Result A × Session) → BothOk r.1 → DaysOk (settle r).1.days
unfolding settle
settle-DaysOk (ok a, s) both = both.1
settle-DaysOk (err x, s) both = both.0

pub job_nightly-DaysOk :
    (w : World) (held : List ℕ) (clock : Instant) (db : Db)
    → DaysOk db.days
    → DaysOk (job_nightly w held clock db).1.days
unfolding job_nightly run_locked
job_nightly-DaysOk w held clock db good = elim (Bool-cases (elem_ℕ lock_nightly held)) [
  | inl t ↦ rw t good
  | inr f ↦
      let now = now_utc (get_time_override w db) clock in
      let start : Session = record { durable = db; current = db } in
      rw f (
        settle-DaysOk (run_nightly_resolution w now start)
          (run_nightly_resolution-Keeps w now start (good, good)))
]
