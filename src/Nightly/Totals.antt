-- ===== src/Nightly/Totals.antt =====
-- app/nightly_service.py: the statistics of the nightly job account for every employee.
use office_attendance_backen.Base.{
  ℕ, ◌+◌, ◌≡◌, Option, none, some, List, [], ◌∷◌, arith, length, Bool-cases, Option-cases, inl, inr,
}
use office_attendance_backen.Time.{Instant, Date, Zones, weekday, local_date_of}
use office_attendance_backen.Model.{AttendanceDay, Db, Office, Roster}
use office_attendance_backen.Presence.{elem_ℕ, shift_bounds}
use office_attendance_backen.Presence.Writer.{day_of}
use office_attendance_backen.Nightly.{Stats, close_checked_in, resolve_working, resolve_day}
use office_attendance_backen.Nightly.Rounds.{Round, run_rounds}

abbrev pub total : Stats → ℕ
total st = st.off_day + st.closed + st.flagged + st.already

total-close_checked_in :
    (r : AttendanceDay) (arrived shift_end : Instant) (st : Stats) (db : Db)
    → total (close_checked_in r arrived shift_end st db).0 ≡ total st + 1
unfolding close_checked_in
total-close_checked_in r arrived shift_end st db = ground arith

total-resolve_working :
    (a : ℕ) (b : Date) (shift_end : Instant) (before : Option AttendanceDay) (st : Stats) (db : Db)
    → total (resolve_working a b shift_end before st db).0 ≡ total st + 1
unfolding resolve_working
total-resolve_working a b shift_end none st db = ground arith
total-resolve_working a b shift_end (some r) st db = elim (Option-cases r.check_in) [
  | inl e ↦ ground arith
  | inr (t, e) ↦ ground (arith, total-close_checked_in r t shift_end st db)
]

total-resolve_day :
    (z : Zones) (now : Instant) (a : ℕ) (r : Roster) (o : Office) (st : Stats) (db : Db)
    → total (resolve_day z now a r o st db).0 ≡ total st + 1
unfolding resolve_day
total-resolve_day z now a r o st db =
    let date = local_date_of z o.timezone now in
    let working =
      total-resolve_working a date (shift_bounds z o r date).1 (day_of a date db) st db in
    elim (Bool-cases (elem_ℕ (weekday date) r.working_days)) [
      | inl w ↦ ground (arith, working)
      | inr w ↦ ground arith
    ]

module _ (z : Zones) (now : Instant) where
  pub total-run_rounds :
      (rs : List Round) (st : Stats) (db : Db)
      → total (run_rounds z now rs st db).0 ≡ total st + length rs
  unfolding run_rounds
  total-run_rounds [] st db = omega arith
  total-run_rounds ((a, r, o) ∷ rs) st db =
      let next = resolve_day z now a r o st db in
      omega (arith, total-run_rounds rs next.0 next.1, total-resolve_day z now a r o st db)
