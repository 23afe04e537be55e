-- ===== src/Nightly/Settled.antt =====
-- app/nightly_service.py: one round of the nightly loop settles the employee's day, unsettles no
-- day, and finds nothing to do on a day that is settled.
use office_attendance_backen.Base.{
  ℕ, min, ◌==◌, ◌&&◌, ◌≡◌, ◌⊎◌, refl, subst, Bool, true, false, Option, none, some, arith, is_none,
  or_else, if◌then◌else◌, Bool-cases, Option-cases, inl, inr,
}
use office_attendance_backen.Time.{Instant, Date, Zones, weekday, local_date_of}
use office_attendance_backen.Model.{AttendanceDay, Db, DayStatus, Office, Roster}
use office_attendance_backen.Presence.{bare_day, elem_ℕ, shift_bounds, ensure_off_day}
use office_attendance_backen.Presence.Writer.{
  day_of, day_of_same, day_of-ensure_off_day, rows-upsert_day_same,
}
use office_attendance_backen.Nightly.{
  Stats, close_day, flag_day, close_checked_in, resolve_working, resolve_day,
}
use office_attendance_backen.Nightly.Rows.{
  close_opt, day_of-close_day, flag_row, day_of-flag_day, rows-flag_day_same,
}
use office_attendance_backen.Nightly.Body.{
  db-close_checked_in, db-resolve_working, db-resolve_working_absent, db-resolve_day_working,
  db-resolve_day_off, resolve_day-keeps,
}

-- What the nightly job makes of a day, from the row that was there.
abbrev pub resolved : Bool → Instant → AttendanceDay → Option AttendanceDay → AttendanceDay
resolved working shift_end fresh none = fresh
resolved false shift_end fresh (some r) = r
resolved true shift_end fresh (some r) = elim r.check_in [
  | none ↦ record r { status = DayStatus.flagged }
  | some arrived ↦
      if is_none r.check_out
      then record r { check_out = some (min (or_else r.last_seen arrived) shift_end) }
      else r
]

-- A day that is settled: there is a row, and on a working day it is flagged and without a check-in,
-- or checked in and checked out.
abbrev pub IsSettled : Bool → Option AttendanceDay → Type 0
IsSettled working none = ⊥
IsSettled false (some r) = Unit
IsSettled true (some r) =
    ((r.check_in ≡ none) × (r.status ≡ DayStatus.flagged))
    ⊎ ((is_none r.check_in ≡ false) × (is_none r.check_out ≡ false))

module _ (u : ℕ) (d : Date) where
  day_of-close_checked_in :
      (r : AttendanceDay) (arrived shift_end : Instant) (s : Stats) (db : Db)
      → day_of u d db ≡ some r
      → day_of u d (close_checked_in r arrived shift_end s db).1
        ≡ some (
            if is_none r.check_out
            then record r { check_out = some (min (or_else r.last_seen arrived) shift_end) }
            else r)
  unfolding close_checked_in
  day_of-close_checked_in r arrived shift_end s db h =
      ground (arith, day_of-close_day r.id (min (or_else r.last_seen arrived) shift_end) u d db)

  day_of-resolve_working :
      (shift_end : Instant) (before : Option AttendanceDay) (s : Stats) (db : Db)
      → day_of u d db ≡ before
      → day_of u d (resolve_working u d shift_end before s db).1
        ≡ some (resolved true shift_end (bare_day db.days.next_id u d DayStatus.flagged) before)
  unfolding resolve_working
  day_of-resolve_working shift_end none s db h = ground (arith, day_of-flag_day u d u d db)
  day_of-resolve_working shift_end (some r) s db h = elim (Option-cases r.check_in) [
    | inl e ↦ ground (arith, day_of-flag_day u d u d db)
    | inr (t, e) ↦ ground (arith, day_of-close_checked_in r t shift_end s db h)
  ]

abbrev pub default_status : Bool → DayStatus
default_status true = DayStatus.flagged
default_status false = DayStatus.off_day

IsSettled-close_opt :
    (working : Bool) (id : ℕ) (t : Instant) (before : Option AttendanceDay)
    → IsSettled working before
    → IsSettled working (close_opt id t before)
IsSettled-close_opt working id t none h = h
IsSettled-close_opt false id t (some r) h = tt
IsSettled-close_opt true id t (some r) h = ground arith

IsSettled-or_else :
    (working : Bool) (before : Option AttendanceDay) (fresh : AttendanceDay)
    → IsSettled working before
    → IsSettled working (some (or_else before fresh))
IsSettled-or_else working none fresh h = absurd h
IsSettled-or_else working (some r) fresh h = h

rows-ensure_off_day_same :
    (a : ℕ) (b : Date) (db : Db)
    → IsSettled false (day_of a b db)
    → (ensure_off_day a b db).days.rows ≡ db.days.rows
unfolding ensure_off_day
rows-ensure_off_day_same a b db h = elim (Option-cases (day_of a b db)) [
  | inl e ↦ absurd (subst (IsSettled false) e h)
  | inr (r, e) ↦
      rows-upsert_day_same a b (λ _. none) (λ id. bare_day id a b DayStatus.off_day) db r e refl
]

rows-resolve_working_settled :
    (a : ℕ) (b : Date) (shift_end : Instant) (before : Option AttendanceDay) (s : Stats) (db : Db)
    → day_of a b db ≡ before
    → IsSettled true before
    → (resolve_working a b shift_end before s db).1.days.rows ≡ db.days.rows
rows-resolve_working_settled a b shift_end none s db e h = absurd h
rows-resolve_working_settled a b shift_end (some r) s db e h = elim h [
  | inl (free, flagged) ↦
      rw (db-resolve_working_absent a b shift_end r s db free)
        (rows-flag_day_same a b r db e free flagged)
  | inr (busy, closed) ↦ elim (Option-cases r.check_in) [
    | inl free ↦ absurd (ground arith)
    | inr (t, arrived) ↦
        rw (db-resolve_working a b shift_end t r s db arrived)
          (rw (db-close_checked_in r t shift_end s db) (rw closed))
  ]
]

IsSettled-flag_row :
    (working : Bool) (id a : ℕ) (b : Date) (before : Option AttendanceDay)
    → IsSettled working before
    → IsSettled working (some (flag_row id a b before))
IsSettled-flag_row working id a b none h = absurd h
IsSettled-flag_row false id a b (some r) h = tt
IsSettled-flag_row true id a b (some r) h = ground arith

module _ (z : Zones) (now : Instant) (user_id : ℕ) (roster : Roster) (office : Office) where
  abbrev pub today : Date
  today = local_date_of z office.timezone now

  abbrev pub works_today : Bool
  works_today = elem_ℕ (weekday today) roster.working_days

  -- The nightly job on one employee leaves, for their office-local date, the row that `resolved`
  -- describes: an off day where there was no row on a day off; a flag on a working day without a
  -- check-in; else the row, with a check-out at the last sight of the employee or the end of the
  -- shift, whichever is earlier, if it had none.
  pub day_of-resolve_day :
      (s : Stats) (db : Db)
      → day_of user_id today (resolve_day z now user_id roster office s db).1
        ≡ some (
            resolved works_today
              (shift_bounds z office roster today).1
              (bare_day db.days.next_id user_id today (default_status works_today))
              (day_of user_id today db))
  unfolding resolve_day
  day_of-resolve_day s db = elim (Bool-cases works_today) [
    | inl w ↦ ground (
      arith,
      day_of-resolve_working user_id today (shift_bounds z office roster today).1
          (day_of user_id today db) s db refl,
    )
    | inr w ↦ elim (Option-cases (day_of user_id today db)) [
      | inl e ↦ ground (arith, day_of-ensure_off_day user_id today user_id today db)
      | inr (r, e) ↦ ground (arith, day_of-ensure_off_day user_id today user_id today db)
    ]
  ]

  -- On a settled day a round changes no row.
  pub rows-resolve_day_settled :
      (s : Stats) (db : Db)
      → IsSettled works_today (day_of user_id today db)
      → (resolve_day z now user_id roster office s db).1.days.rows ≡ db.days.rows
  rows-resolve_day_settled s db h = elim (Bool-cases works_today) [
    | inl w ↦ rw (db-resolve_day_working z now user_id roster office s db w) (
        rows-resolve_working_settled user_id today (shift_bounds z office roster today).1
          (day_of user_id today db) s db refl
          (subst (λ b. IsSettled b (day_of user_id today db)) w h))
    | inr w ↦ rw (db-resolve_day_off z now user_id roster office s db w) (
        rows-ensure_off_day_same user_id today db
          (subst (λ b. IsSettled b (day_of user_id today db)) w h))
  ]

module _ (working : Bool) (u : ℕ) (d : Date) where
  off-IsSettled :
      (a : ℕ) (b : Date) (db : Db)
      → IsSettled working (day_of u d db)
      → IsSettled working (day_of u d (ensure_off_day a b db))
  off-IsSettled a b db h =
      rw (day_of-ensure_off_day a b u d db) (elim (Bool-cases (u == a && d == b)) [
        | inl t ↦ rw t (
            IsSettled-or_else working (day_of a b db) _
              (subst (IsSettled working) (day_of_same u a d b db t) h))
        | inr t ↦ rw t h
      ])

  flag-IsSettled :
      (a : ℕ) (b : Date) (db : Db)
      → IsSettled working (day_of u d db)
      → IsSettled working (day_of u d (flag_day a b db))
  flag-IsSettled a b db h = rw (day_of-flag_day a b u d db) (elim (Bool-cases (u == a && d == b)) [
    | inl t ↦ rw t (
        IsSettled-flag_row working db.days.next_id a b (day_of a b db)
          (subst (IsSettled working) (day_of_same u a d b db t) h))
    | inr t ↦ rw t h
  ])

  close-IsSettled :
      (id : ℕ) (t : Instant) (db : Db)
      → IsSettled working (day_of u d db)
      → IsSettled working (day_of u d (close_day id t db).1)
  close-IsSettled id t db h =
      rw (day_of-close_day id t u d db) (IsSettled-close_opt working id t (day_of u d db) h)

  -- A round of the loop, for whichever employee, unsettles no day.
  pub resolve_day-IsSettled :
      (z : Zones) (now : Instant) (user_id : ℕ) (roster : Roster) (office : Office) (s : Stats)
      (db : Db)
      → IsSettled working (day_of u d db)
      → IsSettled working (day_of u d (resolve_day z now user_id roster office s db).1)
  resolve_day-IsSettled =
      resolve_day-keeps {P = λ db. IsSettled working (day_of u d db)} off-IsSettled flag-IsSettled
        close-IsSettled
