-- ===== src/Nightly/Body.antt =====
-- app/nightly_service.py: the database after one round of the nightly loop, on each of its paths,
-- and the rule for what every round keeps.
use office_attendance_backen.Base.{
  ℕ, min, ◌≡◌, true, false, Option, none, some, arith, is_none, or_else, if◌then◌else◌, Bool-cases,
  Option-cases, inl, inr,
}
use office_attendance_backen.Time.{Instant, Date, Zones, weekday, local_date_of}
use office_attendance_backen.Model.{AttendanceDay, Db, Office, Roster}
use office_attendance_backen.Presence.{elem_ℕ, shift_bounds, ensure_off_day}
use office_attendance_backen.Presence.Writer.{day_of}
use office_attendance_backen.Nightly.{
  Stats, close_day, flag_day, close_checked_in, resolve_working, resolve_day,
}

pub db-close_checked_in :
    (r : AttendanceDay) (arrived shift_end : Instant) (s : Stats) (db : Db)
    → (close_checked_in r arrived shift_end s db).1 ≡ (
        if is_none r.check_out
        then (close_day r.id (min (or_else r.last_seen arrived) shift_end) db).1
        else db)
unfolding close_checked_in
db-close_checked_in r arrived shift_end s db = ground arith

pub db-resolve_working :
    (a : ℕ) (b : Date) (shift_end arrived : Instant) (r : AttendanceDay) (s : Stats) (db : Db)
    → r.check_in ≡ some arrived
    → (resolve_working a b shift_end (some r) s db).1
      ≡ (close_checked_in r arrived shift_end s db).1
unfolding resolve_working
db-resolve_working a b shift_end arrived r s db e = ground arith

pub db-resolve_working_absent :
    (a : ℕ) (b : Date) (shift_end : Instant) (r : AttendanceDay) (s : Stats) (db : Db)
    → r.check_in ≡ none
    → (resolve_working a b shift_end (some r) s db).1 ≡ flag_day a b db
unfolding resolve_working
db-resolve_working_absent a b shift_end r s db e = ground arith

pub db-resolve_day_working :
    (z : Zones) (now : Instant) (user_id : ℕ) (roster : Roster) (office : Office) (s : Stats)
    (db : Db)
    → let date = local_date_of z office.timezone now in
      elem_ℕ (weekday date) roster.working_days ≡ true
      → (resolve_day z now user_id roster office s db).1
        ≡ (resolve_working user_id date
            (shift_bounds z office roster date).1
            (day_of user_id date db)
            s
            db).1
unfolding resolve_day
db-resolve_day_working z now user_id roster office s db w = ground arith

pub db-resolve_day_off :
    (z : Zones) (now : Instant) (user_id : ℕ) (roster : Roster) (office : Office) (s : Stats)
    (db : Db)
    → let date = local_date_of z office.timezone now in
      elem_ℕ (weekday date) roster.working_days ≡ false
      → (resolve_day z now user_id roster office s db).1 ≡ ensure_off_day user_id date db
unfolding resolve_day
db-resolve_day_off z now user_id roster office s db w = ground arith

-- `P` holds of what the loop's body leaves if the three statements keep it.
module _ {P : Db → Type 0} (off : (a : ℕ) (b : Date) (db : Db) → P db → P (ensure_off_day a b db))
    (flag : (a : ℕ) (b : Date) (db : Db) → P db → P (flag_day a b db))
    (close : (id : ℕ) (t : Instant) (db : Db) → P db → P (close_day id t db).1) where
  close_checked_in-keeps :
      (r : AttendanceDay) (arrived shift_end : Instant) (s : Stats) (db : Db)
      → P db
      → P (close_checked_in r arrived shift_end s db).1
  close_checked_in-keeps r arrived shift_end s db h =
      rw (db-close_checked_in r arrived shift_end s db) (elim (Bool-cases (is_none r.check_out)) [
        | inl t ↦ rw t (close r.id (min (or_else r.last_seen arrived) shift_end) db h)
        | inr t ↦ rw t h
      ])

  resolve_working-keeps :
      (a : ℕ) (b : Date) (shift_end : Instant) (before : Option AttendanceDay) (s : Stats) (db : Db)
      → P db
      → P (resolve_working a b shift_end before s db).1
  unfolding resolve_working
  resolve_working-keeps a b shift_end none s db h = flag a b db h
  resolve_working-keeps a b shift_end (some r) s db h = elim (Option-cases r.check_in) [
    | inl e ↦ rw (db-resolve_working_absent a b shift_end r s db e) (flag a b db h)
    | inr (t, e) ↦
        rw (db-resolve_working a b shift_end t r s db e)
          (close_checked_in-keeps r t shift_end s db h)
  ]

  pub resolve_day-keeps :
      (z : Zones) (now : Instant) (user_id : ℕ) (roster : Roster) (office : Office) (s : Stats)
      (db : Db)
      → P db
      → P (resolve_day z now user_id roster office s db).1
  resolve_day-keeps z now user_id roster office s db h =
      let date = local_date_of z office.timezone now in
      elim (Bool-cases (elem_ℕ (weekday date) roster.working_days)) [
        | inl w ↦ rw (db-resolve_day_working z now user_id roster office s db w) (
            resolve_working-keeps user_id date (shift_bounds z office roster date).1
              (day_of user_id date db) s db h)
        | inr w ↦ rw (db-resolve_day_off z now user_id roster office s db w) (off user_id date db h)
      ]
