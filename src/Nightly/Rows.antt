-- ===== src/Nightly/Rows.antt =====
-- app/nightly_service.py: what each statement does to the row of any user and date.
use office_attendance_backen.Base.{
  ℕ, ◌==◌, ◌&&◌, ◌≡◌, refl, Option, none, some, arith, is_none, if◌then◌else◌, Option-cases, inl,
  inr,
}
use office_attendance_backen.Time.{Instant, Date}
use office_attendance_backen.Model.{AttendanceDay, Db, DayStatus, is_day}
use office_attendance_backen.Model.Laws.{merged, find-update_where}
use office_attendance_backen.Presence.{bare_day}
use office_attendance_backen.Presence.Writer.{
  day_of, SameKey, day_of-upsert_day, rows-upsert_day_same,
}
use office_attendance_backen.Nightly.{close_day, is_open_row, flag_day}

-- The compare-and-set, on one row.
abbrev pub close_row : ℕ → Instant → AttendanceDay → AttendanceDay
close_row id t r = if is_open_row id r then record r { check_out = some t } else r

abbrev pub close_opt : ℕ → Instant → Option AttendanceDay → Option AttendanceDay
close_opt id t none = none
close_opt id t (some r) = some (close_row id t r)

pub day_of-close_day :
    (id : ℕ) (t : Instant) (u : ℕ) (d : Date) (db : Db)
    → day_of u d (close_day id t db).1 ≡ close_opt id t (day_of u d db)
unfolding close_day
day_of-close_day id t u d db =
    let mapped =
      find-update_where (is_day u d) (is_open_row id) (λ r. record r { check_out = some t })
        db.days.rows (λ r. refl) in
    elim (Option-cases (day_of u d db)) [
      | inl e ↦ ground (arith, mapped)
      | inr (r, e) ↦ ground (arith, mapped)
    ]

-- The guarded upsert of the flag, on the row of its key.
abbrev pub flag_row : ℕ → ℕ → Date → Option AttendanceDay → AttendanceDay
flag_row id user_id date none = bare_day id user_id date DayStatus.flagged
flag_row id user_id date (some r) =
    if is_none r.check_in then record r { status = DayStatus.flagged } else r

abbrev flag_update : AttendanceDay → Option AttendanceDay
flag_update r = if is_none r.check_in then some (record r { status = DayStatus.flagged }) else none

flag_keeps : (r y : AttendanceDay) → flag_update r ≡ some y → SameKey y r
flag_keeps r y h = ground arith

merged_flag :
    (id user_id : ℕ) (date : Date) (before : Option AttendanceDay)
    → merged (is_day user_id date) flag_update (bare_day id user_id date DayStatus.flagged) before
      ≡ some (flag_row id user_id date before)
merged_flag id user_id date none = refl
merged_flag id user_id date (some r) = ground arith

pub day_of-flag_day :
    (user_id : ℕ) (date : Date) (u : ℕ) (d : Date) (db : Db)
    → day_of u d (flag_day user_id date db) ≡ (
        if u == user_id && d == date
        then some (flag_row db.days.next_id user_id date (day_of user_id date db))
        else day_of u d db)
unfolding flag_day
day_of-flag_day user_id date u d db =
    rw
      (day_of-upsert_day user_id date flag_update (λ id. bare_day id user_id date DayStatus.flagged)
        db flag_keeps (λ id. (refl, refl)) u d)
      (rw merged_flag)

-- A day that is flagged already is flagged to itself.
pub rows-flag_day_same :
    (user_id : ℕ) (date : Date) (r : AttendanceDay) (db : Db)
    → day_of user_id date db ≡ some r
    → r.check_in ≡ none
    → r.status ≡ DayStatus.flagged
    → (flag_day user_id date db).days.rows ≡ db.days.rows
unfolding flag_day
rows-flag_day_same user_id date r db e free flagged =
    rows-upsert_day_same user_id date flag_update (λ id. bare_day id user_id date DayStatus.flagged)
      db r e (ground arith)
