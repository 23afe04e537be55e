-- ===== src/Presence/Writer.antt =====
-- app/presence.py: the statements on `attendance_days`. One row is kept for each user and date, a
-- check-in is written once, and no other day is touched.
use office_attendance_backen.Base.{
  ℕ, ◌==◌, ◌&&◌, ◌≡◌, ◌∙◌, refl, Bool, true, false, Option, none, some, arith, find, is_none,
  or_else, if◌then◌else◌, Bool-cases, Option-cases, inl, inr,
}
use office_attendance_backen.Time.{Date}
use office_attendance_backen.Model.{AttendanceDay, Db, DayStatus, is_day}
use office_attendance_backen.Model.Laws.{
  merged, written, written-on_conflict, find-on_conflict, find-on_conflict_ne, on_conflict_same,
}
use office_attendance_backen.Presence.{
  PresenceEvent, ShiftEval, upsert_day, bare_day, ensure_off_day, write_check_in,
  apply_presence_event,
}

-- The row of a user and a date.
abbrev pub day_of : ℕ → Date → Db → Option AttendanceDay
day_of user_id date db = find (is_day user_id date) db.days.rows

abbrev pub SameKey : AttendanceDay → AttendanceDay → Type 0
SameKey a b = (a.user_id ≡ b.user_id) × (a.date ≡ b.date)

is_day_key :
    (u : ℕ) (d : Date) (r : AttendanceDay) → is_day u d r ≡ true → (r.user_id ≡ u) × (r.date ≡ d)
is_day_key u d r h = ground arith

is_day_of_key :
    (u : ℕ) (d : Date) (r : AttendanceDay) → r.user_id ≡ u → r.date ≡ d → is_day u d r ≡ true
is_day_of_key u d r eu ed = ground arith

is_day_other :
    (u a : ℕ) (d b : Date) (r : AttendanceDay)
    → (u == a && d == b) ≡ false
    → r.user_id ≡ a
    → r.date ≡ b
    → is_day u d r ≡ false
is_day_other u a d b r h eu ed = ground arith

same_key : (u a : ℕ) (d b : Date) → (u == a && d == b) ≡ true → (u ≡ a) × (d ≡ b)
same_key u a d b h = ground arith

pub day_of_same :
    (u a : ℕ) (d b : Date) (db : Db) → (u == a && d == b) ≡ true → day_of u d db ≡ day_of a b db
day_of_same u a d b db h = let k = same_key u a d b h in rw (k.0, k.1)

module _ (user_id : ℕ) (date : Date) (update : AttendanceDay → Option AttendanceDay)
    (fresh : ℕ → AttendanceDay) (db : Db)
    (keeps : (r y : AttendanceDay) → update r ≡ some y → SameKey y r)
    (made : (id : ℕ) → ((fresh id).user_id ≡ user_id) × ((fresh id).date ≡ date)) where
  -- After the upsert the key has the merged row, and every other key the row it had.
  pub day_of-upsert_day :
      (u : ℕ) (d : Date)
      → day_of u d (upsert_day user_id date update fresh db).1 ≡ (
          if u == user_id && d == date
          then merged (is_day user_id date) update (fresh db.days.next_id) (day_of user_id date db)
          else day_of u d db)
  unfolding upsert_day
  day_of-upsert_day u d = elim (Bool-cases (u == user_id && d == date)) [
    | inl t ↦ rw t (
        rw (same_key u user_id d date t).0 (
          rw (same_key u user_id d date t).1 (
            find-on_conflict (is_day user_id date) update (fresh db.days.next_id) db.days.rows
              (is_day_of_key user_id date (fresh db.days.next_id) (made db.days.next_id).0
                (made db.days.next_id).1)
              (λ r y clash e.
                is_day_of_key user_id date y ((keeps r y e).0 ∙ (is_day_key user_id date r clash).0)
                  ((keeps r y e).1 ∙ (is_day_key user_id date r clash).1)))))
    | inr t ↦ rw t (
        find-on_conflict_ne (is_day user_id date) update (fresh db.days.next_id) (is_day u d)
          db.days.rows
          (is_day_other u user_id d date (fresh db.days.next_id) t (made db.days.next_id).0
            (made db.days.next_id).1)
          (λ r clash.
            let k = is_day_key user_id date r clash in is_day_other u user_id d date r t k.0 k.1)
          (λ r y clash e.
            let k = is_day_key user_id date r clash in
            is_day_other u user_id d date y t ((keeps r y e).0 ∙ k.0) ((keeps r y e).1 ∙ k.1)))
  ]

-- What is reported as written: the fresh row, or what the guarded update gives.
pub written-upsert_day :
    (user_id : ℕ) (date : Date) (update : AttendanceDay → Option AttendanceDay)
    (fresh : ℕ → AttendanceDay) (db : Db)
    → (upsert_day user_id date update fresh db).0
      ≡ written (is_day user_id date) update (fresh db.days.next_id) (day_of user_id date db)
unfolding upsert_day
written-upsert_day user_id date update fresh db =
    written-on_conflict (is_day user_id date) update (fresh db.days.next_id) db.days.rows

-- A row that is merged to itself leaves all rows as they were.
pub rows-upsert_day_same :
    (user_id : ℕ) (date : Date) (update : AttendanceDay → Option AttendanceDay)
    (fresh : ℕ → AttendanceDay) (db : Db) (r : AttendanceDay)
    → day_of user_id date db ≡ some r
    → merged (is_day user_id date) update (fresh db.days.next_id) (some r) ≡ some r
    → (upsert_day user_id date update fresh db).1.days.rows ≡ db.days.rows
unfolding upsert_day
rows-upsert_day_same user_id date update fresh db r h e =
    on_conflict_same (is_day user_id date) update (fresh db.days.next_id) db.days.rows r h e

-- Whether the row of a day, if there is one, is without a check-in.
abbrev pub is_free : Option AttendanceDay → Bool
is_free none = true
is_free (some d) = is_none d.check_in

module _ (event : PresenceEvent) (ev : ShiftEval) where
  -- The row that the event leaves where `before` was: the event's check-in if the day was free, and
  -- otherwise the row that was there.
  abbrev pub row_after : ℕ → Option AttendanceDay → AttendanceDay
  row_after id none =
      write_check_in event ev (bare_day id event.user_id ev.local_date DayStatus.present)
  row_after id (some d) = if is_none d.check_in then write_check_in event ev d else d

  abbrev check_in_update : AttendanceDay → Option AttendanceDay
  check_in_update d = if is_none d.check_in then some (write_check_in event ev d) else none

  abbrev check_in_fresh : ℕ → AttendanceDay
  check_in_fresh id =
      write_check_in event ev (bare_day id event.user_id ev.local_date DayStatus.present)

  check_in_keeps : (r y : AttendanceDay) → check_in_update r ≡ some y → SameKey y r
  unfolding write_check_in
  check_in_keeps r y h = ground arith

  check_in_made :
      (id : ℕ)
      → ((check_in_fresh id).user_id ≡ event.user_id) × ((check_in_fresh id).date ≡ ev.local_date)
  unfolding write_check_in
  check_in_made id = (refl, refl)

  merged_check_in :
      (id : ℕ) (before : Option AttendanceDay)
      → merged (is_day event.user_id ev.local_date) check_in_update (check_in_fresh id) before
        ≡ some (row_after id before)
  merged_check_in id none = refl
  merged_check_in id (some d) = ground arith

  -- In the database after the event, the event's user and date have `row_after`, and every other
  -- user and date the row that they had.
  pub day_of-apply_presence_event :
      (u : ℕ) (d : Date) (db : Db)
      → day_of u d (apply_presence_event event ev db).1 ≡ (
          if u == event.user_id && d == ev.local_date
          then some (row_after db.days.next_id (day_of event.user_id ev.local_date db))
          else day_of u d db)
  unfolding apply_presence_event
  day_of-apply_presence_event u d db =
      rw
        (day_of-upsert_day event.user_id ev.local_date check_in_update check_in_fresh db
          check_in_keeps check_in_made u d)
        (rw merged_check_in)

  -- One check-in of one user for one date: the call returns the row that it leaves, and reports
  -- that it checked in exactly if there was no row or one without a check-in.
  pub result-apply_presence_event :
      (db : Db)
      → let before = day_of event.user_id ev.local_date db in
        (apply_presence_event event ev db).0
        ≡ some (row_after db.days.next_id before, is_free before)
  unfolding apply_presence_event
  result-apply_presence_event db =
      let w = written-upsert_day event.user_id ev.local_date check_in_update check_in_fresh db in
      let after = day_of-apply_presence_event event.user_id ev.local_date db in
      elim (Option-cases (day_of event.user_id ev.local_date db)) [
        | inl e ↦ ground (arith, w)
        | inr (d, e) ↦ elim (Option-cases d.check_in) [
          | inl free ↦ ground (arith, w)
          | inr (t, busy) ↦ ground (arith, w, after)
        ]
      ]

-- An off day is written only where the user has no row for the date.
pub day_of-ensure_off_day :
    (user_id : ℕ) (date : Date) (u : ℕ) (d : Date) (db : Db)
    → day_of u d (ensure_off_day user_id date db) ≡ (
        if u == user_id && d == date
        then some (
            or_else
              (day_of user_id date db)
              (bare_day db.days.next_id user_id date DayStatus.off_day))
        else day_of u d db)
unfolding ensure_off_day
day_of-ensure_off_day user_id date u d db =
    let after =
      day_of-upsert_day user_id date (λ _. none) (λ id. bare_day id user_id date DayStatus.off_day)
        db (λ r y e. cc) (λ id. (refl, refl)) u d in
    elim (Option-cases (day_of user_id date db)) [
      | inl e ↦ ground (arith, after)
      | inr (r, e) ↦ ground (arith, after)
    ]
