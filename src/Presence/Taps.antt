-- ===== src/Presence/Taps.antt =====
-- Concurrent check-ins (app/presence.py `apply_presence_event`): the row lock that the upsert takes
-- puts the upserts of all requests in some order, here a list.
use office_attendance_backen.Base.{
  ℕ, ◌+◌, ◌==◌, ◌&&◌, ◌||◌, ◌≡◌, refl, Bool, false, Option, none, some, List, [], ◌∷◌, arith,
  is_none, if◌then◌else◌, Bool-cases, inl, inr,
}
use office_attendance_backen.Time.{Date}
use office_attendance_backen.Model.{AttendanceDay, Db}
use office_attendance_backen.Presence.{
  PresenceEvent, ShiftEval, write_check_in, apply_presence_event,
}
use office_attendance_backen.Presence.Writer.{
  day_of, day_of_same, is_free, row_after, day_of-apply_presence_event, result-apply_presence_event,
}

abbrev pub Tap : Type 0
Tap = PresenceEvent × ShiftEval

abbrev pub is_for : ℕ → Date → Tap → Bool
is_for u d (event, ev) = u == event.user_id && d == ev.local_date

abbrev pub any_for : ℕ → Date → List Tap → Bool
any_for u d [] = false
any_for u d (t ∷ ts) = is_for u d t || any_for u d ts

abbrev reported : Option (AttendanceDay × Bool) → Bool
reported none = false
reported (some (day, checked)) = checked

-- The database after all the upserts.
pub after_taps : List Tap → Db → Db
after_taps [] db = db
after_taps ((event, ev) ∷ ts) db = after_taps ts (apply_presence_event event ev db).1

-- How many of the calls for this user and date report a check-in.
pub wins : ℕ → Date → List Tap → Db → ℕ
wins u d [] db = 0
wins u d ((event, ev) ∷ ts) db =
    let (result, db') = apply_presence_event event ev db in
    (if is_for u d (event, ev) && reported result then 1 else 0) + wins u d ts db'

row_after-is_busy :
    (event : PresenceEvent) (ev : ShiftEval) (id : ℕ) (before : Option AttendanceDay)
    → is_free (some (row_after event ev id before)) ≡ false
unfolding write_check_in
row_after-is_busy event ev id none = refl
row_after-is_busy event ev id (some d) = ground arith

-- In whatever order the upserts of any users come, a user and date get exactly one successful check-in
-- if there is a call for them and the day was free, and none otherwise.
pub wins_once :
    (u : ℕ) (d : Date) (taps : List Tap) (db : Db)
    → wins u d taps db ≡ (if is_free (day_of u d db) && any_for u d taps then 1 else 0)
unfolding wins
wins_once u d [] db = ground arith
wins_once u d ((event, ev) ∷ ts) db =
    let after = day_of-apply_presence_event event ev u d db in
    let rest = wins_once u d ts (apply_presence_event event ev db).1 in
    let before = day_of event.user_id ev.local_date db in
    elim (Bool-cases (u == event.user_id && d == ev.local_date)) [
      | inl t ↦
          let result = result-apply_presence_event event ev db in
          let same = day_of_same u event.user_id d ev.local_date db t in
          let none_left : wins u d ts (apply_presence_event event ev db).1 ≡ 0 =
            rw (after, t, row_after-is_busy event ev db.days.next_id before) at rest in
          ground (arith, result, none_left, same)
      | inr t ↦ ground (arith, after, rest)
    ]

-- A check-in that is there stays as it is, whatever check-ins come after it.
pub after_taps-keeps :
    (u : ℕ) (d : Date) (taps : List Tap) (db : Db) (row : AttendanceDay)
    → day_of u d db ≡ some row
    → is_none row.check_in ≡ false
    → day_of u d (after_taps taps db) ≡ some row
unfolding after_taps
after_taps-keeps u d [] db row h busy = h
after_taps-keeps u d ((event, ev) ∷ ts) db row h busy =
    let after = day_of-apply_presence_event event ev u d db in
    after_taps-keeps u d ts (apply_presence_event event ev db).1 row
      (elim (Bool-cases (u == event.user_id && d == ev.local_date)) [
        | inl t ↦
            let same = day_of_same u event.user_id d ev.local_date db t in
            ground (arith, after, same)
        | inr t ↦ ground (arith, after)
      ])
      busy
