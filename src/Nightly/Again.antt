-- ===== src/Nightly/Again.antt =====
-- app/nightly_service.py: the nightly loop settles every round's day, and on settled days it
-- changes no row. It marks nobody absent or on leave.
use office_attendance_backen.Base.{
  ℕ, ◌==◌, ◌&&◌, ◌≡◌, ◌∙◌, refl, sym, or_else, Bool, true, false, Option, none, some, List, [], ◌∷◌,
  All, arith, Bool-cases, inl, inr,
}
use office_attendance_backen.Time.{Instant, Date, Zones}
use office_attendance_backen.Model.{AttendanceDay, Db, DayStatus, Office, Roster, day_status_eq}
use office_attendance_backen.Presence.{bare_day, ensure_off_day}
use office_attendance_backen.Presence.Writer.{day_of, day_of_same, day_of-ensure_off_day}
use office_attendance_backen.Nightly.{Stats, flag_day, resolve_day}
use office_attendance_backen.Nightly.Rows.{day_of-close_day, day_of-flag_day, flag_row, close_opt}
use office_attendance_backen.Nightly.Body.{resolve_day-keeps}
use office_attendance_backen.Nightly.Settled.{
  IsSettled, resolved, today, works_today, default_status, day_of-resolve_day,
  rows-resolve_day_settled, resolve_day-IsSettled,
}
use office_attendance_backen.Nightly.Rounds.{Round, run_rounds, run_rounds-keeps}

IsSettled-resolved :
    (working : Bool) (shift_end : Instant) (id u : ℕ) (d : Date) (before : Option AttendanceDay)
    → IsSettled working
        (some (resolved working shift_end (bare_day id u d (default_status working)) before))
IsSettled-resolved false shift_end id u d none = tt
IsSettled-resolved false shift_end id u d (some r) = tt
IsSettled-resolved true shift_end id u d none = ground arith
IsSettled-resolved true shift_end id u d (some r) = ground arith

module _ (z : Zones) (now : Instant) where
  abbrev pub SettledAt : Db → Round → Type 0
  SettledAt db (a, r, o) = IsSettled (works_today z now a r o) (day_of a (today z now a r o) db)

  resolve_day-SettledAt :
      (x : Round) (a : ℕ) (r : Roster) (o : Office) (st : Stats) (db : Db)
      → SettledAt db x
      → SettledAt (resolve_day z now a r o st db).1 x
  resolve_day-SettledAt (b, q, p) a r o st db h =
      resolve_day-IsSettled (works_today z now b q p) b (today z now b q p) z now a r o st db h

  resolve_day_settles :
      (a : ℕ) (r : Roster) (o : Office) (st : Stats) (db : Db)
      → SettledAt (resolve_day z now a r o st db).1 (a, r, o)
  resolve_day_settles a r o st db = rw (day_of-resolve_day z now a r o st db) (
      IsSettled-resolved (works_today z now a r o) _ db.days.next_id a (today z now a r o)
        (day_of a (today z now a r o) db))

  pub run_rounds_settles :
      (rs : List Round) (st : Stats) (db : Db) → All (SettledAt (run_rounds z now rs st db).1) rs
  unfolding run_rounds
  run_rounds_settles [] st db = tt
  run_rounds_settles ((a, r, o) ∷ rs) st db =
      let next = resolve_day z now a r o st db in
      (
        run_rounds-keeps z now (λ x. SettledAt x (a, r, o))
            (λ b q p st' x. resolve_day-SettledAt (a, r, o) b q p st' x) rs next.0 next.1
            (resolve_day_settles a r o st db),
        run_rounds_settles rs next.0 next.1,
      )

  All-SettledAt :
      (rs : List Round) (a : ℕ) (r : Roster) (o : Office) (st : Stats) (db : Db)
      → All (SettledAt db) rs
      → All (SettledAt (resolve_day z now a r o st db).1) rs
  All-SettledAt [] a r o st db h = tt
  All-SettledAt (x ∷ rs) a r o st db h =
      (resolve_day-SettledAt x a r o st db h.0, All-SettledAt rs a r o st db h.1)

  pub rows-run_rounds_settled :
      (rs : List Round) (st : Stats) (db : Db)
      → All (SettledAt db) rs
      → (run_rounds z now rs st db).1.days.rows ≡ db.days.rows
  unfolding run_rounds
  rows-run_rounds_settled [] st db h = refl
  rows-run_rounds_settled ((a, r, o) ∷ rs) st db h =
      let next = resolve_day z now a r o st db in
      rows-run_rounds_settled rs next.0 next.1 (All-SettledAt rs a r o st db h.1)
      ∙ rows-resolve_day_settled z now a r o st db h.0

-- Whether the row of a day has this status.
abbrev pub has_status : DayStatus → Option AttendanceDay → Bool
has_status s none = false
has_status s (some r) = day_status_eq s r.status

-- The statuses that only an admin sets.
abbrev pub by_admin : DayStatus → Bool
by_admin DayStatus.absent = true
by_admin DayStatus.leave = true
by_admin _ = false

has_status-close_opt :
    (s : DayStatus) (id : ℕ) (t : Instant) (row : Option AttendanceDay)
    → has_status s (close_opt id t row) ≡ has_status s row
has_status-close_opt s id t none = refl
has_status-close_opt s id t (some r) = ground arith

has_status-flag_row :
    (s : DayStatus) (id a : ℕ) (b : Date) (row : Option AttendanceDay)
    → by_admin s ≡ true
    → has_status s (some (flag_row id a b row)) ≡ true
    → has_status s row ≡ true
has_status-flag_row s id a b none admin h = ground arith
has_status-flag_row s id a b (some r) admin h = ground arith

has_status-or_else :
    (s : DayStatus) (id a : ℕ) (b : Date) (row : Option AttendanceDay)
    → by_admin s ≡ true
    → has_status s (some (or_else row (bare_day id a b DayStatus.off_day))) ≡ true
    → has_status s row ≡ true
has_status-or_else s id a b none admin h = ground arith
has_status-or_else s id a b (some r) admin h = h

module _ (s : DayStatus) (admin : by_admin s ≡ true) (u : ℕ) (d : Date) where
  flag-not_new :
      (a : ℕ) (b : Date) (db : Db)
      → has_status s (day_of u d (flag_day a b db)) ≡ true
      → has_status s (day_of u d db) ≡ true
  flag-not_new a b db h = elim (Bool-cases (u == a && d == b)) [
    | inl t ↦ rw (day_of_same u a d b db t) (
        has_status-flag_row s db.days.next_id a b (day_of a b db) admin
          (rw (day_of-flag_day a b u d db, t) at h))
    | inr t ↦ rw (day_of-flag_day a b u d db, t) at h
  ]

  off-not_new :
      (a : ℕ) (b : Date) (db : Db)
      → has_status s (day_of u d (ensure_off_day a b db)) ≡ true
      → has_status s (day_of u d db) ≡ true
  off-not_new a b db h = elim (Bool-cases (u == a && d == b)) [
    | inl t ↦ rw (day_of_same u a d b db t) (
        has_status-or_else s db.days.next_id a b (day_of a b db) admin
          (rw (day_of-ensure_off_day a b u d db, t) at h))
    | inr t ↦ rw (day_of-ensure_off_day a b u d db, t) at h
  ]

  -- What is absent or on leave after rounds of the loop was so before.
  pub run_rounds-not_new :
      (z : Zones) (now : Instant) (rs : List Round) (st : Stats) (db : Db)
      → has_status s (day_of u d (run_rounds z now rs st db).1) ≡ true
      → has_status s (day_of u d db) ≡ true
  run_rounds-not_new z now rs st db =
      let P : Db → Type 0 =
        λ x. has_status s (day_of u d x) ≡ true → has_status s (day_of u d db) ≡ true in
      run_rounds-keeps z now P
        (resolve_day-keeps {P = P} (λ a b x k e. k (off-not_new a b x e))
          (λ a b x k e. k (flag-not_new a b x e))
          (λ id t x k e. k (
            sym (has_status-close_opt s id t (day_of u d x))
            ∙ (rw (day_of-close_day id t u d x) at e)))
          z now)
        rs st db (λ e. e)
