-- ===== src/Days/Sweep.antt =====
-- app/scheduler.py `job_idle_checkout`: what the job does to the database, and how many rows it counts.
use office_attendance_backen.Base.{
  ℕ, ◌+◌, ltb, ◌==◌, Bool, true, false, none, some, List, [], ◌∷◌, map, ◌≡◌, refl, sym, ◌∙◌, ap,
  subst, arith, All, All-map, All-both, length, count_where, update_where, is_none, is_some, inl,
  inr, Option-cases, if◌then◌else◌,
}
use office_attendance_backen.Time.{Instant, now_utc}
use office_attendance_backen.Model.{AttendanceDay, Db}
use office_attendance_backen.World.{World}
use office_attendance_backen.Presence.{elem_ℕ}
use office_attendance_backen.Nightly.{
  Closing, closings, is_open_row, close_day, close_all, run_idle_checkout,
}
use office_attendance_backen.Scheduler.{
  skipped, done, job_idle_checkout, run_locked, settle, get_time_override, lock_idle_checkout,
}
use office_attendance_backen.Days.{AllApart, DaysOk}
use office_attendance_backen.Days.Jobs.{closings_step}
use office_attendance_backen.Days.Idle.{
  idle_checkout, idled, closed_by, with_days, close_all-map, cutoff, sweep, closing_at,
  closing_of-idle, sweep_other, sweep_own,
}

-- The closings have different rows.
abbrev Distinct : List Closing → Type 0
Distinct [] = Unit {0}
Distinct (c ∷ cs) = All (λ c'. (c.day_id == c'.day_id) ≡ false) cs × Distinct cs

-- Each closing has an open row.
abbrev Opens : List AttendanceDay → List Closing → Type 0
Opens rows cs = All (λ c. ltb 0 (count_where (is_open_row c.day_id) rows) ≡ true) cs

-- A compare-and-set leaves the open rows of other ids open.
count_open_other :
    (id other : ℕ) (t : Instant) (rows : List AttendanceDay)
    → (id == other) ≡ false
    → count_where
        (is_open_row other)
        (update_where (is_open_row id) (λ d. record d { check_out = some t }) rows)
      ≡ count_where (is_open_row other) rows
count_open_other id other t [] apart = refl
count_open_other id other t (x ∷ xs) apart = ground (arith, count_open_other id other t xs apart)

count-close_all :
    (cs : List Closing) (n : ℕ) (db : Db)
    → Distinct cs
    → Opens db.days.rows cs
    → (close_all cs n db).0 ≡ n + length cs
unfolding close_all close_day
count-close_all [] n db distinct opens = omega arith
count-close_all (c ∷ cs) n db distinct opens =
    let after = (close_day c.day_id c.check_out db).1 in
    let still : Opens after.days.rows cs =
      All-both _ _ _ cs
        (λ c' apart h.
          ground (arith, count_open_other c.day_id c'.day_id c.check_out db.days.rows apart))
        distinct.0 opens.1 in
    ground (arith, count-close_all cs (n + 1) after distinct.1 still, opens.0)

-- A row that is open is counted under its id.
All-open :
    (rows : List AttendanceDay)
    → All
        (λ d. is_none d.check_out ≡ true → ltb 0 (count_where (is_open_row d.id) rows) ≡ true)
        rows
All-open [] = tt
All-open (x ∷ xs) =
    (λ h. ground arith, All-map _ _ xs (λ d h free. ground (arith, h free)) (All-open xs))

module _ (w : World) (now : Instant) (db : Db) where
  abbrev pub is_idle : AttendanceDay → Bool
  is_idle d = is_some (idle_checkout w now db d)

  idle-open : (d : AttendanceDay) → is_idle d ≡ true → is_none d.check_out ≡ true
  idle-open d h = ground arith

  sweep-Distinct : (ds : List AttendanceDay) → AllApart ds → Distinct (sweep w now db ds)
  sweep-Distinct [] all = unfold closings in tt
  sweep-Distinct (x ∷ xs) all = elim (Option-cases (idle_checkout w now db x)) [
    | inl awake ↦
        let absent = closing_of-idle w now db x ∙ ap (closing_at w now db x) awake in
        subst Distinct (sym (closings_step w.zones (cutoff w now db) db x xs none absent))
          (sweep-Distinct xs all.1)
    | inr (t, idle) ↦
        let found = closing_of-idle w now db x ∙ ap (closing_at w now db x) idle in
        subst Distinct (sym (closings_step w.zones (cutoff w now db) db x xs (some _) found))
          (sweep_other w now db x xs all.0, sweep-Distinct xs all.1)
  ]

  sweep-Opens :
      (rows ds : List AttendanceDay)
      → All
          (λ d. is_none d.check_out ≡ true → ltb 0 (count_where (is_open_row d.id) rows) ≡ true)
          ds
      → Opens rows (sweep w now db ds)
  sweep-Opens rows [] all = unfold closings in tt
  sweep-Opens rows (x ∷ xs) all = elim (Option-cases (idle_checkout w now db x)) [
    | inl awake ↦
        let absent = closing_of-idle w now db x ∙ ap (closing_at w now db x) awake in
        subst (Opens rows) (sym (closings_step w.zones (cutoff w now db) db x xs none absent))
          (sweep-Opens rows xs all.1)
    | inr (t, idle) ↦
        let found = closing_of-idle w now db x ∙ ap (closing_at w now db x) idle in
        subst (Opens rows) (sym (closings_step w.zones (cutoff w now db) db x xs (some _) found))
          (all.0 (idle-open x (ground arith)), sweep-Opens rows xs all.1)
  ]

  length-sweep : (ds : List AttendanceDay) → length (sweep w now db ds) ≡ count_where is_idle ds
  length-sweep [] = unfold closings in refl
  length-sweep (x ∷ xs) = elim (Option-cases (idle_checkout w now db x)) [
    | inl awake ↦
        let absent = closing_of-idle w now db x ∙ ap (closing_at w now db x) awake in
        ground (arith, length-sweep xs, closings_step w.zones (cutoff w now db) db x xs none absent)
    | inr (t, idle) ↦
        let c : Closing = record { day_id = x.id; check_out = t } in
        let found = closing_of-idle w now db x ∙ ap (closing_at w now db x) idle in
        ground
          (arith, length-sweep xs, closings_step w.zones (cutoff w now db) db x xs (some c) found)
  ]

  map_same :
      (f g : AttendanceDay → AttendanceDay) (ds : List AttendanceDay)
      → All (λ d. f d ≡ g d) ds
      → map f ds ≡ map g ds
  map_same f g [] all = refl
  map_same f g (x ∷ xs) all = ground (arith, map_same f g xs all.1, all.0)

  run_idle_checkout-map :
      DaysOk db.days
      → run_idle_checkout w now db
        ≡ (count_where is_idle db.days.rows, with_days db (map (idled w now db) db.days.rows))
  unfolding run_idle_checkout
  run_idle_checkout-map good =
      let rows = db.days.rows in
      let cs = sweep w now db rows in
      let counted =
        count-close_all cs 0 db (sweep-Distinct rows good.apart)
          (sweep-Opens rows rows (All-open rows)) in
      let mapped =
        close_all-map cs 0 db
        ∙ ap (with_days db)
            (map_same (closed_by cs) (idled w now db) rows (sweep_own w now db rows good.apart)) in
      ground (arith, length-sweep rows)

-- The idle check-out job with a free lock, on a coherent table of days: it is done, every row that is
-- idle gets the earlier of its last moment and the end of its shift for a check-out, every other row
-- and table stays as it is, and it reports the number of idle rows. With its lock held elsewhere it
-- is skipped and changes nothing.
pub job_idle_checkout_lem :
    (w : World) (held : List ℕ) (clock : Instant) (db : Db)
    → DaysOk db.days
    → let now = now_utc (get_time_override w db) clock in
      job_idle_checkout w held clock db ≡ (
        if elem_ℕ lock_idle_checkout held then (skipped, db) else (
          done (count_where (is_idle w now db) db.days.rows),
          with_days db (map (idled w now db) db.days.rows),
        ))
unfolding job_idle_checkout run_locked settle
job_idle_checkout_lem w held clock db good =
    let now = now_utc (get_time_override w db) clock in
    ground (arith, run_idle_checkout-map w now db good)
