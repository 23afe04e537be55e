-- ===== src/Days/Idle.antt =====
-- app/nightly_service.py `run_idle_checkout`: the loop of compare-and-sets is one map over the table.
use office_attendance_backen.Base.{
  ℕ, ◌+◌, ◌-◌, ◌==◌, ◌&&◌, ltb, min, true, false, Option, none, some, List, [], ◌∷◌, map, ◌≡◌, refl,
  sym, ◌∙◌, ap, subst, arith, All, All-map, All-both, update_where, is_none, is_some, inl, inr,
  Option-cases, if◌then◌else◌,
}
use office_attendance_backen.Time.{Instant, minutes}
use office_attendance_backen.Model.{AttendanceDay, Db}
use office_attendance_backen.World.{World}
use office_attendance_backen.Presence.{shift_bounds}
use office_attendance_backen.Nightly.{
  Closing, closing_of, closings, idle_since, join_day, is_open_row, close_day, close_all,
}
use office_attendance_backen.Nightly.Rows.{close_row}
use office_attendance_backen.Days.{are_apart, AllApart}
use office_attendance_backen.Days.Jobs.{closings_step, closing_of-arrived}

-- When a row is checked out at a moment for being idle: it has a check-in and no check-out, and was last
-- seen before the idle time. The check-out is the earlier of that and the end of the shift.
abbrev pub idle_checkout : World → Instant → Db → AttendanceDay → Option Instant
idle_checkout w now db d = elim d.last_seen [
  | none ↦ none
  | some seen ↦
      if is_some d.check_in
        && is_none d.check_out
        && ltb (seen + minutes w.settings.checkout_idle_minutes) now
      then elim (join_day db d) [
        | none ↦ none
        | some (roster, office) ↦ some (min seen (shift_bounds w.zones office roster d.date).1)
      ]
      else none
]

abbrev pub idled : World → Instant → Db → AttendanceDay → AttendanceDay
idled w now db d = elim (idle_checkout w now db d) [
  | none ↦ d
  | some t ↦ record d { check_out = some t }
]

-- What the closings make of a row, one after the other.
abbrev pub closed_by : List Closing → AttendanceDay → AttendanceDay
closed_by [] d = d
closed_by (c ∷ cs) d = closed_by cs (close_row c.day_id c.check_out d)

update_where-map :
    (id : ℕ) (t : Instant) (rows : List AttendanceDay)
    → update_where (is_open_row id) (λ d. record d { check_out = some t }) rows
      ≡ map (close_row id t) rows
update_where-map id t [] = refl
update_where-map id t (x ∷ xs) = ap (λ r. close_row id t x ∷ r) (update_where-map id t xs)

map-closed_by :
    (c : Closing) (cs : List Closing) (rows : List AttendanceDay)
    → map (closed_by cs) (map (close_row c.day_id c.check_out) rows) ≡ map (closed_by (c ∷ cs)) rows
map-closed_by c cs [] = refl
map-closed_by c cs (x ∷ xs) = ap (λ r. closed_by (c ∷ cs) x ∷ r) (map-closed_by c cs xs)

map-id : (rows : List AttendanceDay) → map (closed_by []) rows ≡ rows
map-id [] = refl
map-id (x ∷ xs) = ap (λ r. x ∷ r) (map-id xs)

-- The database with other rows of days.
abbrev pub with_days : Db → List AttendanceDay → Db
with_days db rows = record db { days = record db.days { rows = rows } }

pub close_all-map :
    (cs : List Closing) (n : ℕ) (db : Db)
    → (close_all cs n db).1 ≡ with_days db (map (closed_by cs) db.days.rows)
unfolding close_all close_day
close_all-map [] n db = ap (with_days db) (sym (map-id db.days.rows))
close_all-map (c ∷ cs) n db =
    let after = (close_day c.day_id c.check_out db).1 in
    let count = if (close_day c.day_id c.check_out db).0 then n + 1 else n in
    close_all-map cs count after
    ∙ ap (λ rows. with_days db (map (closed_by cs) rows))
        (update_where-map c.day_id c.check_out db.days.rows)
    ∙ ap (with_days db) (map-closed_by c cs db.days.rows)

module _ (w : World) (now : Instant) (db : Db) where
  abbrev pub cutoff : Instant
  cutoff = now - minutes w.settings.checkout_idle_minutes

  abbrev pub sweep : List AttendanceDay → List Closing
  sweep ds = closings w.zones cutoff db ds

  abbrev pub closing_at : AttendanceDay → Option Instant → Option Closing
  closing_at d none = none
  closing_at d (some t) = some (record { day_id = d.id; check_out = t })

  pub closing_of-idle :
      (d : AttendanceDay) → closing_of w.zones cutoff db d ≡ closing_at d (idle_checkout w now db d)
  unfolding closing_of idle_since
  closing_of-idle d = ground arith

  -- A row is left alone by the closings of other rows.
  closed_by_other :
      (cs : List Closing) (d : AttendanceDay)
      → All (λ c. (d.id == c.day_id) ≡ false) cs
      → closed_by cs d ≡ d
  closed_by_other [] d all = refl
  closed_by_other (c ∷ cs) d all = ap (closed_by cs) (ground arith) ∙ closed_by_other cs d all.1

  pub sweep_other :
      (d : AttendanceDay) (ds : List AttendanceDay)
      → All (λ x. are_apart d x ≡ true) ds
      → All (λ c. (d.id == c.day_id) ≡ false) (sweep ds)
  sweep_other d [] all = unfold closings in tt
  sweep_other d (x ∷ xs) all =
      let P : Closing → Type 0 = λ c. (d.id == c.day_id) ≡ false in
      elim (Option-cases (closing_of w.zones cutoff db x)) [
        | inl absent ↦
            subst (All P) (sym (closings_step w.zones cutoff db x xs none absent))
              (sweep_other d xs all.1)
        | inr (c, e) ↦
            let (same, arrived) = closing_of-arrived w.zones cutoff db x c e in
            subst (All P) (sym (closings_step w.zones cutoff db x xs (some c) e))
              (ground arith, sweep_other d xs all.1)
      ]

  -- The closings of a table make of each of its rows what the row alone says.
  pub sweep_own :
      (ds : List AttendanceDay)
      → AllApart ds
      → All (λ d. closed_by (sweep ds) d ≡ idled w now db d) ds
  sweep_own [] all = tt
  sweep_own (x ∷ xs) all =
      let Goal : List Closing → Type 0 = λ cs.
        (closed_by cs x ≡ idled w now db x) × All (λ d. closed_by cs d ≡ idled w now db d) xs in
      let others = sweep_other x xs all.0 in
      elim (Option-cases (idle_checkout w now db x)) [
        | inl awake ↦
            let absent = closing_of-idle x ∙ ap (closing_at x) awake in
            subst Goal (sym (closings_step w.zones cutoff db x xs none absent))
              (closed_by_other (sweep xs) x others ∙ ground arith, sweep_own xs all.1)
        | inr (t, idle) ↦
            let c : Closing = record { day_id = x.id; check_out = t } in
            let found = closing_of-idle x ∙ ap (closing_at x) idle in
            subst Goal (sym (closings_step w.zones cutoff db x xs (some c) found)) (
              closed_by_other (sweep xs) (close_row x.id t x)
                    (All-map _ _ (sweep xs) (λ c' h. ground arith) others)
                  ∙ ground arith,
              All-both _ _ _ xs (λ d apart own. ap (closed_by (sweep xs)) (ground arith) ∙ own)
                  all.0 (sweep_own xs all.1),
            )
      ]
