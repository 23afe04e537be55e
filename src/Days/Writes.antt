-- ===== src/Days/Writes.antt =====
-- app/presence.py, app/nightly_service.py and app/routers/: each write to a row of `attendance_days`
-- keeps the table coherent.
use office_attendance_backen.Base.{
  ℕ, ◌+◌, ltb, ◌==◌, String, Bool, true, false, Option, none, some, List, [], ◌∷◌, ◌≡◌, refl, ap,
  sym, subst, All, All-map, arith, find, select, select-All, update_first-All, update_first-keeps,
  update_where, update_where-All, is_none, is_some, inl, inr, Bool-cases, if◌then◌else◌,
}
use office_attendance_backen.Time.{Instant, Date}
use office_attendance_backen.Model.{
  AttendanceDay, Table, Db, DayStatus, is_day, day_status_eq, update_row,
}
use office_attendance_backen.Model.Laws.{on_conflict-All}
use office_attendance_backen.Presence.{
  PresenceEvent, ShiftEval, bare_day, upsert_day, ensure_off_day, write_check_in, classify,
  apply_presence_event,
}
use office_attendance_backen.Nightly.{is_open_row, flag_day, close_day}
use office_attendance_backen.Admin.{
  VerifyAction, Resolution, awaits_verification, verify_row, resolve_row,
}
use office_attendance_backen.Days.{IsCoherent, DaysOk}
use office_attendance_backen.Days.Tables.{
  KeepsKey, AllApart-update_where, AllApart-update_first, AllApart-select, AllApart-on_conflict,
  find_own, Arrived,
}

module _ (u : ℕ) (date : Date) (update : AttendanceDay → Option AttendanceDay)
    (fresh : ℕ → AttendanceDay)
    (keeps : (r y : AttendanceDay)
      → update r ≡ some y
      → (y.id ≡ r.id) × (y.user_id ≡ r.user_id) × (y.date ≡ r.date))
    (made : (id : ℕ) → ((fresh id).id ≡ id) × ((fresh id).user_id ≡ u) × ((fresh id).date ≡ date))
    (sound : (r y : AttendanceDay) → update r ≡ some y → IsCoherent r → IsCoherent y)
    (start : (id : ℕ) → IsCoherent (fresh id)) where
  upsert_day-DaysOk : (db : Db) → DaysOk db.days → DaysOk (upsert_day u date update fresh db).1.days
  unfolding upsert_day
  upsert_day-DaysOk db ok =
      let id = db.days.next_id in
      let clash = is_day u date in
      record {
        coherent =
            on_conflict-All clash update (fresh id) IsCoherent db.days.rows (start id)
              (λ r y c e. sound r y e) ok.coherent;
        apart =
            AllApart-on_conflict u date update id (fresh id) keeps (made id) db.days.rows ok.below
              ok.apart;
        below =
            on_conflict-All clash update (fresh id) (λ d. ltb d.id (id + 1) ≡ true) db.days.rows
              (ground (arith, made id)) (λ r y c e h. ground (arith, keeps r y e))
              (All-map _ _ db.days.rows (λ d h. ground arith) ok.below);
      }

write_check_in-IsCoherent :
    (event : PresenceEvent) (ev : ShiftEval) (d : AttendanceDay)
    → IsCoherent (write_check_in event ev d)
unfolding write_check_in classify
write_check_in-IsCoherent event ev d = ground arith

-- What a guarded update writes.
guarded_row : (b : Bool) (a y : AttendanceDay) → (if b then some a else none) ≡ some y → a ≡ y
guarded_row true a y h = ground arith
guarded_row false a y h = cc

pub apply_presence_event-DaysOk :
    (event : PresenceEvent) (ev : ShiftEval) (db : Db)
    → DaysOk db.days
    → DaysOk (apply_presence_event event ev db).1.days
unfolding apply_presence_event write_check_in
apply_presence_event-DaysOk event ev =
    upsert_day-DaysOk event.user_id ev.local_date
      (λ d. if is_none d.check_in then some (write_check_in event ev d) else none)
      (λ id. write_check_in event ev (bare_day id event.user_id ev.local_date DayStatus.present))
      (λ r y e.
        let same = guarded_row (is_none r.check_in) (write_check_in event ev r) y e in
        (ap (λ z. z.id) (sym same), ap (λ z. z.user_id) (sym same), ap (λ z. z.date) (sym same)))
      (λ id. (refl, refl, refl))
      (λ r y e ok.
        subst IsCoherent (guarded_row (is_none r.check_in) (write_check_in event ev r) y e)
          (write_check_in-IsCoherent event ev r))
      (λ id.
        write_check_in-IsCoherent event ev
          (bare_day id event.user_id ev.local_date DayStatus.present))

bare_day-IsCoherent :
    (id u : ℕ) (date : Date) (status : DayStatus)
    → day_status_eq status DayStatus.late ≡ false
    → IsCoherent (bare_day id u date status)
bare_day-IsCoherent id u date status h = ground arith

pub ensure_off_day-DaysOk :
    (u : ℕ) (date : Date) (db : Db) → DaysOk db.days → DaysOk (ensure_off_day u date db).days
unfolding ensure_off_day
ensure_off_day-DaysOk u date =
    upsert_day-DaysOk u date (λ _. none) (λ id. bare_day id u date DayStatus.off_day) (λ r y e. cc)
      (λ id. (refl, refl, refl)) (λ r y e ok. cc)
      (λ id. bare_day-IsCoherent id u date DayStatus.off_day refl)

abbrev flagged : AttendanceDay → AttendanceDay
flagged d = record d { status = DayStatus.flagged }

flagged-IsCoherent : (d : AttendanceDay) → IsCoherent d → IsCoherent (flagged d)
flagged-IsCoherent d ok = ground arith

pub flag_day-DaysOk :
    (u : ℕ) (date : Date) (db : Db) → DaysOk db.days → DaysOk (flag_day u date db).days
unfolding flag_day
flag_day-DaysOk u date =
    upsert_day-DaysOk u date (λ d. if is_none d.check_in then some (flagged d) else none)
      (λ id. bare_day id u date DayStatus.flagged)
      (λ r y e.
        let same = guarded_row (is_none r.check_in) (flagged r) y e in
        (ap (λ z. z.id) (sym same), ap (λ z. z.user_id) (sym same), ap (λ z. z.date) (sym same)))
      (λ id. (refl, refl, refl))
      (λ r y e ok.
        subst IsCoherent (guarded_row (is_none r.check_in) (flagged r) y e)
          (flagged-IsCoherent r ok))
      (λ id. bare_day-IsCoherent id u date DayStatus.flagged refl)

-- A write to the row that a query found.
pub update_found-DaysOk :
    (q : AttendanceDay → Bool) (f : AttendanceDay → AttendanceDay) (t : Table AttendanceDay)
    (d : AttendanceDay)
    → KeepsKey f
    → find q t.rows ≡ some d
    → IsCoherent (f d)
    → DaysOk t
    → DaysOk (update_row (λ x. x.id == d.id) f t)
update_found-DaysOk q f t d keeps found sound ok =
    let own = find_own q t.rows d ok.apart found in
    record {
      coherent = update_first-All IsCoherent (λ x. x.id == d.id) f t.rows d own sound ok.coherent;
      apart = AllApart-update_first (λ x. x.id == d.id) f keeps t.rows ok.apart;
      below =
          update_first-keeps (λ x. ltb x.id t.next_id ≡ true) (λ x. x.id == d.id) f t.rows
            (λ x h. ground (arith, keeps x)) ok.below;
    }

-- The compare-and-set of a check-out.
module _ (id : ℕ) (check_out : Instant) where
  abbrev close : AttendanceDay → AttendanceDay
  close d = record d { check_out = some check_out }

  close-IsCoherent :
      (d : AttendanceDay) → is_some d.check_in ≡ true → IsCoherent d → IsCoherent (close d)
  close-IsCoherent d arrived ok = ground arith

  closed-All :
      (rows : List AttendanceDay)
      → Arrived rows id
      → All IsCoherent rows
      → All IsCoherent (update_where (is_open_row id) close rows)
  closed-All [] arrived all = tt
  closed-All (x ∷ xs) arrived all = (
    elim (Bool-cases (is_open_row id x)) [
      | inl t ↦ rw t (close-IsCoherent x (arrived.0 (ground arith)) all.0)
      | inr e ↦ rw e all.0
    ],
    closed-All xs arrived.1 all.1,
  )

  pub close_day-DaysOk :
      (db : Db)
      → Arrived db.days.rows id
      → DaysOk db.days
      → DaysOk (close_day id check_out db).1.days
  unfolding close_day
  close_day-DaysOk db arrived ok = record {
    coherent = closed-All db.days.rows arrived ok.coherent;
    apart =
        AllApart-update_where (is_open_row id) close (λ d. (refl, refl, refl)) db.days.rows
          ok.apart;
    below =
        update_where-All (λ d. ltb d.id db.days.next_id ≡ true) (is_open_row id) close db.days.rows
          (λ d t h. h) ok.below;
  }

  -- A check-out takes no check-in away.
  pub Arrived-close_day :
      (n : ℕ) (db : Db) → Arrived db.days.rows n → Arrived (close_day id check_out db).1.days.rows n
  unfolding close_day
  Arrived-close_day n db arrived =
      update_where-All (λ x. (x.id == n) ≡ true → is_some x.check_in ≡ true) (is_open_row id) close
        db.days.rows (λ d t h. h) arrived

-- A deletion.
pub select-DaysOk :
    (p : AttendanceDay → Bool) (t : Table AttendanceDay)
    → DaysOk t
    → DaysOk (record t { rows = select p t.rows })
select-DaysOk p t ok = record {
  coherent = select-All IsCoherent p t.rows ok.coherent;
  apart = AllApart-select p t.rows ok.apart;
  below = select-All (λ d. ltb d.id t.next_id ≡ true) p t.rows ok.below;
}

-- The admin's decisions on a row.
pub verify_row-IsCoherent :
    (action : VerifyAction) (remark : Option String) (admin_id : ℕ) (d : AttendanceDay)
    → awaits_verification d ≡ true
    → IsCoherent d
    → IsCoherent (verify_row action remark admin_id d)
verify_row-IsCoherent VerifyAction.approve remark admin_id d awaits ok = ground arith
verify_row-IsCoherent VerifyAction.query remark admin_id d awaits ok = ground arith

pub resolve_row-IsCoherent :
    (r : Resolution) (remark : Option String) (admin_id : ℕ) (d : AttendanceDay)
    → IsCoherent d
    → IsCoherent (resolve_row r remark admin_id d)
resolve_row-IsCoherent Resolution.present remark admin_id d ok = ground arith
resolve_row-IsCoherent Resolution.absent remark admin_id d ok = ground arith
resolve_row-IsCoherent Resolution.leave remark admin_id d ok = ground arith
