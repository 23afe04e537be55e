-- ===== src/Days/Decisions.antt =====
-- app/routers/admin.py: deletions of employees and decisions on days keep the table of days.
use office_attendance_backen.Base.{
  ℕ, ◌==◌, String, true, false, not, ◌⊎◌, Option, none, some, ◌≡◌, refl, sym, subst, arith,
  find-All, select, inl, inr, Bool-cases, Option-cases,
}
use office_attendance_backen.Model.{User, AttendanceDay, Db, is_employee, update_row}
use office_attendance_backen.World.{Clock}
use office_attendance_backen.Session.{request}
use office_attendance_backen.Deps.{log_action, user_by_id}
use office_attendance_backen.Admin.{
  VerifyAction, Resolution, get_employee, delete_employee, detach_actor, delete_user,
  verify_gps_day, verify_row, awaits_verification, resolve_flagged_day, resolve_row, day_by_id,
}
use office_attendance_backen.Days.{IsCoherent, DaysOk}
use office_attendance_backen.Days.Tables.{KeepsKey}
use office_attendance_backen.Days.Writes.{
  update_found-DaysOk, select-DaysOk, verify_row-IsCoherent, resolve_row-IsCoherent,
}
use office_attendance_backen.Days.Keeps.{KeepsDays}

-- The table of days after a deletion.
delete_employee-days :
    (c : Clock) (admin : User) (id : ℕ) (db : Db) (e : User)
    → user_by_id id db ≡ some e
    → is_employee e.role ≡ true
    → (request (delete_employee c admin id) db).1.days
      ≡ record db.days { rows = select (λ d. not (d.user_id == e.id)) db.days.rows }
unfolding delete_employee get_employee detach_actor delete_user log_action
delete_employee-days c admin id db e found role = ground arith

delete_employee_same :
    (c : Clock) (admin : User) (id : ℕ) (db : Db)
    → (user_by_id id db ≡ none)
      ⊎ ((e : User) × (user_by_id id db ≡ some e) × (is_employee e.role ≡ false))
    → (request (delete_employee c admin id) db).1.days ≡ db.days
unfolding delete_employee get_employee
delete_employee_same c admin id db (inl absent) = ground arith
delete_employee_same c admin id db (inr (e, found, role)) = ground arith

pub delete_employee-KeepsDays :
    (c : Clock) (admin : User) (id : ℕ) → KeepsDays (delete_employee c admin id)
delete_employee-KeepsDays c admin id db good = elim (Option-cases (user_by_id id db)) [
  | inl absent ↦ subst DaysOk (sym (delete_employee_same c admin id db (inl absent))) good
  | inr (e, found) ↦ elim (Bool-cases (is_employee e.role)) [
    | inl role ↦
        subst DaysOk (sym (delete_employee-days c admin id db e found role))
          (select-DaysOk (λ d. not (d.user_id == e.id)) db.days good)
    | inr other ↦
        subst DaysOk (sym (delete_employee_same c admin id db (inr (e, found, other)))) good
  ]
]

module _ (c : Clock) (admin : User) (id : ℕ) (remark : Option String) (db : Db) where
  verify_gps_day-days :
      (action : VerifyAction) (d : AttendanceDay)
      → day_by_id id db ≡ some d
      → awaits_verification d ≡ true
      → (request (verify_gps_day c admin id action remark) db).1.days
        ≡ update_row (λ x. x.id == d.id) (verify_row action remark admin.id) db.days
  unfolding verify_gps_day log_action
  verify_gps_day-days action d found awaits = ground arith

  verify_gps_day_same :
      (action : VerifyAction)
      → (day_by_id id db ≡ none)
        ⊎ ((d : AttendanceDay) × (day_by_id id db ≡ some d) × (awaits_verification d ≡ false))
      → (request (verify_gps_day c admin id action remark) db).1.days ≡ db.days
  unfolding verify_gps_day
  verify_gps_day_same action (inl absent) = ground arith
  verify_gps_day_same action (inr (d, found, settled)) = ground arith

  resolve_flagged_day-days :
      (r : Resolution) (d : AttendanceDay)
      → day_by_id id db ≡ some d
      → (request (resolve_flagged_day c admin id r remark) db).1.days
        ≡ update_row (λ x. x.id == d.id) (resolve_row r remark admin.id) db.days
  unfolding resolve_flagged_day log_action
  resolve_flagged_day-days r d found = ground arith

  resolve_flagged_day_same :
      (r : Resolution)
      → day_by_id id db ≡ none
      → (request (resolve_flagged_day c admin id r remark) db).1.days ≡ db.days
  unfolding resolve_flagged_day
  resolve_flagged_day_same r absent = ground arith

verify_row_keys :
    (action : VerifyAction) (remark : Option String) (admin_id : ℕ)
    → KeepsKey (verify_row action remark admin_id)
verify_row_keys VerifyAction.approve remark admin_id d = (refl, refl, refl)
verify_row_keys VerifyAction.query remark admin_id d = (refl, refl, refl)

pub verify_gps_day-KeepsDays :
    (c : Clock) (admin : User) (id : ℕ) (action : VerifyAction) (remark : Option String)
    → KeepsDays (verify_gps_day c admin id action remark)
verify_gps_day-KeepsDays c admin id action remark db good = elim (Option-cases (day_by_id id db)) [
  | inl absent ↦
      subst DaysOk (sym (verify_gps_day_same c admin id remark db action (inl absent))) good
  | inr (d, found) ↦ elim (Bool-cases (awaits_verification d)) [
    | inr settled ↦
        subst DaysOk
          (sym (verify_gps_day_same c admin id remark db action (inr (d, found, settled)))) good
    | inl awaits ↦
        let row = find-All IsCoherent (λ x. x.id == id) db.days.rows d good.coherent found in
        subst DaysOk (sym (verify_gps_day-days c admin id remark db action d found awaits)) (
          update_found-DaysOk (λ x. x.id == id) (verify_row action remark admin.id) db.days d
            (verify_row_keys action remark admin.id) found
            (verify_row-IsCoherent action remark admin.id d awaits row) good)
  ]
]

pub resolve_flagged_day-KeepsDays :
    (c : Clock) (admin : User) (id : ℕ) (r : Resolution) (remark : Option String)
    → KeepsDays (resolve_flagged_day c admin id r remark)
resolve_flagged_day-KeepsDays c admin id r remark db good = elim (Option-cases (day_by_id id db)) [
  | inl absent ↦ subst DaysOk (sym (resolve_flagged_day_same c admin id remark db r absent)) good
  | inr (d, found) ↦
      let row = find-All IsCoherent (λ x. x.id == id) db.days.rows d good.coherent found in
      subst DaysOk (sym (resolve_flagged_day-days c admin id remark db r d found)) (
        update_found-DaysOk (λ x. x.id == id) (resolve_row r remark admin.id) db.days d
          (λ x. (refl, refl, refl)) found (resolve_row-IsCoherent r remark admin.id d row) good)
]
