-- ===== src/Admin/Review.antt =====
-- app/routers/admin.py `verify_gps_day`: the review of a GPS check-in, on every branch.
use office_attendance_backen.Base.{
  ℕ, ◌==◌, ◌≡◌, refl, String, Option, none, some, List, [], ◌∷◌, arith, find, find-passes,
  update_first, ==_iff, Bool-cases, Option-cases, inl, inr, if◌then◌else◌,
}
use office_attendance_backen.Model.{AttendanceDay, Db, User}
use office_attendance_backen.World.{Clock}
use office_attendance_backen.Session.{Result, request, ok, err, not_found, conflict}
use office_attendance_backen.Deps.{log_action}
use office_attendance_backen.Admin.Days.{
  VerifyAction, approve, query, day_by_id, awaits_verification, verify_row, verify_gps_day,
}

abbrev map_day : (AttendanceDay → AttendanceDay) → Option AttendanceDay → Option AttendanceDay
map_day f none = none
map_day f (some d) = some (f d)

find-update_first :
    (n k : ℕ) (f : AttendanceDay → AttendanceDay) (rows : List AttendanceDay)
    → ((d : AttendanceDay) → (f d).id ≡ d.id)
    → find (λ d. d.id == n) (update_first (λ d. d.id == k) f rows)
      ≡ (if n == k then map_day f (find (λ d. d.id == k) rows) else find (λ d. d.id == n) rows)
find-update_first n k f [] keep = ground arith
find-update_first n k f (d ∷ rows) keep =
    let rest = find-update_first n k f rows keep in
    let same = keep d in
    elim (Bool-cases (d.id == k)) [ inl t ↦ ground (arith, keep d) | inr e ↦ ground (arith, rest) ]

verify_row_id :
    (action : VerifyAction) (remark : Option String) (admin_id : ℕ) (d : AttendanceDay)
    → (verify_row action remark admin_id d).id ≡ d.id
verify_row_id approve remark admin_id d = refl
verify_row_id query remark admin_id d = refl

-- What the review of a day answers, and what it leaves of it.
abbrev review_answer : Option AttendanceDay → Result (Unit {0})
review_answer none = err not_found
review_answer (some d) = if awaits_verification d then ok tt else err conflict

abbrev reviewed : VerifyAction → Option String → ℕ → Option AttendanceDay → Option AttendanceDay
reviewed action remark admin_id none = none
reviewed action remark admin_id (some d) =
    if awaits_verification d then some (verify_row action remark admin_id d) else some d

-- The review of a day is 404 if there is no such day, 409 if the day awaits no verification, and else
-- writes the day; every other day stays as it is.
pub verify_gps_day_lem :
    (c : Clock) (admin : User) (id : ℕ) (action : VerifyAction) (remark : Option String) (db : Db)
    (other : ℕ)
    → ((request (verify_gps_day c admin id action remark) db).0 ≡ review_answer (day_by_id id db))
      × (day_by_id other (request (verify_gps_day c admin id action remark) db).1 ≡ (
          if other == id
          then reviewed action remark admin.id (day_by_id id db)
          else day_by_id other db))
unfolding verify_gps_day log_action
verify_gps_day_lem c admin id action remark db other = elim (Option-cases (day_by_id id db)) [
  | inl absent ↦ ground arith
  | inr (d, found) ↦
      let same = (==_iff d.id id).0 (find-passes (λ x. x.id == id) db.days.rows d found) in
      elim (Bool-cases (awaits_verification d)) [
        | inr settled ↦ ground arith
        | inl awaits ↦ ground (
          arith,
          find-update_first other d.id (verify_row action remark admin.id) db.days.rows
              (verify_row_id action remark admin.id),
        )
      ]
]
