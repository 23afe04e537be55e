-- ===== src/Seed/Again.antt =====
-- seed.py: running the script again changes nothing.
use office_attendance_backen.Base.{◌≡◌, ◌∙◌, ap, refl, sym, subst, arith, inl, inr}
use office_attendance_backen.Model.{Db, Office, Roster, Table}
use office_attendance_backen.World.{World, Clock}
use office_attendance_backen.Session.{
  Action, ◌>>=◌, ◌>>◌, commit, Session, Result-cases, request, ok, err,
}
use office_attendance_backen.Seed.{
  is_head, roster_specs, employee_specs, ensure_office, ByName, ensure_rosters, ensure_employees,
  seed_data,
}
use office_attendance_backen.Seed.Sole.{Sole}
use office_attendance_backen.Seed.Steps.{ensure_office-Sole, ensure_office_settled}
use office_attendance_backen.Seed.RosterLoop.{
  NamesApart, RostersSettled, ensure_rosters-RostersSettled, ensure_rosters_settled,
  ensure_rosters-offices,
}
use office_attendance_backen.Seed.EmployeeLoop.{
  EmailsApart, StaffSettled, ensure_employees-StaffSettled, ensure_employees_settled,
  ensure_employees-tables,
}

-- What a run of the second session leaves.
record IsSeeded (db : Db) : Type 0 where
  office : Office
  rosters : ByName
  head : Sole is_head db.offices.rows office
  staffed : RostersSettled roster_specs rosters db.rosters.rows
  settled : StaffSettled rosters employee_specs db.users.rows

names_apart : NamesApart roster_specs
names_apart = ((refl, (refl, tt)), ((refl, tt), (tt, tt)))

emails_apart : EmailsApart employee_specs
emails_apart = ((refl, (refl, tt)), ((refl, tt), (tt, tt)))

seed_data-IsSeeded :
    (w : World) (c : Clock) (db : Db)
    → (request (seed_data w c) db).0 ≡ ok tt
    → IsSeeded (request (seed_data w c) db).1
unfolding seed_data
seed_data-IsSeeded w c db h =
    let s : Session = record { durable = db; current = db } in
    let s1 = (ensure_office c s).1 in
    elim (Result-cases (ensure_office c s).0) [
      | inr (x, e) ↦ ground arith
      | inl (o, e) ↦
          let s2 = (ensure_rosters c o.id roster_specs s1).1 in
          elim (Result-cases (ensure_rosters c o.id roster_specs s1).0) [
            | inr (x, k) ↦ ground arith
            | inl (rosters, k) ↦
                let s3 = (ensure_employees w c rosters employee_specs s2).1 in
                let last : (ensure_employees w c rosters employee_specs s2).0 ≡ ok tt =
                  ground arith in
                let whole : (request (seed_data w c) db).1 ≡ s3.current = ground arith in
                let (offices, rs) = ensure_employees-tables w c rosters employee_specs s2 last in
                let same = offices ∙ ensure_rosters-offices c o.id roster_specs s1 rosters k in
                subst IsSeeded (sym whole) (record {
                  office = o;
                  rosters = rosters;
                  head =
                      subst (λ (t : Table Office). Sole is_head t.rows o) (sym same)
                        (ensure_office-Sole c s o e);
                  staffed =
                      subst (λ (t : Table Roster). RostersSettled roster_specs rosters t.rows)
                        (sym rs)
                        (ensure_rosters-RostersSettled c o.id roster_specs s1 rosters names_apart
                          k);
                  settled =
                      ensure_employees-StaffSettled w c rosters employee_specs s2 emails_apart last;
                })
          ]
    ]

bind-ok :
    {A B : Type 0} (m : Action A) (k : A → Action B) (a : A) (s : Session)
    → m s ≡ (ok a, s)
    → (m >>= k) s ≡ k a s
bind-ok m k a s h = ap (λ x. elim x.0 [ ok b ↦ k b x.1 | err e ↦ (err e, x.1) ]) h

-- A run on what a run has left.
seed_data_settled :
    (w : World) (c : Clock) (db : Db) → IsSeeded db → request (seed_data w c) db ≡ (ok tt, db)
unfolding seed_data
seed_data_settled w c db h =
    let s : Session = record { durable = db; current = db } in
    let staff : ByName → Action (Unit {0}) =
      λ rosters. ensure_employees w c rosters employee_specs >> commit in
    let whole : seed_data w c s ≡ (ok tt, s) =
      bind-ok (ensure_office c) (λ o. ensure_rosters c o.id roster_specs >>= staff) h.office s
        (ensure_office_settled c s h.office h.head)
      ∙ bind-ok (ensure_rosters c h.office.id roster_specs) staff h.rosters s
          (ensure_rosters_settled c h.office.id roster_specs h.rosters s h.staffed)
      ∙ bind-ok (ensure_employees w c h.rosters employee_specs) (λ x. commit) tt s
          (ensure_employees_settled w c h.rosters employee_specs s h.settled) in
    ap (λ x. (x.0, x.1.durable)) whole

-- Seeding the office, the rosters and the employees is idempotent: a run after one that succeeded,
-- at whatever moment, succeeds and changes nothing in the database.
pub seed_data_twice :
    (w : World) (c c' : Clock) (db : Db)
    → (request (seed_data w c) db).0 ≡ ok tt
    → request (seed_data w c') (request (seed_data w c) db).1
      ≡ (ok tt, (request (seed_data w c) db).1)
seed_data_twice w c c' db h =
    seed_data_settled w c' (request (seed_data w c) db).1 (seed_data-IsSeeded w c db h)
