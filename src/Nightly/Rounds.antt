-- ===== src/Nightly/Rounds.antt =====
-- app/nightly_service.py `run_nightly_resolution`: the loop as a fold over its rounds, the
-- employees that have a roster with that roster's office.
use mathlib.Core.Option.{some-injective}
use office_attendance_backen.Base.{
  ℕ, ◌≡◌, ◌∙◌, refl, sym, subst, Option, none, some, List, [], ◌∷◌, arith, Option-cases, inl, inr,
}
use office_attendance_backen.Time.{Instant, Zones}
use office_attendance_backen.Model.{Db, Office, Roster, User}
use office_attendance_backen.Session.{Session, ok, err, internal}
use office_attendance_backen.Presence.{ensure_off_day, upsert_day}
use office_attendance_backen.Attendance.{assigned_roster, zoned_office}
use office_attendance_backen.Nightly.{Stats, close_day, flag_day, resolve_day, resolve_all}
use office_attendance_backen.Nightly.Body.{resolve_day-keeps}
use office_attendance_backen.Nightly.Loop.{
  resolve_employee_no_roster, resolve_employee_no_office, resolve_employee_day, resolve_all-ok,
  resolve_all-err,
}

abbrev pub Round : Type 0
Round = ℕ × Roster × Office

-- A round in front of the others.
abbrev add_round : Round → Option (List Round) → Option (List Round)
add_round x none = none
add_round x (some xs) = some (x ∷ xs)

abbrev round_at : ℕ → Roster → Option Office → Option (List Round) → Option (List Round)
round_at id r none rest = none
round_at id r (some o) rest = add_round (id, r, o) rest

-- The rounds of the loop; `none` if a roster that an employee has been assigned lacks its office, or the
-- office's zone is not known.
unfoldable pub rounds : Zones → List User → Db → Option (List Round)
rounds z [] db = some []
rounds z (emp ∷ emps) db =
    let rest = rounds z emps db in
    elim (assigned_roster emp db) [
      | none ↦ rest
      | some r ↦ round_at emp.id r (zoned_office z r db) rest
    ]

module _ (z : Zones) (now : Instant) where
  unfoldable pub run_rounds : List Round → Stats → Db → Stats × Db
  run_rounds [] st db = (st, db)
  run_rounds ((a, r, o) ∷ rs) st db =
      let (st', db') = resolve_day z now a r o st db in run_rounds rs st' db'

  pub run_rounds-keeps :
      (P : Db → Type 0)
      → ((a : ℕ) (r : Roster) (o : Office) (st : Stats) (db : Db)
          → P db
          → P (resolve_day z now a r o st db).1)
      → (rs : List Round) (st : Stats) (db : Db) → P db
      → P (run_rounds rs st db).1
  unfolding run_rounds
  run_rounds-keeps P step [] st db h = h
  run_rounds-keeps P step ((a, r, o) ∷ rs) st db h =
      let next = resolve_day z now a r o st db in
      run_rounds-keeps P step rs next.0 next.1 (step a r o st db h)

-- The tables that the job reads and does not write.
abbrev pub SameStaff : Db → Db → Type 0
SameStaff a b =
    (a.users ≡ b.users)
    × (a.rosters ≡ b.rosters)
    × (a.offices ≡ b.offices)
    × (a.time_override ≡ b.time_override)

pub resolve_day-SameStaff :
    (z : Zones) (now : Instant) (db0 : Db) (a : ℕ) (r : Roster) (o : Office) (st : Stats) (db : Db)
    → SameStaff db db0
    → SameStaff (resolve_day z now a r o st db).1 db0
unfolding ensure_off_day upsert_day flag_day close_day
resolve_day-SameStaff z now db0 a r o st db =
    resolve_day-keeps {P = λ x. SameStaff x db0} (λ a b x h. h) (λ a b x h. h) (λ id t x h. h) z now
      a r o st db

roster-SameStaff :
    (emp : User) (a b : Db) → SameStaff a b → assigned_roster emp a ≡ assigned_roster emp b
roster-SameStaff emp a b h = rw h.1

office-SameStaff :
    (z : Zones) (r : Roster) (a b : Db) → SameStaff a b → zoned_office z r a ≡ zoned_office z r b
office-SameStaff z r a b h = rw h.2

pub rounds-SameStaff :
    (z : Zones) (emps : List User) (a b : Db) → SameStaff a b → rounds z emps a ≡ rounds z emps b
unfolding rounds
rounds-SameStaff z [] a b h = refl
rounds-SameStaff z (emp ∷ emps) a b h =
    let rest = rounds-SameStaff z emps a b h in
    let staff = roster-SameStaff emp a b h in
    elim (Option-cases (assigned_roster emp a)) [
      | inl e ↦ ground (arith, rest, staff)
      | inr (r, e) ↦ ground (arith, rest, staff, office-SameStaff z r a b h)
    ]

rounds_absent :
    (z : Zones) (emp : User) (emps : List User) (db : Db)
    → assigned_roster emp db ≡ none
    → rounds z (emp ∷ emps) db ≡ rounds z emps db
unfolding rounds
rounds_absent z emp emps db e = ground arith

rounds_broken :
    (z : Zones) (emp : User) (emps : List User) (db : Db) (r : Roster)
    → assigned_roster emp db ≡ some r
    → zoned_office z r db ≡ none
    → rounds z (emp ∷ emps) db ≡ none
unfolding rounds
rounds_broken z emp emps db r e eo = ground arith

rounds_present :
    (z : Zones) (emp : User) (emps : List User) (db : Db) (r : Roster) (o : Office)
    → assigned_roster emp db ≡ some r
    → zoned_office z r db ≡ some o
    → rounds z (emp ∷ emps) db ≡ add_round (emp.id, r, o) (rounds z emps db)
unfolding rounds
rounds_present z emp emps db r o e eo = ground arith

add_round-eq-some :
    (x : Round) (rest : Option (List Round)) (rs : List Round)
    → add_round x rest ≡ some rs
    → (xs : List Round) × (rest ≡ some xs) × (rs ≡ x ∷ xs)
add_round-eq-some x none rs h = cc
add_round-eq-some x (some xs) rs h = (xs, refl, sym (some-injective _ _ h))

add_round-eq-none : (x : Round) (rest : Option (List Round)) → add_round x rest ≡ none → rest ≡ none
add_round-eq-none x none h = refl
add_round-eq-none x (some xs) h = cc

module _ (z : Zones) (now : Instant) where
  -- With all rounds at hand the loop ends without an exception, as the fold.
  pub resolve_all-rounds :
      (emps : List User) (st : Stats) (s : Session) (rs : List Round)
      → rounds z emps s.current ≡ some rs
      → resolve_all z now emps st s ≡ (
        ok (run_rounds z now rs st s.current).0,
        record s { current = (run_rounds z now rs st s.current).1 },
      )
  unfolding resolve_all run_rounds rounds
  resolve_all-rounds [] st s rs h =
      subst
        (λ xs. resolve_all z now [] st s ≡ (
          ok (run_rounds z now xs st s.current).0,
          record s { current = (run_rounds z now xs st s.current).1 },
        ))
        (some-injective _ _ h) refl
  resolve_all-rounds (emp ∷ emps) st s rs h = elim (Option-cases (assigned_roster emp s.current)) [
    | inl absent ↦
        resolve_all-ok z now emp emps st st s s (resolve_employee_no_roster z now emp st s absent)
        ∙ resolve_all-rounds emps st s rs (sym (rounds_absent z emp emps s.current absent) ∙ h)
    | inr (r, er) ↦ elim (Option-cases (zoned_office z r s.current)) [
      | inl absent ↦ cc (rounds_broken z emp emps s.current r er absent)
      | inr (o, eo) ↦
          let next = resolve_day z now emp.id r o st s.current in
          let s1 : Session = record s { current = next.1 } in
          let (xs, rest, whole) =
            add_round-eq-some (emp.id, r, o) (rounds z emps s.current) rs
              (sym (rounds_present z emp emps s.current r o er eo) ∙ h) in
          let frame = rounds-SameStaff z emps next.1 s.current (
            resolve_day-SameStaff z now s.current emp.id r o st s.current
              (refl, refl, refl, refl)) in
          resolve_all-ok z now emp emps st next.0 s s1
            (resolve_employee_day z now emp st s r o er eo)
          ∙ resolve_all-rounds emps next.0 s1 xs (frame ∙ rest)
          ∙ rw whole
    ]
  ]

  pub resolve_all_no_rounds :
      (emps : List User) (st : Stats) (s : Session)
      → rounds z emps s.current ≡ none
      → ((resolve_all z now emps st s).0 ≡ err internal)
        × ((resolve_all z now emps st s).1.durable ≡ s.durable)
  unfolding rounds resolve_all
  resolve_all_no_rounds [] st s h = cc
  resolve_all_no_rounds (emp ∷ emps) st s h = elim (Option-cases (assigned_roster emp s.current)) [
    | inl absent ↦
        rw
          (resolve_all-ok z now emp emps st st s s
            (resolve_employee_no_roster z now emp st s absent))
          (resolve_all_no_rounds emps st s (sym (rounds_absent z emp emps s.current absent) ∙ h))
    | inr (r, er) ↦ elim (Option-cases (zoned_office z r s.current)) [
      | inl absent ↦
          rw
            (resolve_all-err z now emp emps st s s
              (resolve_employee_no_office z now emp st s r er absent))
            (refl, refl)
      | inr (o, eo) ↦
          let next = resolve_day z now emp.id r o st s.current in
          let s1 : Session = record s { current = next.1 } in
          let rest =
            add_round-eq-none (emp.id, r, o) (rounds z emps s.current)
              (sym (rounds_present z emp emps s.current r o er eo) ∙ h) in
          let frame = rounds-SameStaff z emps next.1 s.current (
            resolve_day-SameStaff z now s.current emp.id r o st s.current
              (refl, refl, refl, refl)) in
          rw
            (resolve_all-ok z now emp emps st next.0 s s1
              (resolve_employee_day z now emp st s r o er eo))
            (resolve_all_no_rounds emps next.0 s1 (frame ∙ rest))
    ]
  ]
