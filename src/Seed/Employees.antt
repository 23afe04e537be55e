-- ===== src/Seed/Employees.antt =====
-- seed.py `ensure_employees`: what the step for one employee leaves settled.
use office_attendance_backen.Base.{
  ◌≡◌, refl, arith, ltb, String, str_eq, eq_iff, true, false, none, some, List, [], ◌∷◌, ◌++◌, find,
  count_where, update_first, if◌then◌else◌, Bool-cases, Option-cases, inl, inr,
}
use office_attendance_backen.Model.{Roster, User}
use office_attendance_backen.World.{World, Clock}
use office_attendance_backen.Session.{Session, ok}
use office_attendance_backen.Seed.{
  is_of, EmployeeSpec, ByName, roster_named, employee_row, reasserted, write_employee,
  ensure_employee,
}
use office_attendance_backen.Seed.Sole.{
  Sole, sole_found, Sole-inserted, Sole-other, Sole-written, Sole-apart, update_first_same,
}
use office_attendance_backen.Seed.Steps.{str_eq_refl}

-- The one user of the email is as the script writes them.
abbrev pub IsAsserted : EmployeeSpec → Roster → List User → Type 0
IsAsserted spec roster rows =
    (u : User) × Sole (is_of spec.email) rows u × (reasserted spec roster u ≡ u)

-- The users after the step for an employee whose roster is there.
abbrev asserted_rows : EmployeeSpec → Roster → User → List User → List User
asserted_rows spec roster new rows =
    if ltb 1 (count_where (is_of spec.email) rows)
    then rows
    else elim (find (is_of spec.email) rows) [
      | none ↦ rows ++ new ∷ []
      | some x ↦ update_first (is_of spec.email) (reasserted spec roster) rows
    ]

rows-ensure_employee :
    (w : World) (c : Clock) (rosters : ByName) (spec : EmployeeSpec) (s : Session) (roster : Roster)
    → roster_named spec.roster rosters ≡ some roster
    → (ensure_employee w c rosters spec s).1.current.users.rows
      ≡ asserted_rows spec roster
          (employee_row w c spec roster s.current.users.next_id)
          s.current.users.rows
unfolding ensure_employee write_employee
rows-ensure_employee w c rosters spec s roster named = ground arith

result-ensure_employee :
    (w : World) (c : Clock) (rosters : ByName) (spec : EmployeeSpec) (s : Session)
    → (ensure_employee w c rosters spec s).0 ≡ ok tt
    → (ltb 1 (count_where (is_of spec.email) s.current.users.rows) ≡ false)
      × (roster : Roster) × (roster_named spec.roster rosters ≡ some roster)
unfolding ensure_employee write_employee
result-ensure_employee w c rosters spec s h =
    elim (Option-cases (roster_named spec.roster rosters)) [
      | inl gone ↦ ground arith
      | inr (roster, named) ↦ (ground arith, roster, named)
    ]

asserted_rows-IsAsserted :
    (spec : EmployeeSpec) (roster : Roster) (new : User) (rows : List User)
    → ltb 1 (count_where (is_of spec.email) rows) ≡ false
    → is_of spec.email new ≡ true
    → reasserted spec roster new ≡ new
    → IsAsserted spec roster (asserted_rows spec roster new rows)
asserted_rows-IsAsserted spec roster new rows few passes same =
    let p = is_of spec.email in
    elim (Option-cases (find p rows)) [
      | inr (x, found) ↦ (
        reasserted spec roster x,
        rw (few, found) (Sole-written p (reasserted spec roster) rows x (λ u. refl) (few, found)),
        refl,
      )
      | inl absent ↦ (new, rw (few, absent) (Sole-inserted p rows new absent passes), same)
    ]

pub ensure_employee-IsAsserted :
    (w : World) (c : Clock) (rosters : ByName) (spec : EmployeeSpec) (s : Session)
    → (ensure_employee w c rosters spec s).0 ≡ ok tt
    → (roster : Roster) × (roster_named spec.roster rosters ≡ some roster)
      × IsAsserted spec roster (ensure_employee w c rosters spec s).1.current.users.rows
ensure_employee-IsAsserted w c rosters spec s h =
    let (few, roster, named) = result-ensure_employee w c rosters spec s h in
    let new = employee_row w c spec roster s.current.users.next_id in
    (
      roster,
      named,
      rw (rows-ensure_employee w c rosters spec s roster named) (
          asserted_rows-IsAsserted spec roster new s.current.users.rows few (str_eq_refl spec.email)
            refl),
    )

pub ensure_employee_settled :
    (w : World) (c : Clock) (rosters : ByName) (spec : EmployeeSpec) (s : Session) (roster : Roster)
    → roster_named spec.roster rosters ≡ some roster
    → IsAsserted spec roster s.current.users.rows
    → ensure_employee w c rosters spec s ≡ (ok tt, s)
unfolding ensure_employee write_employee
ensure_employee_settled w c rosters spec s roster named (u, one, same) =
    let kept =
      update_first_same (is_of spec.email) (reasserted spec roster) s.current.users.rows u one.1
        same in
    ground (arith, sole_found (λ db. db.users.rows) (is_of spec.email) u s one)

apart-emails : (a b : String) (u : User) → str_eq a b ≡ false → is_of b u ≡ true → is_of a u ≡ false
apart-emails a b u h k = elim (Bool-cases (is_of a u)) [
  | inr other ↦ other
  | inl same ↦ cc (str_eq_refl a, (eq_iff u.email a).0 same, (eq_iff u.email b).0 k)
]

-- The user of another email stays as they are.
pub ensure_employee-keeps :
    (w : World) (c : Clock) (rosters : ByName) (spec other : EmployeeSpec) (mine roster : Roster)
    (s : Session)
    → roster_named spec.roster rosters ≡ some mine
    → str_eq spec.email other.email ≡ false
    → IsAsserted other roster s.current.users.rows
    → IsAsserted other roster (ensure_employee w c rosters spec s).1.current.users.rows
ensure_employee-keeps w c rosters spec other mine roster s named apart (u, one, same) =
    let rows = s.current.users.rows in
    let p = is_of spec.email in
    let new = employee_row w c spec mine s.current.users.next_id in
    rw (rows-ensure_employee w c rosters spec s mine named)
      (elim (Bool-cases (ltb 1 (count_where p rows))) [
        | inl many ↦ rw many (u, one, same)
        | inr few ↦ elim (Option-cases (find p rows)) [
          | inl absent ↦
              rw (few, absent) (u, Sole-other (is_of other.email) rows u new apart one, same)
          | inr (x, found) ↦
              rw (few, found)
                (
                  u,
                  Sole-apart p (is_of other.email) (reasserted spec mine) rows u (λ y. refl)
                      (λ y. apart-emails spec.email other.email y apart) one,
                  same,
                )
        ]
      ])
