-- ===== src/Seed/EmployeeLoop.antt =====
-- seed.py `ensure_employees`: the loop leaves every employee settled, and then changes nothing.
use office_attendance_backen.Base.{
  ◌≡◌, ◌∙◌, ap, refl, sym, subst, arith, String, str_eq, false, some, List, [], ◌∷◌, inl, inr,
}
use office_attendance_backen.Model.{Roster, User}
use office_attendance_backen.World.{World, Clock}
use office_attendance_backen.Session.{Session, Result-cases, ok}
use office_attendance_backen.Seed.{
  EmployeeSpec, ByName, roster_named, write_employee, ensure_employee, ensure_employees,
}
use office_attendance_backen.Seed.Employees.{
  IsAsserted, ensure_employee-IsAsserted, ensure_employee_settled, ensure_employee-keeps,
}

-- No specification below has the email.
abbrev EmailApart : String → List EmployeeSpec → Type 0
EmailApart email [] = Unit
EmailApart email (spec ∷ specs) = (str_eq spec.email email ≡ false) × EmailApart email specs

abbrev pub EmailsApart : List EmployeeSpec → Type 0
EmailsApart [] = Unit
EmailsApart (spec ∷ specs) = EmailApart spec.email specs × EmailsApart specs

-- Each specification has its roster and its one user, as the script writes them.
abbrev pub StaffSettled : ByName → List EmployeeSpec → List User → Type 0
StaffSettled rosters [] users = Unit
StaffSettled rosters (spec ∷ specs) users =
    ((roster : Roster) × (roster_named spec.roster rosters ≡ some roster)
      × IsAsserted spec roster users)
    × StaffSettled rosters specs users

module _ (w : World) (c : Clock) (rosters : ByName) where
  ensure_employees-split :
      (spec : EmployeeSpec) (specs : List EmployeeSpec) (s : Session)
      → (ensure_employees w c rosters (spec ∷ specs) s).0 ≡ ok tt
      → let s' = (ensure_employee w c rosters spec s).1 in
        ((ensure_employee w c rosters spec s).0 ≡ ok tt)
        × ((ensure_employees w c rosters specs s').0 ≡ ok tt)
        × ((ensure_employees w c rosters (spec ∷ specs) s).1
            ≡ (ensure_employees w c rosters specs s').1)
  unfolding ensure_employees
  ensure_employees-split spec specs s h =
      elim (Result-cases (ensure_employee w c rosters spec s).0) [
        | inr (x, e) ↦ ground arith
        | inl (r, e) ↦ (e, ground arith, ground arith)
      ]

  ensure_employees-keeps :
      (specs : List EmployeeSpec) (s : Session) (other : EmployeeSpec) (roster : Roster)
      → (ensure_employees w c rosters specs s).0 ≡ ok tt
      → EmailApart other.email specs
      → IsAsserted other roster s.current.users.rows
      → IsAsserted other roster (ensure_employees w c rosters specs s).1.current.users.rows
  unfolding ensure_employees
  ensure_employees-keeps [] s other roster e apart h = h
  ensure_employees-keeps (spec ∷ specs) s other roster e apart h =
      let (this, below, after) = ensure_employees-split spec specs s e in
      let (mine, named, done_now) = ensure_employee-IsAsserted w c rosters spec s this in
      subst (λ t. IsAsserted other roster t.current.users.rows) (sym after)
        (ensure_employees-keeps specs (ensure_employee w c rosters spec s).1 other roster below
          apart.1 (ensure_employee-keeps w c rosters spec other mine roster s named apart.0 h))

  pub ensure_employees-StaffSettled :
      (specs : List EmployeeSpec) (s : Session)
      → EmailsApart specs
      → (ensure_employees w c rosters specs s).0 ≡ ok tt
      → StaffSettled rosters specs (ensure_employees w c rosters specs s).1.current.users.rows
  ensure_employees-StaffSettled [] s apart e = tt
  ensure_employees-StaffSettled (spec ∷ specs) s apart e =
      let (this, below, after) = ensure_employees-split spec specs s e in
      let s' = (ensure_employee w c rosters spec s).1 in
      let (mine, named, asserted) = ensure_employee-IsAsserted w c rosters spec s this in
      rw after (
        (mine, named, ensure_employees-keeps specs s' spec mine below apart.0 asserted),
        ensure_employees-StaffSettled specs s' apart.1 below,
      )

  pub ensure_employees_settled :
      (specs : List EmployeeSpec) (s : Session)
      → StaffSettled rosters specs s.current.users.rows
      → ensure_employees w c rosters specs s ≡ (ok tt, s)
  unfolding ensure_employees
  ensure_employees_settled [] s h = refl
  ensure_employees_settled (spec ∷ specs) s ((roster, named, one), below) = ground (
    arith,
    ensure_employee_settled w c rosters spec s roster named one,
    ensure_employees_settled specs s below,
  )

  -- Employees are all that is written.
  ensure_employee-tables :
      (spec : EmployeeSpec) (s : Session)
      → ((ensure_employee w c rosters spec s).1.current.offices ≡ s.current.offices)
        × ((ensure_employee w c rosters spec s).1.current.rosters ≡ s.current.rosters)
  unfolding ensure_employee write_employee
  ensure_employee-tables spec s = (ground arith, ground arith)

  pub ensure_employees-tables :
      (specs : List EmployeeSpec) (s : Session)
      → (ensure_employees w c rosters specs s).0 ≡ ok tt
      → ((ensure_employees w c rosters specs s).1.current.offices ≡ s.current.offices)
        × ((ensure_employees w c rosters specs s).1.current.rosters ≡ s.current.rosters)
  unfolding ensure_employees
  ensure_employees-tables [] s e = (refl, refl)
  ensure_employees-tables (spec ∷ specs) s e =
      let (this, below, after) = ensure_employees-split spec specs s e in
      let (o, r) = ensure_employee-tables spec s in
      let (os, rs) = ensure_employees-tables specs (ensure_employee w c rosters spec s).1 below in
      (ap (λ t. t.current.offices) after ∙ os ∙ o, ap (λ t. t.current.rosters) after ∙ rs ∙ r)
