-- ===== src/Nightly/Loop.antt =====
-- app/nightly_service.py `run_nightly_resolution`: rules for the whole loop.
use office_attendance_backen.Base.{
  ℕ, ◌≡◌, ◌∙◌, sym, subst, none, some, List, [], ◌∷◌, arith, Option-cases, inl, inr,
}
use office_attendance_backen.Time.{Instant, Zones}
use office_attendance_backen.Model.{Db, Office, Roster, User}
use office_attendance_backen.Session.{Session, ok, err, internal}
use office_attendance_backen.Attendance.{assigned_roster, zoned_office}
use office_attendance_backen.Nightly.{Stats, resolve_day, resolve_employee, resolve_all}

module _ (z : Zones) (now : Instant) where
  pub resolve_employee_no_roster :
      (emp : User) (st : Stats) (s : Session)
      → assigned_roster emp s.current ≡ none
      → resolve_employee z now emp st s ≡ (ok st, s)
  unfolding resolve_employee
  resolve_employee_no_roster emp st s h = ground arith

  pub resolve_employee_no_office :
      (emp : User) (st : Stats) (s : Session) (r : Roster)
      → assigned_roster emp s.current ≡ some r
      → zoned_office z r s.current ≡ none
      → resolve_employee z now emp st s ≡ (err internal, s)
  unfolding resolve_employee
  resolve_employee_no_office emp st s r h e = ground arith

  pub resolve_employee_day :
      (emp : User) (st : Stats) (s : Session) (r : Roster) (o : Office)
      → assigned_roster emp s.current ≡ some r
      → zoned_office z r s.current ≡ some o
      → resolve_employee z now emp st s ≡ (
        ok (resolve_day z now emp.id r o st s.current).0,
        record s { current = (resolve_day z now emp.id r o st s.current).1 },
      )
  unfolding resolve_employee
  resolve_employee_day emp st s r o h e = ground arith

  pub resolve_all-ok :
      (emp : User) (emps : List User) (st st' : Stats) (s s' : Session)
      → resolve_employee z now emp st s ≡ (ok st', s')
      → resolve_all z now (emp ∷ emps) st s ≡ resolve_all z now emps st' s'
  unfolding resolve_all
  resolve_all-ok emp emps st st' s s' h = ground arith

  pub resolve_all-err :
      (emp : User) (emps : List User) (st : Stats) (s s' : Session)
      → resolve_employee z now emp st s ≡ (err internal, s')
      → resolve_all z now (emp ∷ emps) st s ≡ (err internal, s')
  unfolding resolve_all
  resolve_all-err emp emps st s s' h = ground arith

  -- What every round keeps, a loop that ends without an exception keeps.
  pub resolve_all-keeps :
      (P : Db → Type 0)
      → ((a : ℕ) (r : Roster) (o : Office) (st : Stats) (db : Db)
          → P db
          → P (resolve_day z now a r o st db).1)
      → (emps : List User) (st st' : Stats) (s s' : Session)
      → resolve_all z now emps st s ≡ (ok st', s')
      → P s.current
      → P s'.current
  unfolding resolve_all
  resolve_all-keeps P step [] st st' s s' e h = subst (λ x. P x.1.current) e h
  resolve_all-keeps P step (emp ∷ emps) st st' s s' e h =
      elim (Option-cases (assigned_roster emp s.current)) [
        | inl absent ↦
            resolve_all-keeps P step emps st st' s s'
              (sym (resolve_all-ok emp emps st st s s (resolve_employee_no_roster emp st s absent))
                ∙ e)
              h
        | inr (r, er) ↦ elim (Option-cases (zoned_office z r s.current)) [
          | inl absent ↦
              cc (
                resolve_all-err emp emps st s s (resolve_employee_no_office emp st s r er absent),
                e,
              )
          | inr (o, eo) ↦
              let next = resolve_day z now emp.id r o st s.current in
              let s1 : Session = record s { current = next.1 } in
              resolve_all-keeps P step emps next.0 st' s1 s'
                (sym (
                    resolve_all-ok emp emps st next.0 s s1
                      (resolve_employee_day emp st s r o er eo))
                  ∙ e)
                (step emp.id r o st s.current h)
        ]
      ]
