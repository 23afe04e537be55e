-- ===== src/Seed/Steps.antt =====
-- seed.py: what each step leaves settled, and that a settled step changes nothing.
use office_attendance_backen.Base.{
  ℕ, ◌≡◌, ◌∙◌, ap, refl, sym, subst, arith, ltb, String, str_eq, eq_iff, Bool, true, false, none,
  some, List, [], ◌∷◌, ◌++◌, find, count_where, if◌then◌else◌, Bool-cases, Option-cases, inl, inr,
}
use office_attendance_backen.Model.{Office, Roster}
use office_attendance_backen.World.{Clock}
use office_attendance_backen.Session.{Session, ok}
use office_attendance_backen.Seed.{
  is_head, is_named, RosterSpec, office_row, add_office, ensure_office, roster_row, add_roster,
  ensure_roster,
}
use office_attendance_backen.Seed.Sole.{Sole, sole_found, Sole-inserted, Sole-other}

pub str_eq_refl : (s : String) → str_eq s s ≡ true
str_eq_refl s = (eq_iff s s).1 refl

-- The table after a lookup that inserts a row if there is none.
abbrev pub ensured {ℓ} : {A : Type ℓ} → (A → Bool) → A → List A → List A
ensured p new rows =
    if ltb 1 (count_where p rows)
    then rows
    else elim (find p rows) [ none ↦ rows ++ new ∷ [] | some x ↦ rows ]

module _ {ℓ} {A : Type ℓ} where
  ensured-Sole :
      (p : A → Bool) (new x : A) (rows : List A)
      → ltb 1 (count_where p rows) ≡ false
      → p new ≡ true
      → (elim (find p rows) [ none ↦ new | some y ↦ y ]) ≡ x
      → Sole p (ensured p new rows) x
  ensured-Sole p new x rows few passes same = elim (Option-cases (find p rows)) [
    | inr (y, found) ↦ rw (few, found) (few, found ∙ ap (λ z. some z) (sym (rw found refl) ∙ same))
    | inl absent ↦
        rw (few, absent)
          (subst (λ y. Sole p (rows ++ new ∷ []) y) (sym (rw absent refl) ∙ same)
            (Sole-inserted p rows new absent passes))
  ]

  ensured-keeps :
      (p q : A → Bool) (new x : A) (rows : List A)
      → q new ≡ false
      → Sole q rows x
      → Sole q (ensured p new rows) x
  ensured-keeps p q new x rows other h = elim (Bool-cases (ltb 1 (count_where p rows))) [
    | inl many ↦ rw many h
    | inr few ↦ elim (Option-cases (find p rows)) [
      | inr (y, found) ↦ rw (few, found) h
      | inl absent ↦ rw (few, absent) (Sole-other q rows x new other h)
    ]
  ]

rows-ensure_office :
    (c : Clock) (s : Session)
    → (ensure_office c s).1.current.offices.rows
      ≡ ensured is_head (office_row c s.current.offices.next_id) s.current.offices.rows
unfolding ensure_office add_office
rows-ensure_office c s = ground arith

result-ensure_office :
    (c : Clock) (s : Session) (o : Office)
    → (ensure_office c s).0 ≡ ok o
    → (ltb 1 (count_where is_head s.current.offices.rows) ≡ false)
      × ((elim (find is_head s.current.offices.rows) [
        | none ↦ office_row c s.current.offices.next_id
        | some x ↦ x
      ])
          ≡ o)
unfolding ensure_office add_office
result-ensure_office c s o h = (ground arith, ground arith)

pub ensure_office-Sole :
    (c : Clock) (s : Session) (o : Office)
    → (ensure_office c s).0 ≡ ok o
    → Sole is_head (ensure_office c s).1.current.offices.rows o
ensure_office-Sole c s o h =
    let (few, same) = result-ensure_office c s o h in
    rw (rows-ensure_office c s) (
      ensured-Sole is_head (office_row c s.current.offices.next_id) o s.current.offices.rows few
        refl same)

pub ensure_office_settled :
    (c : Clock) (s : Session) (o : Office)
    → Sole is_head s.current.offices.rows o
    → ensure_office c s ≡ (ok o, s)
unfolding ensure_office add_office
ensure_office_settled c s o h =
    let found = sole_found (λ db. db.offices.rows) is_head o s h in ground (arith, found)

rows-ensure_roster :
    (c : Clock) (office_id : ℕ) (spec : RosterSpec) (s : Session)
    → (ensure_roster c office_id spec s).1.current.rosters.rows
      ≡ ensured
          (is_named spec.name)
          (roster_row c office_id spec s.current.rosters.next_id)
          s.current.rosters.rows
unfolding ensure_roster add_roster
rows-ensure_roster c office_id spec s = ground arith

result-ensure_roster :
    (c : Clock) (office_id : ℕ) (spec : RosterSpec) (s : Session) (r : Roster)
    → (ensure_roster c office_id spec s).0 ≡ ok r
    → (ltb 1 (count_where (is_named spec.name) s.current.rosters.rows) ≡ false)
      × ((elim (find (is_named spec.name) s.current.rosters.rows) [
        | none ↦ roster_row c office_id spec s.current.rosters.next_id
        | some x ↦ x
      ])
          ≡ r)
unfolding ensure_roster add_roster
result-ensure_roster c office_id spec s r h = (ground arith, ground arith)

pub ensure_roster-Sole :
    (c : Clock) (office_id : ℕ) (spec : RosterSpec) (s : Session) (r : Roster)
    → (ensure_roster c office_id spec s).0 ≡ ok r
    → Sole (is_named spec.name) (ensure_roster c office_id spec s).1.current.rosters.rows r
ensure_roster-Sole c office_id spec s r h =
    let (few, same) = result-ensure_roster c office_id spec s r h in
    rw (rows-ensure_roster c office_id spec s) (
      ensured-Sole (is_named spec.name) (roster_row c office_id spec s.current.rosters.next_id) r
        s.current.rosters.rows few (str_eq_refl spec.name) same)

pub ensure_roster_settled :
    (c : Clock) (office_id : ℕ) (spec : RosterSpec) (s : Session) (r : Roster)
    → Sole (is_named spec.name) s.current.rosters.rows r
    → ensure_roster c office_id spec s ≡ (ok r, s)
unfolding ensure_roster add_roster
ensure_roster_settled c office_id spec s r h =
    let found = sole_found (λ db. db.rosters.rows) (is_named spec.name) r s h in
    ground (arith, found)

-- A roster of another name stays the one of its name.
pub ensure_roster-keeps :
    (c : Clock) (office_id : ℕ) (spec : RosterSpec) (s : Session) (name : String) (r : Roster)
    → str_eq spec.name name ≡ false
    → Sole (is_named name) s.current.rosters.rows r
    → Sole (is_named name) (ensure_roster c office_id spec s).1.current.rosters.rows r
ensure_roster-keeps c office_id spec s name r other h = rw (rows-ensure_roster c office_id spec s) (
    ensured-keeps (is_named spec.name) (is_named name)
      (roster_row c office_id spec s.current.rosters.next_id) r s.current.rosters.rows other h)
