-- ===== src/Seed/RosterLoop.antt =====
-- seed.py `ensure_rosters`: the loop leaves every roster settled, and then changes nothing.
use office_attendance_backen.Base.{
  ℕ, ◌≡◌, ◌∙◌, ap, refl, sym, subst, arith, String, str_eq, false, List, [], ◌∷◌, inl, inr,
}
use office_attendance_backen.Model.{Roster}
use office_attendance_backen.World.{Clock}
use office_attendance_backen.Session.{Session, Result-cases, ok}
use office_attendance_backen.Seed.{
  is_named, RosterSpec, add_roster, ensure_roster, ByName, ensure_rosters,
}
use office_attendance_backen.Seed.Sole.{Sole}
use office_attendance_backen.Seed.Steps.{
  ensure_roster-Sole, ensure_roster_settled, ensure_roster-keeps,
}

-- No specification below has the name.
abbrev NameApart : String → List RosterSpec → Type 0
NameApart name [] = Unit
NameApart name (spec ∷ specs) = (str_eq spec.name name ≡ false) × NameApart name specs

abbrev pub NamesApart : List RosterSpec → Type 0
NamesApart [] = Unit
NamesApart (spec ∷ specs) = NameApart spec.name specs × NamesApart specs

-- Each specification has its one roster.
abbrev pub RostersSettled : List RosterSpec → ByName → List Roster → Type 0
RostersSettled [] [] rows = Unit
RostersSettled [] (x ∷ rest) rows = ⊥
RostersSettled (spec ∷ specs) [] rows = ⊥
RostersSettled (spec ∷ specs) ((name, r) ∷ rest) rows =
    (spec.name ≡ name) × Sole (is_named spec.name) rows r × RostersSettled specs rest rows

ensure_rosters-split :
    (c : Clock) (office_id : ℕ) (spec : RosterSpec) (specs : List RosterSpec) (s : Session)
    (rosters : ByName)
    → (ensure_rosters c office_id (spec ∷ specs) s).0 ≡ ok rosters
    → (r : Roster) × (rest : ByName) × ((ensure_roster c office_id spec s).0 ≡ ok r)
      × ((ensure_rosters c office_id specs (ensure_roster c office_id spec s).1).0 ≡ ok rest)
      × ((ensure_rosters c office_id (spec ∷ specs) s).1
          ≡ (ensure_rosters c office_id specs (ensure_roster c office_id spec s).1).1)
      × (rosters ≡ (spec.name, r) ∷ rest)
unfolding ensure_rosters
ensure_rosters-split c office_id spec specs s rosters h =
    let s' = (ensure_roster c office_id spec s).1 in
    elim (Result-cases (ensure_roster c office_id spec s).0) [
      | inr (x, e) ↦ ground arith
      | inl (r, e) ↦ elim (Result-cases (ensure_rosters c office_id specs s').0) [
        | inr (x, k) ↦ ground arith
        | inl (rest, k) ↦ (r, rest, e, k, ground arith, ground arith)
      ]
    ]

ensure_rosters-keeps :
    (c : Clock) (office_id : ℕ) (specs : List RosterSpec) (s : Session) (rosters : ByName)
    (name : String) (r : Roster)
    → (ensure_rosters c office_id specs s).0 ≡ ok rosters
    → NameApart name specs
    → Sole (is_named name) s.current.rosters.rows r
    → Sole (is_named name) (ensure_rosters c office_id specs s).1.current.rosters.rows r
unfolding ensure_rosters
ensure_rosters-keeps c office_id [] s rosters name r e apart h = h
ensure_rosters-keeps c office_id (spec ∷ specs) s rosters name r e apart h =
    let (x, rest, this, below, after, whole) =
      ensure_rosters-split c office_id spec specs s rosters e in
    subst (λ t. Sole (is_named name) t.current.rosters.rows r) (sym after)
      (ensure_rosters-keeps c office_id specs (ensure_roster c office_id spec s).1 rest name r below
        apart.1 (ensure_roster-keeps c office_id spec s name r apart.0 h))

ensure_rosters-none :
    (c : Clock) (office_id : ℕ) (s : Session) (rosters : ByName)
    → (ensure_rosters c office_id [] s).0 ≡ ok rosters
    → [] ≡ rosters
unfolding ensure_rosters
ensure_rosters-none c office_id s rosters e = ground arith

pub ensure_rosters-RostersSettled :
    (c : Clock) (office_id : ℕ) (specs : List RosterSpec) (s : Session) (rosters : ByName)
    → NamesApart specs
    → (ensure_rosters c office_id specs s).0 ≡ ok rosters
    → RostersSettled specs rosters (ensure_rosters c office_id specs s).1.current.rosters.rows
ensure_rosters-RostersSettled c office_id [] s rosters apart e =
    subst (λ x. RostersSettled [] x (ensure_rosters c office_id [] s).1.current.rosters.rows)
      (ensure_rosters-none c office_id s rosters e) tt
ensure_rosters-RostersSettled c office_id (spec ∷ specs) s rosters apart e =
    let (r, rest, this, below, after, whole) =
      ensure_rosters-split c office_id spec specs s rosters e in
    let s' = (ensure_roster c office_id spec s).1 in
    let one =
      ensure_rosters-keeps c office_id specs s' rest spec.name r below apart.0
        (ensure_roster-Sole c office_id spec s r this) in
    rw (whole, after)
      (refl, one, ensure_rosters-RostersSettled c office_id specs s' rest apart.1 below)

pub ensure_rosters_settled :
    (c : Clock) (office_id : ℕ) (specs : List RosterSpec) (rosters : ByName) (s : Session)
    → RostersSettled specs rosters s.current.rosters.rows
    → ensure_rosters c office_id specs s ≡ (ok rosters, s)
unfolding ensure_rosters
ensure_rosters_settled c office_id [] [] s h = refl
ensure_rosters_settled c office_id [] (x ∷ rest) s h = absurd h
ensure_rosters_settled c office_id (spec ∷ specs) [] s h = absurd h
ensure_rosters_settled c office_id (spec ∷ specs) ((name, r) ∷ rest) s (same, one, below) = ground (
  arith,
  ensure_roster_settled c office_id spec s r one,
  ensure_rosters_settled c office_id specs rest s below,
  same,
)

-- ByName are all that is written.
ensure_roster-offices :
    (c : Clock) (office_id : ℕ) (spec : RosterSpec) (s : Session)
    → (ensure_roster c office_id spec s).1.current.offices ≡ s.current.offices
unfolding ensure_roster add_roster
ensure_roster-offices c office_id spec s = ground arith

pub ensure_rosters-offices :
    (c : Clock) (office_id : ℕ) (specs : List RosterSpec) (s : Session) (rosters : ByName)
    → (ensure_rosters c office_id specs s).0 ≡ ok rosters
    → (ensure_rosters c office_id specs s).1.current.offices ≡ s.current.offices
unfolding ensure_rosters
ensure_rosters-offices c office_id [] s rosters e = refl
ensure_rosters-offices c office_id (spec ∷ specs) s rosters e =
    let (r, rest, this, below, after, whole) =
      ensure_rosters-split c office_id spec specs s rosters e in
    ap (λ t. t.current.offices) after
    ∙ ensure_rosters-offices c office_id specs (ensure_roster c office_id spec s).1 rest below
    ∙ ensure_roster-offices c office_id spec s
