-- ===== src/Days/Tables.antt =====
-- What the statements on `attendance_days` keep of the table.
use office_attendance_backen.Base.{
  ℕ, ltb, ◌==◌, Bool, true, false, Option, some, List, [], ◌∷◌, ◌≡◌, All, All-both, All-map, arith,
  find, find-All, select, select-All, update_first, update_where, is_some, inl, inr, Bool-cases,
  Option-cases,
}
use office_attendance_backen.Time.{Date}
use office_attendance_backen.Model.{AttendanceDay, is_day, on_conflict}
use office_attendance_backen.Model.Laws.{on_conflict-All}
use office_attendance_backen.Days.{are_apart, AllApart}

-- A write that keeps the id, the user and the date.
abbrev pub KeepsKey : (AttendanceDay → AttendanceDay) → Type 0
KeepsKey f =
    (d : AttendanceDay) → ((f d).id ≡ d.id) × ((f d).user_id ≡ d.user_id) × ((f d).date ≡ d.date)

module _ (p : AttendanceDay → Bool) (f : AttendanceDay → AttendanceDay) (keeps : KeepsKey f) where
  apart-update_where :
      (d : AttendanceDay) (rows : List AttendanceDay)
      → All (λ x. are_apart d x ≡ true) rows
      → All (λ x. are_apart d x ≡ true) (update_where p f rows)
  apart-update_where d [] all = tt
  apart-update_where d (x ∷ xs) all = (ground (arith, keeps x), apart-update_where d xs all.1)

  apart-update_first :
      (d : AttendanceDay) (rows : List AttendanceDay)
      → All (λ x. are_apart d x ≡ true) rows
      → All (λ x. are_apart d x ≡ true) (update_first p f rows)
  apart-update_first d [] all = tt
  apart-update_first d (x ∷ xs) all = elim (Bool-cases (p x)) [
    | inl t ↦ rw t (ground (arith, keeps x), all.1)
    | inr e ↦ rw e (all.0, apart-update_first d xs all.1)
  ]

  apart_as :
      (d : AttendanceDay) (rows : List AttendanceDay)
      → All (λ x. are_apart d x ≡ true) rows
      → All (λ x. are_apart (f d) x ≡ true) rows
  apart_as d rows = All-map _ _ rows (λ x h. ground (arith, keeps d))

  pub AllApart-update_where :
      (rows : List AttendanceDay) → AllApart rows → AllApart (update_where p f rows)
  AllApart-update_where [] all = tt
  AllApart-update_where (x ∷ xs) all = (
    elim (Bool-cases (p x)) [
      | inl t ↦ rw t (apart_as x (update_where p f xs) (apart-update_where x xs all.0))
      | inr e ↦ rw e (apart-update_where x xs all.0)
    ],
    AllApart-update_where xs all.1,
  )

  pub AllApart-update_first :
      (rows : List AttendanceDay) → AllApart rows → AllApart (update_first p f rows)
  AllApart-update_first [] all = tt
  AllApart-update_first (x ∷ xs) all = elim (Bool-cases (p x)) [
    | inl t ↦ rw t (apart_as x xs all.0, all.1)
    | inr e ↦ rw e (apart-update_first x xs all.0, AllApart-update_first xs all.1)
  ]

pub AllApart-select :
    (p : AttendanceDay → Bool) (rows : List AttendanceDay)
    → AllApart rows
    → AllApart (select p rows)
AllApart-select p [] all = tt
AllApart-select p (x ∷ xs) all = elim (Bool-cases (p x)) [
  | inl t ↦ rw t (select-All (λ y. are_apart x y ≡ true) p xs all.0, AllApart-select p xs all.1)
  | inr e ↦ rw e (AllApart-select p xs all.1)
]

-- The row that a query finds is the one row of its id.
pub find_own :
    (q : AttendanceDay → Bool) (rows : List AttendanceDay) (d : AttendanceDay)
    → AllApart rows
    → find q rows ≡ some d
    → find (λ x. x.id == d.id) rows ≡ some d
find_own q [] d all h = cc
find_own q (x ∷ xs) d all h = elim (Bool-cases (q x)) [
  | inl t ↦ ground arith
  | inr e ↦
      let there : find q xs ≡ some d = ground arith in
      let apart = find-All (λ y. are_apart x y ≡ true) q xs d all.0 there in
      ground (arith, find_own q xs d all.1 there)
]

-- The rows of the id of a row that has a check-in have one.
abbrev pub Arrived : List AttendanceDay → ℕ → Type 0
Arrived rows id = All (λ x. (x.id == id) ≡ true → is_some x.check_in ≡ true) rows

pub All-Arrived :
    (rows : List AttendanceDay)
    → AllApart rows
    → All (λ d. is_some d.check_in ≡ true → Arrived rows d.id) rows
All-Arrived [] all = tt
All-Arrived (x ∷ xs) all = (
  λ h. (λ _. h, All-map _ _ xs (λ y apart e. ground arith) all.0),
  All-both _ _ _ xs (λ d apart arrived h. (λ e. ground arith, arrived h)) all.0
      (All-Arrived xs all.1),
)

module _ (u : ℕ) (date : Date) (update : AttendanceDay → Option AttendanceDay) (id : ℕ)
    (fresh : AttendanceDay)
    (keeps : (r y : AttendanceDay)
      → update r ≡ some y
      → (y.id ≡ r.id) × (y.user_id ≡ r.user_id) × (y.date ≡ r.date))
    (made : (fresh.id ≡ id) × (fresh.user_id ≡ u) × (fresh.date ≡ date)) where
  apart-on_conflict :
      (d : AttendanceDay) (rows : List AttendanceDay)
      → is_day u date d ≡ false
      → ltb d.id id ≡ true
      → All (λ x. are_apart d x ≡ true) rows
      → All (λ x. are_apart d x ≡ true) (on_conflict (is_day u date) update fresh rows).1
  apart-on_conflict d rows other below all =
      on_conflict-All (is_day u date) update fresh (λ x. are_apart d x ≡ true) rows (ground arith)
        (λ r y clash e h. ground (arith, keeps r y e)) all

  pub AllApart-on_conflict :
      (rows : List AttendanceDay)
      → All (λ d. ltb d.id id ≡ true) rows
      → AllApart rows
      → AllApart (on_conflict (is_day u date) update fresh rows).1
  unfolding on_conflict
  AllApart-on_conflict [] below all = (tt, tt)
  AllApart-on_conflict (x ∷ xs) below all = elim (Bool-cases (is_day u date x)) [
    | inl t ↦ elim (Option-cases (update x)) [
      | inl e ↦ rw (t, e) all
      | inr (y, e) ↦ rw (t, e) (All-map _ _ xs (λ z h. ground (arith, keeps x y e)) all.0, all.1)
    ]
    | inr f ↦ rw f (apart-on_conflict x xs f below.0 all.0, AllApart-on_conflict xs below.1 all.1)
  ]
