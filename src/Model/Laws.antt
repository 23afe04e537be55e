-- ===== src/Model/Laws.antt =====
-- What a query finds after the statements of `Model.Tables`.
use mathlib.Core.Option
use office_attendance_backen.Base.{
  ◌<◌, Bool, true, false, Option, none, some, List, [], ◌∷◌, ◌≡◌, refl, arith, All, find,
  update_where, count_where, if◌then◌else◌, Bool-cases, Option-cases, inl, inr,
}
use office_attendance_backen.Model.Tables.{on_conflict}

module _ {ℓ} {A : Type ℓ} where
  -- An update that does not touch what a query tests maps over its result.
  pub find-update_where :
      (q p : A → Bool) (f : A → A) (xs : List A)
      → ((x : A) → q (f x) ≡ q x)
      → find q (update_where p f xs) ≡ Option.map (λ x. if p x then f x else x) (find q xs)
  find-update_where q p f [] keep = refl
  find-update_where q p f (x ∷ xs) keep = ground (arith, find-update_where q p f xs keep, keep x)

  -- A row that is found and passes `p` is counted.
  pub find-count_where :
      (q p : A → Bool) (xs : List A) (x : A)
      → find q xs ≡ some x
      → p x ≡ true
      → 0 < count_where p xs
  find-count_where q p [] x h t = cc
  find-count_where q p (y ∷ ys) x h t = ground (arith, find-count_where q p ys x)

  -- An update that changes no row that it selects changes nothing.
  pub update_where_same :
      (p : A → Bool) (f : A → A) (xs : List A)
      → ((x : A) → p x ≡ true → f x ≡ x)
      → update_where p f xs ≡ xs
  update_where_same p f [] same = refl
  update_where_same p f (x ∷ xs) same = ground (arith, update_where_same p f xs same, same x)

  module _ (clash : A → Bool) (update : A → Option A) (fresh : A) where
    -- What the row of the key becomes.
    abbrev pub merged : Option A → Option A
    merged none = some fresh
    merged (some r) = elim (update r) [ none ↦ some r | some y ↦ some y ]

    -- The row that is reported as written.
    abbrev pub written : Option A → Option A
    written none = some fresh
    written (some r) = update r

    pub written-on_conflict :
        (xs : List A) → (on_conflict clash update fresh xs).0 ≡ written (find clash xs)
    unfolding on_conflict
    written-on_conflict [] = refl
    written-on_conflict (x ∷ xs) = ground (arith, written-on_conflict xs)

    -- With the key kept by the update, a query by key finds the merged row.
    pub find-on_conflict :
        (xs : List A)
        → clash fresh ≡ true
        → ((r y : A) → clash r ≡ true → update r ≡ some y → clash y ≡ true)
        → find clash (on_conflict clash update fresh xs).1 ≡ merged (find clash xs)
    unfolding on_conflict
    find-on_conflict [] hf hu = ground arith
    find-on_conflict (x ∷ xs) hf hu = elim (Bool-cases (clash x)) [
      | inl t ↦ elim (Option-cases (update x)) [
        | inl e ↦ ground arith
        | inr (y, e) ↦ ground (arith, hu x y t e)
      ]
      | inr f ↦ ground (arith, find-on_conflict xs hf hu)
    ]

    -- A query that no row of the key passes finds what it found before.
    pub find-on_conflict_ne :
        (q : A → Bool) (xs : List A)
        → q fresh ≡ false
        → ((r : A) → clash r ≡ true → q r ≡ false)
        → ((r y : A) → clash r ≡ true → update r ≡ some y → q y ≡ false)
        → find q (on_conflict clash update fresh xs).1 ≡ find q xs
    unfolding on_conflict
    find-on_conflict_ne q [] hf hc hu = ground arith
    find-on_conflict_ne q (x ∷ xs) hf hc hu = elim (Bool-cases (clash x)) [
      | inl t ↦ elim (Option-cases (update x)) [
        | inl e ↦ ground arith
        | inr (y, e) ↦ ground (arith, hu x y t e, hc x t)
      ]
      | inr f ↦ ground (arith, find-on_conflict_ne q xs hf hc hu)
    ]

    -- A row that the update leaves alone, or rewrites to itself, leaves the table as it was.
    pub on_conflict_same :
        (xs : List A) (r : A)
        → find clash xs ≡ some r
        → merged (some r) ≡ some r
        → (on_conflict clash update fresh xs).1 ≡ xs
    unfolding on_conflict
    on_conflict_same [] r h e = cc
    on_conflict_same (x ∷ xs) r h e = elim (Bool-cases (clash x)) [
      | inl t ↦ elim (Option-cases (update x)) [ inl n ↦ ground arith | inr (y, n) ↦ ground arith ]
      | inr f ↦ ground (arith, on_conflict_same xs r)
    ]

    pub on_conflict-All :
        (P : A → Type 0) (xs : List A)
        → P fresh
        → ((r y : A) → clash r ≡ true → update r ≡ some y → P r → P y)
        → All P xs
        → All P (on_conflict clash update fresh xs).1
    unfolding on_conflict
    on_conflict-All P [] hf hu all = (hf, tt)
    on_conflict-All P (x ∷ xs) hf hu all = elim (Bool-cases (clash x)) [
      | inl t ↦ elim (Option-cases (update x)) [
        | inl e ↦ rw (t, e) all
        | inr (y, e) ↦ rw (t, e) (hu x y t e all.0, all.1)
      ]
      | inr f ↦ rw f (all.0, on_conflict-All P xs hf hu all.1)
    ]
