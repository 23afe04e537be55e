-- ===== src/Base/Lists.antt =====
-- Rows in memory: the `WHERE`, `UPDATE` and `COUNT` of a query as functions on lists, and
-- predicates on all rows.
use Prim.Native.Nat.{ℕ, suc, ◌+◌}
use mathlib.Core.Path.{◌≡◌, refl, ◌∙◌, sym, subst}
use mathlib.Core.Bool.{Bool, true, ◌&&◌}
use mathlib.Core.Option.{Option, none, some, some-injective}
use mathlib.Core.List.{List, [], ◌∷◌, ◌++◌}
use mathlib.Core.Logic.{inl, inr}
use native.Mathlib.Omega.{arith}
use office_attendance_backen.Base.Tests.{if◌then◌else◌, Bool-cases, ◌==◌, ==_iff}

abbrev pub All {ℓ κ} : {A : Type ℓ} → (A → Type κ) → List A → Type κ
All P [] = Unit
All P (x ∷ xs) = P x × All P xs

module _ {ℓ} {A : Type ℓ} where
  abbrev pub length : List A → ℕ
  length [] = 0
  length (x ∷ xs) = suc (length xs)

  -- The first row that passes the test.
  abbrev pub find : (A → Bool) → List A → Option A
  find p [] = none
  find p (x ∷ xs) = if p x then some x else find p xs

  -- The rows that pass the test, in order.
  abbrev pub select : (A → Bool) → List A → List A
  select p [] = []
  select p (x ∷ xs) = let rest = select p xs in if p x then x ∷ rest else rest

  -- `UPDATE ... WHERE p`
  abbrev pub update_where : (A → Bool) → (A → A) → List A → List A
  update_where p f [] = []
  update_where p f (x ∷ xs) = (if p x then f x else x) ∷ update_where p f xs

  -- A write to one row, the first that passes: with a primary key for `p`, the row of the key.
  abbrev pub update_first : (A → Bool) → (A → A) → List A → List A
  update_first p f [] = []
  update_first p f (x ∷ xs) = let rest = update_first p f xs in if p x then f x ∷ xs else x ∷ rest

  -- `COUNT(*) ... WHERE p`
  abbrev pub count_where : (A → Bool) → List A → ℕ
  count_where p [] = 0
  count_where p (x ∷ xs) = (if p x then 1 else 0) + count_where p xs

  pub All-append : (P : A → Type 0) (xs ys : List A) → All P xs → All P ys → All P (xs ++ ys)
  All-append P [] ys hx hy = hy
  All-append P (x ∷ xs) ys hx hy = (hx.0, All-append P xs ys hx.1 hy)

  pub length-append : (xs ys : List A) → length (xs ++ ys) ≡ length xs + length ys
  length-append [] ys = omega arith
  length-append (x ∷ xs) ys = omega (arith, length-append xs ys)

  -- A row that is found passes the test.
  pub find-passes : (p : A → Bool) (xs : List A) (a : A) → find p xs ≡ some a → p a ≡ true
  find-passes p [] a h = cc
  find-passes p (x ∷ xs) a h = ground (arith, find-passes p xs a)

  -- A predicate of all rows holds of the row that is found.
  pub find-All :
      (P : A → Type 0) (p : A → Bool) (xs : List A) (a : A) → All P xs → find p xs ≡ some a → P a
  find-All P p [] a all h = cc
  find-All P p (x ∷ xs) a all h = elim (Bool-cases (p x)) [
    | inl t ↦ ground arith
    | inr f ↦ find-All P p xs a all.1 (ground arith)
  ]

  pub update_where-All :
      (P : A → Type 0) (p : A → Bool) (f : A → A) (xs : List A)
      → ((x : A) → p x ≡ true → P x → P (f x))
      → All P xs
      → All P (update_where p f xs)
  update_where-All P p f [] keep all = tt
  update_where-All P p f (x ∷ xs) keep all = (
    elim (Bool-cases (p x)) [ inl t ↦ rw t (keep x t all.0) | inr e ↦ rw e all.0 ],
    update_where-All P p f xs keep all.1,
  )

  pub update_first-All :
      (P : A → Type 0) (p : A → Bool) (f : A → A) (xs : List A) (a : A)
      → find p xs ≡ some a
      → P (f a)
      → All P xs
      → All P (update_first p f xs)
  update_first-All P p f [] a h new all = tt
  update_first-All P p f (x ∷ xs) a h new all = elim (Bool-cases (p x)) [
    | inl t ↦ rw t (subst (λ y. P (f y)) (some-injective _ _ (sym h ∙ rw t)) new, all.1)
    | inr e ↦ rw e (all.0, update_first-All P p f xs a (ground arith) new all.1)
  ]

  pub select-All : (P : A → Type 0) (p : A → Bool) (xs : List A) → All P xs → All P (select p xs)
  select-All P p [] all = tt
  select-All P p (x ∷ xs) all = elim (Bool-cases (p x)) [
    | inl t ↦ rw t (all.0, select-All P p xs all.1)
    | inr e ↦ rw e (select-All P p xs all.1)
  ]

  pub count_where-append :
      (p : A → Bool) (xs ys : List A)
      → count_where p (xs ++ ys) ≡ count_where p xs + count_where p ys
  count_where-append p [] ys = omega arith
  count_where-append p (x ∷ xs) ys = omega (arith, count_where-append p xs ys)

  -- Counting among the rows of a query is counting with its test.
  pub count_where-select :
      (p q : A → Bool) (xs : List A)
      → count_where p (select q xs) ≡ count_where (λ x. q x && p x) xs
  count_where-select p q [] = refl
  count_where-select p q (x ∷ xs) = ground (arith, count_where-select p q xs)

  pub update_first_absent :
      (p : A → Bool) (f : A → A) (xs : List A) → find p xs ≡ none → update_first p f xs ≡ xs
  update_first_absent p f [] h = refl
  update_first_absent p f (x ∷ xs) h = ground (arith, update_first_absent p f xs)

  -- A write by the key of a row that was found by its key.
  pub update_found-All :
      (P : A → Type 0) (key : A → ℕ) (f : A → A) (id : ℕ) (xs : List A) (a : A)
      → find (λ x. key x == id) xs ≡ some a
      → P (f a)
      → All P xs
      → All P (update_first (λ x. key x == key a) f xs)
  update_found-All P key f id xs a h new all =
      let same : id ≡ key a = sym ((==_iff (key a) id).0 (find-passes (λ x. key x == id) xs a h)) in
      subst (λ k. All P (update_first (λ x. key x == k) f xs)) same
        (update_first-All P (λ x. key x == id) f xs a h new all)
