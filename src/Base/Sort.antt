-- ===== src/Base/Sort.antt =====
-- `ORDER BY`: a stable sort by insertion.
use mathlib.Core.Path.{◌≡◌, refl}
use mathlib.Core.Bool.{Bool, true, false}
use mathlib.Core.List.{List, [], ◌∷◌}
use mathlib.Core.Logic.{inl, inr}
use native.Mathlib.Omega.{arith}
use office_attendance_backen.Base.Tests.{if◌then◌else◌, Bool-cases}
use office_attendance_backen.Base.Lists.{All, count_where}

module _ {ℓ} {A : Type ℓ} (le : A → A → Bool) where
  -- In front of the first row that is not before it.
  abbrev pub insert : A → List A → List A
  insert x [] = x ∷ []
  insert x (y ∷ ys) = let rest = insert x ys in if le x y then x ∷ y ∷ ys else y ∷ rest

  abbrev pub order_by : List A → List A
  order_by [] = []
  order_by (x ∷ xs) = insert x (order_by xs)

  pub count_where-insert :
      (p : A → Bool) (x : A) (xs : List A) → count_where p (insert x xs) ≡ count_where p (x ∷ xs)
  count_where-insert p x [] = refl
  count_where-insert p x (y ∷ ys) = ground (arith, count_where-insert p x ys)

  -- A sort neither loses nor adds a row.
  pub count_where-order_by :
      (p : A → Bool) (xs : List A) → count_where p (order_by xs) ≡ count_where p xs
  count_where-order_by p [] = refl
  count_where-order_by p (x ∷ xs) =
      ground (arith, count_where-insert p x (order_by xs), count_where-order_by p xs)

  insert-All : (P : A → Type 0) (x : A) (xs : List A) → P x → All P xs → All P (insert x xs)
  insert-All P x [] h all = (h, tt)
  insert-All P x (y ∷ ys) h all = elim (Bool-cases (le x y)) [
    | inl t ↦ rw t (h, all)
    | inr e ↦ rw e (all.0, insert-All P x ys h all.1)
  ]

  pub order_by-All : (P : A → Type 0) (xs : List A) → All P xs → All P (order_by xs)
  order_by-All P [] all = tt
  order_by-All P (x ∷ xs) all = insert-All P x (order_by xs) all.0 (order_by-All P xs all.1)

  -- Each row is before the next one.
  abbrev pub IsOrdered : List A → Type 0
  IsOrdered [] = Unit
  IsOrdered (x ∷ xs) = All (λ y. le x y ≡ true) xs × IsOrdered xs

  module _ (total : (x y : A) → le x y ≡ false → le y x ≡ true)
      (trans : (x y z : A) → le x y ≡ true → le y z ≡ true → le x z ≡ true) where
    All-trans :
        (x y : A) (ys : List A)
        → le x y ≡ true
        → All (λ z. le y z ≡ true) ys
        → All (λ z. le x z ≡ true) ys
    All-trans x y [] h all = tt
    All-trans x y (z ∷ zs) h all = (trans x y z h all.0, All-trans x y zs h all.1)

    insert-IsOrdered : (x : A) (xs : List A) → IsOrdered xs → IsOrdered (insert x xs)
    insert-IsOrdered x [] h = (tt, tt)
    insert-IsOrdered x (y ∷ ys) h = elim (Bool-cases (le x y)) [
      | inl t ↦ rw t ((t, All-trans x y ys t h.0), h)
      | inr e ↦
          rw e (insert-All (λ z. le y z ≡ true) x ys (total x y e) h.0, insert-IsOrdered x ys h.1)
    ]

    pub order_by-IsOrdered : (xs : List A) → IsOrdered (order_by xs)
    order_by-IsOrdered [] = tt
    order_by-IsOrdered (x ∷ xs) = insert-IsOrdered x (order_by xs) (order_by-IsOrdered xs)
