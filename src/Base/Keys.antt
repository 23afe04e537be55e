-- ===== src/Base/Keys.antt =====
-- Rows with a key: which keys a table has after a statement.
use Prim.Native.Nat.{ℕ}
use mathlib.Core.Path.{◌≡◌, refl}
use mathlib.Core.Logic.{inl, inr}
use mathlib.Core.Bool.{Bool, true, false, not}
use mathlib.Core.Option.{some}
use mathlib.Core.List.{List, [], ◌∷◌, ◌++◌}
use native.Mathlib.Omega.{arith}
use office_attendance_backen.Base.Tests.{Bool-cases, ◌==◌, ltb, is_some}
use office_attendance_backen.Base.Lists.{All, find, select, update_first, update_where, count_where}

module _ {ℓ} {A : Type ℓ} where
  -- A write that keeps a predicate.
  pub update_first-keeps :
      (P : A → Type 0) (p : A → Bool) (f : A → A) (xs : List A)
      → ((x : A) → P x → P (f x))
      → All P xs
      → All P (update_first p f xs)
  update_first-keeps P p f [] keep all = tt
  update_first-keeps P p f (x ∷ xs) keep all = elim (Bool-cases (p x)) [
    | inl t ↦ rw t (keep x all.0, all.1)
    | inr e ↦ rw e (all.0, update_first-keeps P p f xs keep all.1)
  ]

  pub All-map : (P Q : A → Type 0) (xs : List A) → ((x : A) → P x → Q x) → All P xs → All Q xs
  All-map P Q [] f all = tt
  All-map P Q (x ∷ xs) f all = (f x all.0, All-map P Q xs f all.1)

  pub All-both :
      (P Q R : A → Type 0) (xs : List A)
      → ((x : A) → P x → Q x → R x)
      → All P xs
      → All Q xs
      → All R xs
  All-both P Q R [] f p q = tt
  All-both P Q R (x ∷ xs) f p q = (f x p.0 q.0, All-both P Q R xs f p.1 q.1)

  -- Rows that are not counted.
  pub count_where-none :
      (p : A → Bool) (xs : List A) → ltb 0 (count_where p xs) ≡ false → All (λ x. p x ≡ false) xs
  count_where-none p [] h = tt
  count_where-none p (x ∷ xs) h = elim (Bool-cases (p x)) [
    | inl t ↦ ground arith
    | inr e ↦ (e, count_where-none p xs (ground arith))
  ]

  module _ (key : A → ℕ) where
    abbrev pub has_key : ℕ → List A → Bool
    has_key id xs = is_some (find (λ x. key x == id) xs)

    pub found-has_key :
        (id : ℕ) (xs : List A) (x : A) → find (λ x. key x == id) xs ≡ some x → has_key id xs ≡ true
    found-has_key id xs x h = rw h refl

    pub has_key-append :
        (id : ℕ) (xs ys : List A) → has_key id xs ≡ true → has_key id (xs ++ ys) ≡ true
    has_key-append id [] ys h = cc
    has_key-append id (x ∷ xs) ys h = ground (arith, has_key-append id xs ys)

    pub has_key-update_first :
        (id : ℕ) (p : A → Bool) (f : A → A) (xs : List A)
        → ((x : A) → key (f x) ≡ key x)
        → has_key id xs ≡ true
        → has_key id (update_first p f xs) ≡ true
    has_key-update_first id p f [] keep h = h
    has_key-update_first id p f (x ∷ xs) keep h =
        ground (arith, has_key-update_first id p f xs keep, keep x)

    pub has_key-update_where :
        (id : ℕ) (p : A → Bool) (f : A → A) (xs : List A)
        → ((x : A) → key (f x) ≡ key x)
        → has_key id xs ≡ true
        → has_key id (update_where p f xs) ≡ true
    has_key-update_where id p f [] keep h = h
    has_key-update_where id p f (x ∷ xs) keep h =
        ground (arith, has_key-update_where id p f xs keep, keep x)

    pub has_key-select :
        (id n : ℕ) (xs : List A)
        → (n == id) ≡ false
        → has_key id xs ≡ true
        → has_key id (select (λ x. not (key x == n)) xs) ≡ true
    has_key-select id n [] e h = h
    has_key-select id n (x ∷ xs) e h = ground (arith, has_key-select id n xs e)
