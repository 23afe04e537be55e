-- ===== src/Seed/Sole.antt =====
-- seed.py: what `scalar_one_or_none` finds after an insertion or a write.
use office_attendance_backen.Base.{
  ◌≡◌, ◌∙◌, refl, arith, ltb, Bool, true, false, none, some, List, [], ◌∷◌, ◌++◌, find, count_where,
  count_where-append, update_first,
}
use office_attendance_backen.Model.{Db}
use office_attendance_backen.Session.{Session, ok}
use office_attendance_backen.Seed.{sole}

module _ {ℓ} {A : Type ℓ} where
  -- The one row that passes the test.
  abbrev pub Sole : (A → Bool) → List A → A → Type ℓ
  Sole p rows x = (ltb 1 (count_where p rows) ≡ false) × (find p rows ≡ some x)

  pub sole_found :
      (rows : Db → List A) (p : A → Bool) (x : A) (s : Session)
      → Sole p (rows s.current) x
      → sole rows p s ≡ (ok (some x), s)
  sole_found rows p x s (few, found) = rw (few, found) refl

  count-absent : (p : A → Bool) (xs : List A) → find p xs ≡ none → count_where p xs ≡ 0
  count-absent p [] h = refl
  count-absent p (x ∷ xs) h = ground (arith, count-absent p xs)

  find-append_absent :
      (p : A → Bool) (xs ys : List A) → find p xs ≡ none → find p (xs ++ ys) ≡ find p ys
  find-append_absent p [] ys h = refl
  find-append_absent p (x ∷ xs) ys h = ground (arith, find-append_absent p xs ys)

  find-append_found :
      (p : A → Bool) (xs ys : List A) (x : A) → find p xs ≡ some x → find p (xs ++ ys) ≡ some x
  find-append_found p [] ys x h = cc
  find-append_found p (y ∷ xs) ys x h = ground (arith, find-append_found p xs ys x)

  pub Sole-inserted :
      (p : A → Bool) (rows : List A) (x : A)
      → find p rows ≡ none
      → p x ≡ true
      → Sole p (rows ++ x ∷ []) x
  Sole-inserted p rows x absent passes = (
    ground (arith, count_where-append p rows (x ∷ []), count-absent p rows absent),
    find-append_absent p rows (x ∷ []) absent ∙ rw passes refl,
  )

  -- Another row is inserted.
  pub Sole-other :
      (p : A → Bool) (rows : List A) (x y : A)
      → p y ≡ false
      → Sole p rows x
      → Sole p (rows ++ y ∷ []) x
  Sole-other p rows x y other (few, found) = (
    ground (arith, count_where-append p rows (y ∷ [])),
    find-append_found p rows (y ∷ []) x found,
  )

  count-update_first :
      (p q : A → Bool) (f : A → A) (xs : List A)
      → ((x : A) → q (f x) ≡ q x)
      → count_where q (update_first p f xs) ≡ count_where q xs
  count-update_first p q f [] keep = refl
  count-update_first p q f (x ∷ xs) keep = ground (arith, count-update_first p q f xs keep, keep x)

  find-update_first :
      (p : A → Bool) (f : A → A) (xs : List A) (x : A)
      → ((x : A) → p (f x) ≡ p x)
      → find p xs ≡ some x
      → find p (update_first p f xs) ≡ some (f x)
  find-update_first p f [] x keep h = cc
  find-update_first p f (y ∷ xs) x keep h = ground (arith, find-update_first p f xs x keep, keep y)

  find-update_first_other :
      (p q : A → Bool) (f : A → A) (xs : List A)
      → ((x : A) → q (f x) ≡ q x)
      → ((x : A) → q x ≡ true → p x ≡ false)
      → find q (update_first p f xs) ≡ find q xs
  find-update_first_other p q f [] keep apart = refl
  find-update_first_other p q f (x ∷ xs) keep apart =
      ground (arith, find-update_first_other p q f xs keep apart, keep x, apart x)

  -- The row itself is written.
  pub Sole-written :
      (p : A → Bool) (f : A → A) (rows : List A) (x : A)
      → ((x : A) → p (f x) ≡ p x)
      → Sole p rows x
      → Sole p (update_first p f rows) (f x)
  Sole-written p f rows x keep (few, found) =
      (rw (count-update_first p p f rows keep) few, find-update_first p f rows x keep found)

  -- A row of another test is written.
  pub Sole-apart :
      (p q : A → Bool) (f : A → A) (rows : List A) (x : A)
      → ((x : A) → q (f x) ≡ q x)
      → ((x : A) → q x ≡ true → p x ≡ false)
      → Sole q rows x
      → Sole q (update_first p f rows) x
  Sole-apart p q f rows x keep apart (few, found) = (
    rw (count-update_first p q f rows keep) few,
    find-update_first_other p q f rows keep apart ∙ found,
  )

  pub update_first_same :
      (p : A → Bool) (f : A → A) (xs : List A) (x : A)
      → find p xs ≡ some x
      → f x ≡ x
      → update_first p f xs ≡ xs
  update_first_same p f [] x h same = refl
  update_first_same p f (y ∷ xs) x h same = ground (arith, update_first_same p f xs x)
