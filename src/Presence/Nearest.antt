-- ===== src/Presence/Nearest.antt =====
-- app/presence.py `nearest_office`: the loop finds a minimum.
use office_attendance_backen.Base.{
  true, false, Option, none, some, List, [], ◌∷◌, ◌≡◌, refl, ◌∙◌, ◌⊎◌, arith, All, select,
  Option-cases, Bool-cases, inl, inr,
}
use office_attendance_backen.Model.{Float, Office, Db}
use office_attendance_backen.World.{Floats}
use office_attendance_backen.Presence.{office_distance, closer, visit, nearest_from, nearest_office}

-- The laws of `<` on doubles that a minimum needs. They hold of NaN too.
pub record IsStrict (f : Floats) : Type 0 where
  pub irrefl : (a : Float) → f.lt a a ≡ false
  pub trans : (a b c : Float) → f.lt a b ≡ true → f.lt b c ≡ true → f.lt a c ≡ true

abbrev pub Any : {A : Type 0} → (A → Type 0) → List A → Type 0
Any P [] = ⊥
Any P (x ∷ xs) = P x ⊎ Any P xs

module _ (f : Floats) (lat lng : Float) where
  -- The result is at least as near as `x`, or `x` has no coordinates.
  abbrev pub Beats : Option (Office × Float) → Office → Type 0
  Beats none x = office_distance f lat lng x ≡ none
  Beats (some (o, d)) x = (e : Float) → office_distance f lat lng x ≡ some e → f.lt e d ≡ false

  -- The result is an office of the list, at its own distance.
  abbrev pub IsFrom : List Office → Option (Office × Float) → Type 0
  IsFrom os none = Unit
  IsFrom os (some (o, d)) = Any (λ x. (x ≡ o) × (office_distance f lat lng x ≡ some d)) os

  visit_absent :
      (best : Option (Office × Float)) (o : Office)
      → office_distance f lat lng o ≡ none
      → visit f lat lng best o ≡ best
  unfolding visit
  visit_absent best o e = rw (e, visit)

  visit_present :
      (best : Option (Office × Float)) (o : Office) {d : Float}
      → office_distance f lat lng o ≡ some d
      → visit f lat lng best o ≡ closer f best o d
  unfolding visit
  visit_present best o e = rw (e, visit)

  module _ (strict : IsStrict f) where
    Beats-closer :
        (best : Option (Office × Float)) (o : Office) (dist : Float) (x : Office)
        → Beats best x
        → Beats (closer f best o dist) x
    unfolding closer
    Beats-closer none o dist x h = λ e he. cc
    Beats-closer (some (b, d)) o dist x h = elim (Bool-cases (f.lt dist d)) [
      | inl t ↦ rw t (λ e he. elim (Bool-cases (f.lt e dist)) [
        | inl u ↦ cc (h e he, strict.trans e dist d u t)
        | inr u ↦ u
      ])
      | inr t ↦ rw t h
    ]

    Beats-closer_self :
        (best : Option (Office × Float)) (o : Office) (dist : Float)
        → office_distance f lat lng o ≡ some dist
        → Beats (closer f best o dist) o
    unfolding closer
    Beats-closer_self none o dist h = λ e he. ground (arith, strict.irrefl dist)
    Beats-closer_self (some (b, d)) o dist h = elim (Bool-cases (f.lt dist d)) [
      | inl t ↦ rw t (λ e he. ground (arith, strict.irrefl dist))
      | inr t ↦ rw t (λ e he. ground arith)
    ]

    Beats-absent :
        (best : Option (Office × Float)) (x : Office)
        → office_distance f lat lng x ≡ none
        → Beats best x
    Beats-absent none x h = h
    Beats-absent (some (o, d)) x h = λ e he. cc

    Beats-visit :
        (best : Option (Office × Float)) (o x : Office)
        → Beats best x
        → Beats (visit f lat lng best o) x
    Beats-visit best o x h = elim (Option-cases (office_distance f lat lng o)) [
      | inl e ↦ rw (visit_absent best o e) h
      | inr (d, e) ↦ rw (visit_present best o e) (Beats-closer best o d x h)
    ]

    Beats-visit_self :
        (best : Option (Office × Float)) (o : Office) → Beats (visit f lat lng best o) o
    Beats-visit_self best o = elim (Option-cases (office_distance f lat lng o)) [
      | inl e ↦ rw (visit_absent best o e) (Beats-absent best o e)
      | inr (d, e) ↦ rw (visit_present best o e) (Beats-closer_self best o d e)
    ]

    Beats-nearest_from :
        (os : List Office) (best : Option (Office × Float)) (x : Office)
        → Beats best x
        → Beats (nearest_from f lat lng best os) x
    unfolding nearest_from
    Beats-nearest_from [] best x h = h
    Beats-nearest_from (o ∷ os) best x h =
        Beats-nearest_from os (visit f lat lng best o) x (Beats-visit best o x h)

    nearest_from-All :
        (os : List Office) (best : Option (Office × Float))
        → All (Beats (nearest_from f lat lng best os)) os
    unfolding nearest_from
    nearest_from-All [] best = tt
    nearest_from-All (o ∷ os) best = (
      Beats-nearest_from os (visit f lat lng best o) o (Beats-visit_self best o),
      nearest_from-All os (visit f lat lng best o),
    )

  closer-cases :
      (best : Option (Office × Float)) (o : Office) (dist : Float)
      → (closer f best o dist ≡ best) ⊎ (closer f best o dist ≡ some (o, dist))
  unfolding closer
  closer-cases none o dist = inr refl
  closer-cases (some (b, d)) o dist = elim (Bool-cases (f.lt dist d)) [
    | inl t ↦ inr (rw t)
    | inr t ↦ inl (rw t)
  ]

  visit-cases :
      (best : Option (Office × Float)) (o : Office)
      → (visit f lat lng best o ≡ best)
        ⊎ ((d : Float) × (office_distance f lat lng o ≡ some d)
            × (visit f lat lng best o ≡ some (o, d)))
  visit-cases best o = elim (Option-cases (office_distance f lat lng o)) [
    | inl e ↦ inl (visit_absent best o e)
    | inr (d, e) ↦ elim (closer-cases best o d) [
      | inl c ↦ inl (visit_present best o e ∙ c)
      | inr c ↦ inr (d, e, visit_present best o e ∙ c)
    ]
  ]

  IsFrom-weaken :
      (r : Option (Office × Float)) (o : Office) (os : List Office)
      → IsFrom os r
      → IsFrom (o ∷ os) r
  IsFrom-weaken none o os h = tt
  IsFrom-weaken (some (b, d)) o os h = inr h

  IsFrom-head :
      (r : Option (Office × Float)) (o : Office) (d : Float) (os : List Office)
      → office_distance f lat lng o ≡ some d
      → r ≡ some (o, d)
      → IsFrom (o ∷ os) r
  IsFrom-head r o d os e h = rw h (inl (refl, e))

  nearest_from-cases :
      (os : List Office) (best : Option (Office × Float))
      → let r = nearest_from f lat lng best os in (r ≡ best) ⊎ IsFrom os r
  unfolding nearest_from
  nearest_from-cases [] best = inl refl
  nearest_from-cases (o ∷ os) best =
      let next = visit f lat lng best o in
      elim (nearest_from-cases os next) [
        | inr h ↦ inr (IsFrom-weaken (nearest_from f lat lng next os) o os h)
        | inl e ↦ elim (visit-cases best o) [
          | inl v ↦ inl (e ∙ v)
          | inr (d, ed, v) ↦ inr (IsFrom-head (nearest_from f lat lng next os) o d os ed (e ∙ v))
        ]
      ]

-- No office with coordinates is nearer than the result.
abbrev pub NoNearer : Floats → Option (Office × Float) → Option Float → Type 0
NoNearer f none none = Unit
NoNearer f none (some e) = ⊥
NoNearer f (some (o, d)) none = Unit
NoNearer f (some (o, d)) (some e) = f.lt e d ≡ false

NoNearer-at :
    (f : Floats) (lat lng : Float) (r : Option (Office × Float)) (o : Office) (m : Option Float)
    → office_distance f lat lng o ≡ m
    → Beats f lat lng r o
    → NoNearer f r m
NoNearer-at f lat lng none o none e b = tt
NoNearer-at f lat lng none o (some x) e b = ground (arith, b)
NoNearer-at f lat lng (some (n, d)) o none e b = tt
NoNearer-at f lat lng (some (n, d)) o (some x) e b = b x e

NoNearer-Beats :
    (f : Floats) (lat lng : Float) (r : Option (Office × Float)) (os : List Office)
    → All (Beats f lat lng r) os
    → All (λ o. NoNearer f r (office_distance f lat lng o)) os
NoNearer-Beats f lat lng r [] all = tt
NoNearer-Beats f lat lng r (o ∷ os) (b, all) = (
  NoNearer-at f lat lng r o (office_distance f lat lng o) refl b,
  NoNearer-Beats f lat lng r os all,
)

-- For float comparisons that are irreflexive and transitive: what `nearest_office` returns is one of
-- the active offices with its own Haversine distance, and no active office with coordinates is at
-- a smaller one; it returns nothing only if no active office has coordinates.
pub nearest_office_lem :
    (f : Floats) (db : Db) (lat lng : Float)
    → IsStrict f
    → let os = select (λ (o : Office). o.active) db.offices.rows in
      let r = nearest_office f db lat lng in
      All (λ o. NoNearer f r (office_distance f lat lng o)) os × IsFrom f lat lng os r
unfolding nearest_office
nearest_office_lem f db lat lng strict =
    let os = select (λ (o : Office). o.active) db.offices.rows in
    (
      NoNearer-Beats f lat lng (nearest_from f lat lng none os) os
          (nearest_from-All f lat lng strict os none),
      elim (nearest_from-cases f lat lng os none) [ inl e ↦ rw e tt | inr h ↦ h ],
    )
