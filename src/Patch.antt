-- ===== src/Patch.antt =====
-- app/schemas.py: the optional fields of a PATCH body, as `model_dump(exclude_unset=True)` gives them.
use office_attendance_backen.Base.{Bool, true, false, Option, none, some}

-- A field of a PATCH body: left out, an explicit null, or a value.
pub data Field {ℓ} (A : Type ℓ) : Type ℓ where
  unset null : Field A
  given : A → Field A

module _ {ℓ} {A : Type ℓ} where
  abbrev pub is_null : Field A → Bool
  is_null null = true
  is_null _ = false

  -- The value that a column has after `setattr`, if there is no null.
  abbrev pub value_or : A → Field A → A
  value_or a (given x) = x
  value_or a _ = a

  -- The same for a column that may be NULL.
  abbrev pub nullable_or : Option A → Field A → Option A
  nullable_or a unset = a
  nullable_or a null = none
  nullable_or a (given x) = some x
