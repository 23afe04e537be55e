-- ===== src/Model/Tables.antt =====
-- The statements on one table: `INSERT`, `INSERT ... ON CONFLICT`, a read by primary key.
use office_attendance_backen.Base.{
  ℕ, suc, Bool, Option, none, some, List, [], ◌∷◌, ◌++◌, update_where, update_first, if◌then◌else◌,
}
use office_attendance_backen.Model.Rows.{Table}

module _ {ℓ} {A : Type ℓ} where
  -- `INSERT`: the row gets the next id of the sequence.
  abbrev pub add_row : (ℕ → A) → Table A → Table A
  add_row make t = record { rows = t.rows ++ make t.next_id ∷ []; next_id = suc t.next_id }

  -- `UPDATE ... WHERE p`
  abbrev pub update_rows : (A → Bool) → (A → A) → Table A → Table A
  update_rows p f t = record t { rows = update_where p f t.rows }

  -- A write to the row of a primary key.
  abbrev pub update_row : (A → Bool) → (A → A) → Table A → Table A
  update_row p f t = record t { rows = update_first p f t.rows }

  -- `INSERT ... ON CONFLICT DO UPDATE ... WHERE ... RETURNING`, over the rows: `update` is `none`
  -- at a row that the guard leaves alone. The first part is the row that was written.
  unfoldable pub on_conflict : (A → Bool) → (A → Option A) → A → List A → Option A × List A
  on_conflict clash update fresh [] = (some fresh, fresh ∷ [])
  on_conflict clash update fresh (x ∷ xs) =
      let (written, rest) = on_conflict clash update fresh xs in
      if clash x
      then elim (update x) [ none ↦ (none, x ∷ xs) | some y ↦ (some y, y ∷ xs) ]
      else (written, x ∷ rest)
