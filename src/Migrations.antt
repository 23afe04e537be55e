-- ===== src/Migrations.antt =====
-- alembic/versions/: what the revisions do to the catalogue of the database, its tables, columns,
-- constraints and indexes. A statement that PostgreSQL refuses ends the revision. The changes of rows
-- that a revision executes are named, and leave the catalogue as it is.
pub mod Initial
pub mod Requests
pub mod Sources
pub mod Additive
pub mod Destructive
pub mod Chain
use office_attendance_backen.Base.{
  ℕ, String, str_eq, Bool, true, false, not, Option, none, some, List, [], ◌∷◌, ◌++◌, map, ◌&&◌,
  ◌||◌, if◌then◌else◌,
}

pub data SqlType : Type 0 where
  integer float boolean text jsonb date time timestamptz : SqlType
  varchar : ℕ → SqlType

-- A `server_default`: a literal, or an expression (`sa.text`).
pub data Default : Type 0 where
  literal expression : String → Default

pub record Column : Type 0 where
  pub name : String
  pub kind : SqlType
  pub server_default : Option Default
  pub nullable : Bool

abbrev pub column : String → SqlType → Option Default → Bool → Column
column name kind server_default nullable = record {
  name = name;
  kind = kind;
  server_default = server_default;
  nullable = nullable;
}

-- Constraints, with the name where the revision gives one. A foreign key has its columns, the table and
-- the columns that it refers to, and ON DELETE.
pub data Constraint : Type 0 where
  primary_key : List String → Constraint
  unique : String → List String → Constraint
  check : String → String → Constraint
  foreign_key : Option String → List String → String → List String → Option String → Constraint

pub record TableDef : Type 0 where
  pub name : String
  pub columns : List Column
  pub constraints : List Constraint

pub record IndexDef : Type 0 where
  pub name : String
  pub table : String
  pub columns : List String
  pub is_unique : Bool

pub record Catalogue : Type 0 where
  pub tables : List TableDef
  pub indexes : List IndexDef

-- The changes of rows: UPDATE, DELETE, INSERT and TRUNCATE statements.
pub data RowChange : Type 0 where
  fill_heartbeat_users delete_unowned_heartbeats keep_legacy_detail insert_head_office : RowChange
  insert_roster : String → String → String → Bool → RowChange
  assign_default_roster clear_rosters truncate_days restore_detail : RowChange

-- Alembic's `op`.
pub data Statement : Type 0 where
  create_table : String → List Column → List Constraint → Statement
  drop_table : String → Statement
  create_unique_index : String → String → List String → Statement
  drop_index : String → Statement
  add_column : String → Column → Statement
  drop_column : String → String → Statement
  rename_column : String → String → String → Statement
  set_nullable : String → String → Bool → Statement
  add_constraint : String → Constraint → Statement
  drop_constraint : String → String → Statement
  execute : RowChange → Statement

abbrev pub has {ℓ} : {A : Type ℓ} → (A → Bool) → List A → Bool
has p [] = false
has p (x ∷ xs) = let rest = has p xs in p x || rest

-- Removes what passes the test; there has to be something.
abbrev pub without {ℓ} : {A : Type ℓ} → (A → Bool) → List A → Option (List A)
without p [] = none
without p (x ∷ xs) = elim (without p xs) [
  | none ↦ if p x then some xs else none
  | some rest ↦ some (if p x then rest else x ∷ rest)
]

-- Changes the first that passes the test; there has to be one.
abbrev pub change_at {ℓ} : {A : Type ℓ} → (A → Bool) → (A → Option A) → List A → Option (List A)
change_at p f [] = none
change_at p f (x ∷ xs) =
    let rest = change_at p f xs in
    if p x
    then elim (f x) [ none ↦ none | some y ↦ some (y ∷ xs) ]
    else elim rest [ none ↦ none | some ys ↦ some (x ∷ ys) ]

abbrev pub keeps {ℓ} : {A : Type ℓ} → (A → Bool) → List A → List A
keeps p [] = []
keeps p (x ∷ xs) = let rest = keeps p xs in if p x then x ∷ rest else rest

abbrev pub is_named : String → Constraint → Bool
is_named n (unique m _) = str_eq m n
is_named n (check m _) = str_eq m n
is_named n (foreign_key (some m) _ _ _ _) = str_eq m n
is_named n _ = false

-- A key or a foreign key goes with any of its columns. The revisions drop a check themselves before
-- they drop its column.
abbrev pub is_over : String → Constraint → Bool
is_over c (primary_key cs) = has (λ x. str_eq x c) cs
is_over c (unique _ cs) = has (λ x. str_eq x c) cs
is_over c (foreign_key _ cs _ _ _) = has (λ x. str_eq x c) cs
is_over c _ = false

abbrev pub renamed : String → String → List String → List String
renamed old new cs = map (λ x. if str_eq x old then new else x) cs

abbrev pub rename_in : String → String → Constraint → Constraint
rename_in old new (primary_key cs) = primary_key (renamed old new cs)
rename_in old new (unique n cs) = unique n (renamed old new cs)
rename_in old new (check n condition) = check n condition
rename_in old new (foreign_key n cs t rs d) = foreign_key n (renamed old new cs) t rs d

abbrev pub refers_to : String → Constraint → Bool
refers_to table (foreign_key _ _ t _ _) = str_eq t table
refers_to table _ = false

abbrev pub column_is : String → Column → Bool
column_is c x = str_eq x.name c

-- What ALTER TABLE makes of a table.
unfoldable pub alter_table : Statement → TableDef → Option TableDef
alter_table (add_column _ c) t =
    if has (column_is c.name) t.columns
    then none
    else some (record t { columns = t.columns ++ c ∷ [] })
alter_table (drop_column _ c) t = elim (without (column_is c) t.columns) [
  | none ↦ none
  | some cs ↦
      some (record t { columns = cs; constraints = keeps (λ x. not (is_over c x)) t.constraints })
]
alter_table (rename_column _ old new) t =
    if has (column_is new) t.columns
    then none
    else elim (change_at (column_is old) (λ c. some (record c { name = new })) t.columns) [
      | none ↦ none
      | some cs ↦
          some (record t { columns = cs; constraints = map (rename_in old new) t.constraints })
    ]
alter_table (set_nullable _ c b) t =
    elim (change_at (column_is c) (λ x. some (record x { nullable = b })) t.columns) [
      | none ↦ none
      | some cs ↦ some (record t { columns = cs })
    ]
alter_table (add_constraint _ x) t = some (record t { constraints = t.constraints ++ x ∷ [] })
alter_table (drop_constraint _ n) t = elim (without (is_named n) t.constraints) [
  | none ↦ none
  | some xs ↦ some (record t { constraints = xs })
]
alter_table _ t = some t

abbrev pub alter_in : String → Statement → Catalogue → Option Catalogue
unfolding alter_table
alter_in table s c =
    elim (change_at (λ (t : TableDef). str_eq t.name table) (alter_table s) c.tables) [
      | none ↦ none
      | some ts ↦ some (record c { tables = ts })
    ]

unfoldable pub step : Statement → Catalogue → Option Catalogue
unfolding alter_table
step (create_table n cols rules) c =
    if has (λ (t : TableDef). str_eq t.name n) c.tables
    then none
    else some (record c {
      tables = c.tables ++ record { name = n; columns = cols; constraints = rules } ∷ [];
    })
step (drop_table n) c = elim (without (λ (t : TableDef). str_eq t.name n) c.tables) [
  | none ↦ none
  | some ts ↦
      if has (λ (t : TableDef). has (refers_to n) t.constraints) ts
      then none
      else some (record {
        tables = ts;
        indexes = keeps (λ (i : IndexDef). not (str_eq i.table n)) c.indexes;
      })
]
step (create_unique_index n table cols) c =
    if has (λ (i : IndexDef). str_eq i.name n) c.indexes
    then none
    else some (record c {
      indexes =
          c.indexes ++ record { name = n; table = table; columns = cols; is_unique = true } ∷ [];
    })
step (drop_index n) c = elim (without (λ (i : IndexDef). str_eq i.name n) c.indexes) [
  | none ↦ none
  | some is ↦ some (record c { indexes = is })
]
step (add_column t x) c = alter_in t (add_column t x) c
step (drop_column t x) c = alter_in t (drop_column t x) c
step (rename_column t a b) c = alter_in t (rename_column t a b) c
step (set_nullable t x b) c = alter_in t (set_nullable t x b) c
step (add_constraint t x) c = alter_in t (add_constraint t x) c
step (drop_constraint t n) c = alter_in t (drop_constraint t n) c
step (execute _) c = some c

unfoldable pub run : List Statement → Catalogue → Option Catalogue
unfolding step
run [] c = some c
run (s ∷ ss) c = elim (step s c) [ none ↦ none | some c' ↦ run ss c' ]
