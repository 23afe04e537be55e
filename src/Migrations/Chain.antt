-- ===== src/Migrations/Chain.antt =====
-- alembic/versions/: the revisions one after the other, in the order of their `down_revision`.
use office_attendance_backen.Base.{
  String, str_eq, none, some, List, [], ◌∷◌, ◌++◌, map, ◌≡◌, refl, if◌then◌else◌,
}
use office_attendance_backen.Migrations.{
  Catalogue, TableDef, Column, Statement, run, step, alter_table,
}
use office_attendance_backen.Migrations.Initial
use office_attendance_backen.Migrations.Requests
use office_attendance_backen.Migrations.Sources
use office_attendance_backen.Migrations.Additive
use office_attendance_backen.Migrations.Destructive

abbrev no_tables : Catalogue
no_tables = record { tables = []; indexes = [] }

abbrev pub upgrades : List Statement
upgrades =
    Initial.upgrade
    ++ (Requests.upgrade ++ (Sources.upgrade ++ (Additive.upgrade ++ Destructive.upgrade)))

abbrev pub downgrades : List Statement
downgrades =
    Destructive.downgrade
    ++ (Additive.downgrade ++ (Sources.downgrade ++ (Requests.downgrade ++ Initial.downgrade)))

abbrev columns_of : String → List TableDef → List String
columns_of n [] = []
columns_of n (t ∷ ts) =
    let rest = columns_of n ts in
    if str_eq t.name n then map (λ (c : Column). c.name) t.columns else rest

abbrev columns_after : List Statement → String → List String
columns_after ss n = elim (run ss no_tables) [ none ↦ [] | some c ↦ columns_of n c.tables ]

-- All revisions go through on an empty database, and taking all of them back leaves it empty.
downgrades_undo : run (upgrades ++ downgrades) no_tables ≡ some no_tables
unfolding run step alter_table
downgrades_undo = refl

-- The last revision leaves the days with the columns of app/models.py, no more.
columns_after-upgrades :
    columns_after upgrades "attendance_days"
    ≡ "id" ∷ "user_id" ∷ "date" ∷ "check_in" ∷ "check_out" ∷ "admin_note" ∷ "status" ∷ "method"
      ∷ "verification" ∷ "last_seen" ∷ "late_minutes" ∷ "resolved_by" ∷ []
unfolding run step alter_table
columns_after-upgrades = refl
