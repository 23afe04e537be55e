-- ===== src/Migrations/Sources.antt =====
-- alembic/versions/2eb328672b4f_add_attendance_source_ip_and_location.py: where a check-in came from.
use office_attendance_backen.Base.{true, none, List, [], ◌∷◌}
use office_attendance_backen.Migrations.{Statement, varchar, column, add_column, drop_column}

abbrev pub upgrade : List Statement
upgrade =
    add_column "attendance_days" (column "source_ip" (varchar 64) none true)
    ∷ add_column "attendance_days" (column "location" (varchar 120) none true)
    ∷ []

abbrev pub downgrade : List Statement
downgrade =
    drop_column "attendance_days" "location" ∷ drop_column "attendance_days" "source_ip" ∷ []
