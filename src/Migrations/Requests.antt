-- ===== src/Migrations/Requests.antt =====
-- alembic/versions/0b7f7b0add41_add_schedule_requests_and_user_profile_.py: schedule requests and the profile of users.
use office_attendance_backen.Base.{true, false, none, some, List, [], ◌∷◌}
use office_attendance_backen.Migrations.{
  Statement, integer, text, date, time, timestamptz, varchar, column, primary_key, check,
  foreign_key, create_table, drop_table, add_column, drop_column,
}

abbrev pub upgrade : List Statement
upgrade =
    create_table "schedule_requests"
      (column "id" integer none false
        ∷ column "user_id" integer none false
        ∷ column "start_date" date none false
        ∷ column "end_date" date none false
        ∷ column "start_time" time none false
        ∷ column "end_time" time none false
        ∷ column "reason" text none false
        ∷ column "status" (varchar 20) none false
        ∷ column "decided_by" integer none true
        ∷ column "decided_at" timestamptz none true
        ∷ column "decision_note" text none true
        ∷ [])
      (check "ck_schedule_requests_status" "status in ('pending','approved','rejected')"
        ∷ foreign_key none ("decided_by" ∷ []) "users" ("id" ∷ []) none
        ∷ foreign_key none ("user_id" ∷ []) "users" ("id" ∷ []) (some "CASCADE")
        ∷ primary_key ("id" ∷ [])
        ∷ [])
    ∷ add_column "users" (column "department" (varchar 120) none true)
    ∷ add_column "users" (column "job_title" (varchar 120) none true)
    ∷ add_column "users" (column "city" (varchar 120) none true)
    ∷ []

abbrev pub downgrade : List Statement
downgrade =
    drop_column "users" "city"
    ∷ drop_column "users" "job_title"
    ∷ drop_column "users" "department"
    ∷ drop_table "schedule_requests"
    ∷ []
