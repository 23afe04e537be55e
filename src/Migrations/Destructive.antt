-- ===== src/Migrations/Destructive.antt =====
-- alembic/versions/9e8d7c6b5a40_phase1_rev_b_destructive.py: the tables and columns that go.
use office_attendance_backen.Base.{true, false, none, some, List, [], ◌∷◌}
use office_attendance_backen.Migrations.{
  Statement, integer, boolean, text, date, time, timestamptz, varchar, literal, expression, column,
  primary_key, check, foreign_key, truncate_days, restore_detail, create_table, drop_table,
  add_column, drop_column, rename_column, set_nullable, add_constraint, drop_constraint, execute,
}

abbrev pub upgrade : List Statement
upgrade =
    execute truncate_days
    ∷ set_nullable "attendance_days" "status" false
    ∷ drop_constraint "attendance_days" "ck_attendance_days_mode"
    ∷ add_constraint "attendance_days" (
        check "ck_attendance_days_status"
          "status in ('present','late','flagged','absent','leave','off_day')")
    ∷ add_constraint "attendance_days"
        (check "ck_attendance_days_method" "method in ('wifi','gps','manual')")
    ∷ add_constraint "attendance_days"
        (check "ck_attendance_days_verification" "verification in ('verified','gps_pending')")
    ∷ drop_column "attendance_days" "mode"
    ∷ drop_column "attendance_days" "passed_checks"
    ∷ drop_column "attendance_days" "total_checks"
    ∷ drop_column "attendance_days" "source_ip"
    ∷ drop_column "attendance_days" "location"
    ∷ drop_table "random_checks"
    ∷ drop_table "wfh_requests"
    ∷ drop_table "schedule_requests"
    ∷ drop_table "office_networks"
    ∷ drop_column "audit_logs" "detail"
    ∷ rename_column "audit_logs" "detail_json" "detail"
    ∷ []

abbrev pub downgrade : List Statement
downgrade =
    rename_column "audit_logs" "detail" "detail_json"
    ∷ add_column "audit_logs" (column "detail" text none true)
    ∷ execute restore_detail
    ∷ create_table "office_networks"
        (column "id" integer none false
          ∷ column "label" (varchar 120) none false
          ∷ column "public_ip" (varchar 64) none false
          ∷ column "active" boolean none false
          ∷ column "created_by" integer none true
          ∷ column "created_at" timestamptz (some (expression "now()")) false
          ∷ [])
        (foreign_key none ("created_by" ∷ []) "users" ("id" ∷ []) none
          ∷ primary_key ("id" ∷ [])
          ∷ [])
    ∷ create_table "random_checks"
        (column "id" integer none false
          ∷ column "user_id" integer none false
          ∷ column "date" date none false
          ∷ column "scheduled_at" timestamptz none false
          ∷ column "responded_at" timestamptz none true
          ∷ column "source_ip" (varchar 64) none true
          ∷ column "result" (varchar 20) none false
          ∷ [])
        (check "ck_random_checks_result" "result in ('pending','passed','missed')"
          ∷ foreign_key none ("user_id" ∷ []) "users" ("id" ∷ []) (some "CASCADE")
          ∷ primary_key ("id" ∷ [])
          ∷ [])
    ∷ create_table "wfh_requests"
        (column "id" integer none false
          ∷ column "user_id" integer none false
          ∷ column "date" date none false
          ∷ column "reason" text none false
          ∷ column "status" (varchar 20) none false
          ∷ column "decided_by" integer none true
          ∷ column "decided_at" timestamptz none true
          ∷ [])
        (check "ck_wfh_requests_status" "status in ('pending','approved','rejected')"
          ∷ foreign_key none ("user_id" ∷ []) "users" ("id" ∷ []) (some "CASCADE")
          ∷ foreign_key none ("decided_by" ∷ []) "users" ("id" ∷ []) none
          ∷ primary_key ("id" ∷ [])
          ∷ [])
    ∷ create_table "schedule_requests"
        (column "id" integer none false
          ∷ column "user_id" integer none false
          ∷ column "start_date" date none false
          ∷ column "end_date" date none false
          ∷ column "start_time" time none false
          ∷ column "end_time" time none false
          ∷ column "reason" text none false
          ∷ column "status" (varchar 20) none false
          ∷ column "decided_by" integer none true
          ∷ column "decided_at" timestamptz none true
          ∷ column "decision_note" text none true
          ∷ [])
        (check "ck_schedule_requests_status" "status in ('pending','approved','rejected')"
          ∷ foreign_key none ("user_id" ∷ []) "users" ("id" ∷ []) (some "CASCADE")
          ∷ foreign_key none ("decided_by" ∷ []) "users" ("id" ∷ []) none
          ∷ primary_key ("id" ∷ [])
          ∷ [])
    ∷ add_column "attendance_days" (column "location" (varchar 120) none true)
    ∷ add_column "attendance_days" (column "source_ip" (varchar 64) none true)
    ∷ add_column "attendance_days" (column "total_checks" integer (some (literal "0")) false)
    ∷ add_column "attendance_days" (column "passed_checks" integer (some (literal "0")) false)
    ∷ add_column "attendance_days" (column "mode" (varchar 20) (some (literal "pending")) false)
    ∷ drop_constraint "attendance_days" "ck_attendance_days_verification"
    ∷ drop_constraint "attendance_days" "ck_attendance_days_method"
    ∷ drop_constraint "attendance_days" "ck_attendance_days_status"
    ∷ add_constraint "attendance_days"
        (check "ck_attendance_days_mode" "mode in ('office','wfh','flagged','absent','pending')")
    ∷ set_nullable "attendance_days" "status" true
    ∷ []
