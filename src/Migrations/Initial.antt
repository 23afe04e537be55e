-- ===== src/Migrations/Initial.antt =====
-- alembic/versions/fd630ebf4162_initial_schema.py: the first schema.
use office_attendance_backen.Base.{true, false, none, some, List, [], ◌∷◌}
use office_attendance_backen.Migrations.{
  Statement, integer, boolean, text, date, timestamptz, varchar, expression, column, primary_key,
  unique, check, foreign_key, create_table, drop_table, create_unique_index, drop_index,
}

abbrev pub upgrade : List Statement
upgrade =
    create_table "users"
      (column "id" integer none false
        ∷ column "name" (varchar 120) none false
        ∷ column "email" (varchar 255) none false
        ∷ column "password_hash" (varchar 255) none false
        ∷ column "role" (varchar 20) none false
        ∷ column "status" (varchar 20) none false
        ∷ column "created_at" timestamptz (some (expression "now()")) false
        ∷ [])
      (check "ck_users_role" "role in ('admin','employee')"
        ∷ check "ck_users_status" "status in ('pending','active','disabled')"
        ∷ primary_key ("id" ∷ [])
        ∷ [])
    ∷ create_unique_index "ix_users_email" "users" ("email" ∷ [])
    ∷ create_table "attendance_days"
        (column "id" integer none false
          ∷ column "user_id" integer none false
          ∷ column "date" date none false
          ∷ column "mode" (varchar 20) none false
          ∷ column "check_in" timestamptz none true
          ∷ column "check_out" timestamptz none true
          ∷ column "passed_checks" integer none false
          ∷ column "total_checks" integer none false
          ∷ column "note" text none true
          ∷ [])
        (check "ck_attendance_days_mode" "mode in ('office','wfh','flagged','absent','pending')"
          ∷ foreign_key none ("user_id" ∷ []) "users" ("id" ∷ []) (some "CASCADE")
          ∷ primary_key ("id" ∷ [])
          ∷ unique "uq_attendance_days_user_date" ("user_id" ∷ "date" ∷ [])
          ∷ [])
    ∷ create_table "audit_logs"
        (column "id" integer none false
          ∷ column "user_id" integer none true
          ∷ column "action" (varchar 80) none false
          ∷ column "detail" text none true
          ∷ column "ts" timestamptz (some (expression "now()")) false
          ∷ [])
        (foreign_key none ("user_id" ∷ []) "users" ("id" ∷ []) none ∷ primary_key ("id" ∷ []) ∷ [])
    ∷ create_table "devices"
        (column "id" integer none false
          ∷ column "user_id" integer none false
          ∷ column "token_hash" (varchar 64) none false
          ∷ column "platform" (varchar 255) none true
          ∷ column "status" (varchar 20) none false
          ∷ column "created_at" timestamptz (some (expression "now()")) false
          ∷ column "last_seen_at" timestamptz none true
          ∷ [])
        (check "ck_devices_status" "status in ('active','revoked')"
          ∷ foreign_key none ("user_id" ∷ []) "users" ("id" ∷ []) (some "CASCADE")
          ∷ primary_key ("id" ∷ [])
          ∷ [])
    ∷ create_unique_index "ix_devices_token_hash" "devices" ("token_hash" ∷ [])
    ∷ create_table "office_networks"
        (column "id" integer none false
          ∷ column "label" (varchar 120) none false
          ∷ column "public_ip" (varchar 64) none false
          ∷ column "active" boolean none false
          ∷ column "created_by" integer none true
          ∷ column "created_at" timestamptz (some (expression "now()")) false
          ∷ [])
        (foreign_key none ("created_by" ∷ []) "users" ("id" ∷ []) none
          ∷ primary_key ("id" ∷ [])
          ∷ [])
    ∷ create_table "random_checks"
        (column "id" integer none false
          ∷ column "user_id" integer none false
          ∷ column "date" date none false
          ∷ column "scheduled_at" timestamptz none false
          ∷ column "responded_at" timestamptz none true
          ∷ column "source_ip" (varchar 64) none true
          ∷ column "result" (varchar 20) none false
          ∷ [])
        (check "ck_random_checks_result" "result in ('pending','passed','missed')"
          ∷ foreign_key none ("user_id" ∷ []) "users" ("id" ∷ []) (some "CASCADE")
          ∷ primary_key ("id" ∷ [])
          ∷ [])
    ∷ create_table "wfh_requests"
        (column "id" integer none false
          ∷ column "user_id" integer none false
          ∷ column "date" date none false
          ∷ column "reason" text none false
          ∷ column "status" (varchar 20) none false
          ∷ column "decided_by" integer none true
          ∷ column "decided_at" timestamptz none true
          ∷ [])
        (check "ck_wfh_requests_status" "status in ('pending','approved','rejected')"
          ∷ foreign_key none ("decided_by" ∷ []) "users" ("id" ∷ []) none
          ∷ foreign_key none ("user_id" ∷ []) "users" ("id" ∷ []) (some "CASCADE")
          ∷ primary_key ("id" ∷ [])
          ∷ [])
    ∷ create_table "heartbeats"
        (column "id" integer none false
          ∷ column "device_id" integer none false
          ∷ column "ts" timestamptz (some (expression "now()")) false
          ∷ column "source_ip" (varchar 64) none false
          ∷ column "ip_matched" boolean none false
          ∷ [])
        (foreign_key none ("device_id" ∷ []) "devices" ("id" ∷ []) (some "CASCADE")
          ∷ primary_key ("id" ∷ [])
          ∷ [])
    ∷ []

abbrev pub downgrade : List Statement
downgrade =
    drop_table "heartbeats"
    ∷ drop_table "wfh_requests"
    ∷ drop_table "random_checks"
    ∷ drop_table "office_networks"
    ∷ drop_index "ix_devices_token_hash"
    ∷ drop_table "devices"
    ∷ drop_table "audit_logs"
    ∷ drop_table "attendance_days"
    ∷ drop_index "ix_users_email"
    ∷ drop_table "users"
    ∷ []
