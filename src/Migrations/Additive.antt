-- ===== src/Migrations/Additive.antt =====
-- alembic/versions/7c1d9f0a2b34_phase1_rev_a_additive.py: offices, rosters and attempts, and the renamed columns.
use office_attendance_backen.Base.{true, false, none, some, List, [], ◌∷◌}
use office_attendance_backen.Migrations.{
  Statement, integer, float, boolean, text, jsonb, time, timestamptz, varchar, literal, expression,
  column, primary_key, check, foreign_key, fill_heartbeat_users, delete_unowned_heartbeats,
  keep_legacy_detail, insert_head_office, clear_rosters, assign_default_roster, insert_roster,
  create_table, drop_table, add_column, drop_column, rename_column, set_nullable, add_constraint,
  drop_constraint, execute,
}

abbrev pub upgrade : List Statement
upgrade =
    create_table "offices"
      (column "id" integer none false
        ∷ column "name" (varchar 120) none false
        ∷ column "public_ips" jsonb (some (expression "'[]'::jsonb")) false
        ∷ column "latitude" float none true
        ∷ column "longitude" float none true
        ∷ column "radius_meters" integer (some (literal "80")) false
        ∷ column "timezone" (varchar 64) (some (literal "Asia/Karachi")) false
        ∷ column "active" boolean (some (expression "true")) false
        ∷ column "created_at" timestamptz (some (expression "now()")) false
        ∷ [])
      (primary_key ("id" ∷ []) ∷ [])
    ∷ create_table "rosters"
        (column "id" integer none false
          ∷ column "name" (varchar 120) none false
          ∷ column "start_time" time none false
          ∷ column "end_time" time none false
          ∷ column "grace_minutes" integer (some (literal "15")) false
          ∷ column "working_days" jsonb (some (expression "'[]'::jsonb")) false
          ∷ column "is_default" boolean (some (expression "false")) false
          ∷ column "office_id" integer none false
          ∷ column "active" boolean (some (expression "true")) false
          ∷ column "created_at" timestamptz (some (expression "now()")) false
          ∷ [])
        (check "ck_rosters_time_order" "end_time > start_time"
          ∷ foreign_key none ("office_id" ∷ []) "offices" ("id" ∷ []) none
          ∷ primary_key ("id" ∷ [])
          ∷ [])
    ∷ create_table "checkin_attempts"
        (column "id" integer none false
          ∷ column "user_id" integer none false
          ∷ column "ts" timestamptz (some (expression "now()")) false
          ∷ column "method" (varchar 10) none false
          ∷ column "source_ip" (varchar 64) none true
          ∷ column "matched_office_id" integer none true
          ∷ column "latitude" float none true
          ∷ column "longitude" float none true
          ∷ column "gps_accuracy" float none true
          ∷ column "distance_meters" float none true
          ∷ column "result" (varchar 24) none false
          ∷ column "message" text none true
          ∷ [])
        (check "ck_checkin_attempts_method" "method in ('wifi','gps')"
          ∷ check "ck_checkin_attempts_result"
              "result in ('success','ip_no_match','outside_radius','low_accuracy','before_shift','after_shift','off_day','already_checked_in')"
          ∷ foreign_key none ("user_id" ∷ []) "users" ("id" ∷ []) (some "CASCADE")
          ∷ foreign_key none ("matched_office_id" ∷ []) "offices" ("id" ∷ []) (some "SET NULL")
          ∷ primary_key ("id" ∷ [])
          ∷ [])
    ∷ create_table "app_state"
        (column "key" (varchar 64) none false
          ∷ column "value" jsonb none true
          ∷ column "updated_at" timestamptz (some (expression "now()")) false
          ∷ [])
        (primary_key ("key" ∷ []) ∷ [])
    ∷ add_column "users" (column "phone" (varchar 40) none true)
    ∷ add_column "users" (column "requested_roster_id" integer none true)
    ∷ add_column "users" (column "assigned_roster_id" integer none true)
    ∷ add_column "users" (column "admin_feedback" text none true)
    ∷ add_column "users" (column "approved_by" integer none true)
    ∷ add_column "users" (column "approved_at" timestamptz none true)
    ∷ add_constraint "users" (
        foreign_key (some "fk_users_requested_roster") ("requested_roster_id" ∷ []) "rosters"
          ("id" ∷ []) none)
    ∷ add_constraint "users" (
        foreign_key (some "fk_users_assigned_roster") ("assigned_roster_id" ∷ []) "rosters"
          ("id" ∷ []) none)
    ∷ add_constraint "users"
        (foreign_key (some "fk_users_approved_by") ("approved_by" ∷ []) "users" ("id" ∷ []) none)
    ∷ drop_constraint "users" "ck_users_status"
    ∷ add_constraint "users"
        (check "ck_users_status" "status in ('pending','active','rejected','disabled')")
    ∷ rename_column "devices" "platform" "user_agent"
    ∷ add_column "heartbeats" (column "user_id" integer none true)
    ∷ execute fill_heartbeat_users
    ∷ execute delete_unowned_heartbeats
    ∷ set_nullable "heartbeats" "user_id" false
    ∷ add_constraint "heartbeats" (
        foreign_key (some "fk_heartbeats_user") ("user_id" ∷ []) "users" ("id" ∷ [])
          (some "CASCADE"))
    ∷ add_column "audit_logs" (column "detail_json" jsonb none true)
    ∷ execute keep_legacy_detail
    ∷ rename_column "audit_logs" "user_id" "actor_user_id"
    ∷ add_column "attendance_days" (column "status" (varchar 20) none true)
    ∷ add_column "attendance_days" (column "method" (varchar 10) none true)
    ∷ add_column "attendance_days" (column "verification" (varchar 20) none true)
    ∷ add_column "attendance_days" (column "last_seen" timestamptz none true)
    ∷ add_column "attendance_days" (column "late_minutes" integer (some (literal "0")) false)
    ∷ add_column "attendance_days" (column "resolved_by" integer none true)
    ∷ add_constraint "attendance_days" (
        foreign_key (some "fk_attendance_days_resolved_by") ("resolved_by" ∷ []) "users" ("id" ∷ [])
          none)
    ∷ rename_column "attendance_days" "note" "admin_note"
    ∷ execute insert_head_office
    ∷ execute (insert_roster "Morning" "10:00" "19:00" true)
    ∷ execute (insert_roster "Mid" "11:00" "20:00" false)
    ∷ execute (insert_roster "Late" "12:00" "21:00" false)
    ∷ execute assign_default_roster
    ∷ []

abbrev pub downgrade : List Statement
downgrade =
    execute clear_rosters
    ∷ rename_column "attendance_days" "admin_note" "note"
    ∷ drop_constraint "attendance_days" "fk_attendance_days_resolved_by"
    ∷ drop_column "attendance_days" "resolved_by"
    ∷ drop_column "attendance_days" "late_minutes"
    ∷ drop_column "attendance_days" "last_seen"
    ∷ drop_column "attendance_days" "verification"
    ∷ drop_column "attendance_days" "method"
    ∷ drop_column "attendance_days" "status"
    ∷ rename_column "audit_logs" "actor_user_id" "user_id"
    ∷ drop_column "audit_logs" "detail_json"
    ∷ drop_constraint "heartbeats" "fk_heartbeats_user"
    ∷ drop_column "heartbeats" "user_id"
    ∷ rename_column "devices" "user_agent" "platform"
    ∷ drop_constraint "users" "ck_users_status"
    ∷ add_constraint "users" (check "ck_users_status" "status in ('pending','active','disabled')")
    ∷ drop_constraint "users" "fk_users_approved_by"
    ∷ drop_constraint "users" "fk_users_assigned_roster"
    ∷ drop_constraint "users" "fk_users_requested_roster"
    ∷ drop_column "users" "approved_at"
    ∷ drop_column "users" "approved_by"
    ∷ drop_column "users" "admin_feedback"
    ∷ drop_column "users" "assigned_roster_id"
    ∷ drop_column "users" "requested_roster_id"
    ∷ drop_column "users" "phone"
    ∷ drop_table "app_state"
    ∷ drop_table "checkin_attempts"
    ∷ drop_table "rosters"
    ∷ drop_table "offices"
    ∷ []
