-- ===== src/Admin/Days.antt =====
-- app/routers/admin.py: the review of GPS check-ins and of flagged days.
use office_attendance_backen.Base.{ℕ, ◌==◌, String, Bool, false, not, Option, none, some, find}
use office_attendance_backen.Model.{
  User, AttendanceDay, Db, DayStatus, Verification, is_gps_pending,
}
use office_attendance_backen.World.{Clock}
use office_attendance_backen.Session.{
  Action, not_found, conflict, gets, or_raise, raise_if, modify, commit, ◌>>=◌, ◌>>◌,
}
use office_attendance_backen.Deps.{log_action}
use office_attendance_backen.Attendance.{set_day}

-- `VerifyDecisionIn.action`
pub data VerifyAction : Type 0 where
  approve query : VerifyAction

-- `FlaggedResolveIn.status`
pub data Resolution : Type 0 where
  present absent leave : Resolution

abbrev pub status_of : Resolution → DayStatus
status_of present = DayStatus.present
status_of absent = DayStatus.absent
status_of leave = DayStatus.leave

abbrev pub day_by_id : ℕ → Db → Option AttendanceDay
day_by_id id db = find (λ d. d.id == id) db.days.rows

abbrev pub awaits_verification : AttendanceDay → Bool
awaits_verification d = elim d.verification [ none ↦ false | some v ↦ is_gps_pending v ]

abbrev pub verify_row : VerifyAction → Option String → ℕ → AttendanceDay → AttendanceDay
verify_row approve note admin_id d = record d {
  verification = some Verification.verified;
  admin_note = note;
  resolved_by = some admin_id;
}
verify_row query note admin_id d = record d {
  status = DayStatus.flagged;
  admin_note = note;
  resolved_by = some admin_id;
}

abbrev pub verify_action_name : VerifyAction → String
verify_action_name approve = "gps_approve"
verify_action_name query = "gps_query"

unfoldable pub verify_gps_day : Clock → User → ℕ → VerifyAction → Option String → Action (Unit {0})
unfolding log_action
verify_gps_day c admin day_id action note = do
  found ← gets (day_by_id day_id)
  day ← or_raise not_found found
  raise_if (not (awaits_verification day)) conflict
  modify (set_day day.id (verify_row action note admin.id))
  modify (log_action c.db_now (some admin.id) (verify_action_name action) (some day_id))
  commit

abbrev pub resolve_row : Resolution → Option String → ℕ → AttendanceDay → AttendanceDay
resolve_row r note admin_id d = record d {
  status = status_of r;
  admin_note = note;
  resolved_by = some admin_id;
}

unfoldable pub resolve_flagged_day :
    Clock → User → ℕ → Resolution → Option String → Action (Unit {0})
unfolding log_action
resolve_flagged_day c admin day_id r note = do
  found ← gets (day_by_id day_id)
  day ← or_raise not_found found
  modify (set_day day.id (resolve_row r note admin.id))
  modify (log_action c.db_now (some admin.id) "flagged_day_resolved" (some day_id))
  commit
