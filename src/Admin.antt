-- ===== src/Admin.antt =====
-- app/routers/admin.py: what an admin does with employees, devices and attendance days, and
-- app/bootstrap.py. The dependency `require_admin` has returned `admin`.
mod Employees
mod Days
mod Views
pub mod Review
pub use Employees.{Decision, UserDecisionIn}
unfoldable pub use Employees.{
  get_employee, active_device_count, require_active_roster, approved_row, rejected_row, decide,
  decide_user, set_status, disable_employee, enable_employee, detach_actor, delete_user,
  delete_employee, revoke_device, bootstrap_with, ensure_admin_user,
}
pub use Days.{VerifyAction, Resolution}
unfoldable pub use Days.{
  status_of, day_by_id, awaits_verification, verify_row, verify_action_name, verify_gps_day,
  resolve_row, resolve_flagged_day,
}
unfoldable pub use Views.{
  employee_out, list_employees, list_employee_devices, dashboard_entry, entry_of, dashboard_entries,
  dashboard, flagged_out, joined, flagged_days,
}
