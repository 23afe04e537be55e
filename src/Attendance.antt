-- ===== src/Attendance.antt =====
-- app/routers/attendance.py: the handlers of /api/attendance. `user` and `device` are what the
-- dependencies of app/deps.py returned.
mod Types
mod Guard
mod Checkin
mod Heartbeat
mod History
pub mod Safety
pub mod Success
pub mod Beating
pub mod Verdicts
pub mod Evidence
unfoldable pub use Types.*
unfoldable pub use Guard.*
unfoldable pub use Checkin.*
pub use Heartbeat.{HeartbeatIn, Beat, outside, not_checked_in, beat, Verdict}
unfoldable pub use Heartbeat.{
  is_gps_day, set_day, set_device, on_network, reverify, off_network, judge, beat_day, beat_found,
  record_beat, beat_shift, heartbeat,
}
unfoldable pub use History.{own_today, history}
