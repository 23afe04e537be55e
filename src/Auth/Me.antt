-- ===== src/Auth/Me.antt =====
-- app/routers/auth.py: GET /me, the user of the token with their roster.
use mathlib.Core.Option
use office_attendance_backen.Model.{User}
use office_attendance_backen.Session.{Action, gets}
use office_attendance_backen.Schemas.{MeOut, user_out, roster_out}
use office_attendance_backen.Attendance.{assigned_roster}

unfoldable pub me : User → Action MeOut
me user = gets (λ db. record {
  user = user_out user;
  assigned_roster = Option.map roster_out (assigned_roster user db);
})
