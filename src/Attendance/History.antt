-- ===== src/Attendance/History.antt =====
-- app/routers/attendance.py: GET /history, the employee's own days of the last thirty days.
use office_attendance_backen.Base.{
  ◌-◌, ◌==◌, ◌&&◌, ltb, leb, Option, none, some, List, map, select, order_by,
}
use office_attendance_backen.Time.{Date, local_date_of}
use office_attendance_backen.Model.{Roster, User}
use office_attendance_backen.World.{World, Clock}
use office_attendance_backen.Session.{Action, internal, pure, gets, or_raise, raise_if, ◌>>=◌, ◌>>◌}
use office_attendance_backen.Schemas.{AttendanceDayOut, attendance_day_out}
use office_attendance_backen.Attendance.Types.{assigned_roster, zoned_office}

-- `office_today(roster.office) if roster else today_local()`. A roster whose office is missing is
-- an AttributeError, an unknown zone a ZoneInfoNotFoundError.
unfoldable pub own_today : World → Clock → Option Roster → Action Date
own_today w c none = pure (local_date_of w.zones w.settings.display_timezone c.first)
own_today w c (some roster) = do
  found ← gets (zoned_office w.zones roster)
  office ← or_raise internal found
  pure (local_date_of w.zones office.timezone c.first)

-- A date before the year 1 is an OverflowError.
unfoldable pub history : World → Clock → User → Action (List AttendanceDayOut)
history w c user = do
  roster ← gets (assigned_roster user)
  local_today ← own_today w c roster
  raise_if (ltb local_today 30) internal
  gets (λ db. map attendance_day_out (
      order_by (λ a b. leb b.date a.date)
        (select (λ d. d.user_id == user.id && leb (local_today - 30) d.date) db.days.rows)))
