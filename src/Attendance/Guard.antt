-- ===== src/Attendance/Guard.antt =====
-- app/routers/attendance.py `_guard_shift`: the shift guards that both check-in endpoints share.
use office_attendance_backen.Base.{Option, none, some, not, if◌then◌else◌}
use office_attendance_backen.Model.{Office, Roster, User, Method, AttemptResult}
use office_attendance_backen.World.{World, Clock}
use office_attendance_backen.Session.{
  Action, internal, pure, gets, or_raise, modify, commit, ◌>>=◌, ◌>>◌,
}
use office_attendance_backen.Presence.{Phase, ShiftEval, evaluate_shift, ensure_off_day}
use office_attendance_backen.Attendance.Types.{
  Response, no_roster, off_day, before_shift, after_shift, assigned_roster, zoned_office, no_detail,
  log,
}

-- What `_guard_shift` returns: a response, or the shift to go on with.
pub data Guarded : Type 0 where
  early : Response → Guarded
  go : ShiftEval → Roster → Office → Guarded

-- `_guard_shift` from `if not ev.is_working_day` on.
unfoldable pub guard_eval : Clock → User → Method → ShiftEval → Roster → Office → Action Guarded
guard_eval c user method ev roster office =
    if not ev.is_working_day
    then (do
      modify (ensure_off_day user.id ev.local_date)
      modify (log c.db_now user.id method AttemptResult.off_day no_detail "off_day")
      commit
      pure (early off_day))
    else elim ev.phase [
      | Phase.before_shift ↦ do
        modify (log c.db_now user.id method AttemptResult.before_shift no_detail "before_shift")
        commit
        pure (early (before_shift ev.shift_start ev.minutes_to_start))
      | Phase.after_shift ↦ do
        modify (log c.db_now user.id method AttemptResult.after_shift no_detail "after_shift")
        commit
        pure (early after_shift)
      | _ ↦ pure (go ev roster office)
    ]

-- With the user's roster at hand. A roster whose office is missing is an AttributeError,
-- an office of an unknown zone a ZoneInfoNotFoundError.
unfoldable pub guard_roster : World → Clock → User → Method → Option Roster → Action Guarded
guard_roster w c user method none = pure (early no_roster)
guard_roster w c user method (some roster) = do
  found ← gets (zoned_office w.zones roster)
  office ← or_raise internal found
  guard_eval c user method (evaluate_shift w.zones office roster c.first) roster office

unfoldable pub guard_shift : World → Clock → User → Method → Action Guarded
guard_shift w c user method = do
  roster ← gets (assigned_roster user)
  guard_roster w c user method roster
