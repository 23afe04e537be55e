-- ===== src/Rosters/Views.antt =====
-- app/routers/rosters.py: the two lists of rosters, the public one and the admin's.
use office_attendance_backen.Base.{leb, List, map, select, order_by}
use office_attendance_backen.Session.{Action, gets}
use office_attendance_backen.Schemas.{RosterOut, roster_out}

unfoldable pub list_active_rosters : Action (List RosterOut)
list_active_rosters = gets (λ db.
    map roster_out
      (order_by (λ a b. leb a.start_time b.start_time) (select (λ r. r.active) db.rosters.rows)))

unfoldable pub list_all_rosters : Action (List RosterOut)
list_all_rosters =
    gets (λ db. map roster_out (order_by (λ a b. leb a.start_time b.start_time) db.rosters.rows))
