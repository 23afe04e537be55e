-- ===== src/Offices/Views.antt =====
-- app/routers/offices.py: the list of offices, the newest first.
use office_attendance_backen.Base.{leb, List, map, order_by}
use office_attendance_backen.Session.{Action, gets}
use office_attendance_backen.Schemas.{OfficeOut, office_out}

unfoldable pub list_offices : Action (List OfficeOut)
list_offices =
    gets (λ db. map office_out (order_by (λ a b. leb b.created_at a.created_at) db.offices.rows))
