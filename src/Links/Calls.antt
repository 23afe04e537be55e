-- ===== src/Links/Calls.antt =====
-- app/routers/: requests on accounts, rosters and offices in any order keep the database linked.
use office_attendance_backen.Base.{List, [], ◌∷◌}
use office_attendance_backen.Model.{Db}
use office_attendance_backen.World.{World}
use office_attendance_backen.Accounts.Soundness.{AllSound}
use office_attendance_backen.Accounts.Calls.{Call, perform, perform-AllSound}
use office_attendance_backen.Rosters.Calls.{RosterCall, run_call as run_roster}
use office_attendance_backen.Offices.Calls.{OfficeCall, run_call as run_office}
use office_attendance_backen.Links.{IsLinked}
use office_attendance_backen.Links.Frames.{
  perform-keeps_sites, run_roster-keeps_users, run_office-keeps_staff,
}
use office_attendance_backen.Links.Users.{perform-Linked}
use office_attendance_backen.Links.Sites.{
  create_roster-Kept, update_roster-Kept, delete_roster-Kept, Kept,
}
use office_attendance_backen.Links.Premises.{run_call-RostersLinked}

-- A request on accounts, rosters or offices.
pub data Change : Type 0 where
  on_account : Call → Change
  on_roster : RosterCall → Change
  on_office : OfficeCall → Change

unfoldable pub apply : World → Change → Db → Db
apply w (on_account call) db = perform w call db
apply w (on_roster call) db = run_roster call db
apply w (on_office call) db = run_office w call db

unfoldable pub apply_all : World → List Change → Db → Db
unfolding apply
apply_all w [] db = db
apply_all w (change ∷ changes) db = apply_all w changes (apply w change db)

run_roster-Kept :
    (call : RosterCall) (db : Db) → IsLinked db → Kept db (run_roster call db).rosters.rows
unfolding run_roster
run_roster-Kept (RosterCall.create c admin p) db h = create_roster-Kept c admin p db h
run_roster-Kept (RosterCall.update c admin id p) db h = update_roster-Kept c admin id p db h
run_roster-Kept (RosterCall.delete c admin id) db h = delete_roster-Kept c admin id db h

pub apply-IsLinked :
    (w : World) (change : Change) (db : Db) → IsLinked db → IsLinked (apply w change db)
unfolding apply
apply-IsLinked w (on_account call) db (users, rosters) =
    let (r, o) = perform-keeps_sites w call db in
    rw (r, o) (perform-Linked w call db users, rosters)
apply-IsLinked w (on_roster call) db h =
    let (u, o) = run_roster-keeps_users call db in rw (u, o) (run_roster-Kept call db h)
apply-IsLinked w (on_office call) db (users, rosters) =
    let (u, r) = run_office-keeps_staff w call db in
    rw (u, r) (users, run_call-RostersLinked w call db rosters)

pub apply-AllSound :
    (w : World) (change : Change) (db : Db) → AllSound db → AllSound (apply w change db)
unfolding apply
apply-AllSound w (on_account call) db h = perform-AllSound w call db h
apply-AllSound w (on_roster call) db h = rw (run_roster-keeps_users call db).0 h
apply-AllSound w (on_office call) db h = rw (run_office-keeps_staff w call db).0 h

-- Whatever requests on accounts, rosters and offices come, in any order and with any outcome: if
-- every roster that a user has or asks for is there, and the office of every roster, then so it is
-- after them.
pub apply_all-IsLinked :
    (w : World) (changes : List Change) (db : Db) → IsLinked db → IsLinked (apply_all w changes db)
unfolding apply_all
apply_all-IsLinked w [] db h = h
apply_all-IsLinked w (change ∷ changes) db h =
    apply_all-IsLinked w changes (apply w change db) (apply-IsLinked w change db h)

pub apply_all-AllSound :
    (w : World) (changes : List Change) (db : Db) → AllSound db → AllSound (apply_all w changes db)
unfolding apply_all
apply_all-AllSound w [] db h = h
apply_all-AllSound w (change ∷ changes) db h =
    apply_all-AllSound w changes (apply w change db) (apply-AllSound w change db h)
