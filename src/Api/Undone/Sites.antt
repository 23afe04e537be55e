-- ===== src/Api/Undone/Sites.antt =====
-- app/routers/rosters.py and offices.py: what an admin does with rosters and offices, when they fail.
use office_attendance_backen.Base.{ℕ, String, arith}
use office_attendance_backen.Model.{User}
use office_attendance_backen.World.{World, Clock}
use office_attendance_backen.Ip.{Request}
use office_attendance_backen.Rosters.{
  RosterCreate, RosterUpdate, create_roster, update_roster, delete_roster, get_roster,
}
use office_attendance_backen.Offices.{
  OfficeCreate, OfficeUpdate, create_office, update_office, get_office, add_ip, add_public_ip,
  add_current_ip, remove_public_ip, delete_office,
}
use office_attendance_backen.Api.Undone.{Undone}

pub create_roster-Undone :
    (c : Clock) (admin : User) (p : RosterCreate) → Undone (create_roster c admin p)
unfolding create_roster
create_roster-Undone c admin p db x h = ground arith

pub update_roster-Undone :
    (c : Clock) (admin : User) (id : ℕ) (p : RosterUpdate) → Undone (update_roster c admin id p)
unfolding update_roster get_roster
update_roster-Undone c admin id p db x h = ground arith

pub delete_roster-Undone : (c : Clock) (admin : User) (id : ℕ) → Undone (delete_roster c admin id)
unfolding delete_roster get_roster
delete_roster-Undone c admin id db x h = ground arith

pub create_office-Undone :
    (w : World) (c : Clock) (admin : User) (p : OfficeCreate) → Undone (create_office w c admin p)
unfolding create_office
create_office-Undone w c admin p db x h = ground arith

pub update_office-Undone :
    (w : World) (c : Clock) (admin : User) (id : ℕ) (p : OfficeUpdate)
    → Undone (update_office w c admin id p)
unfolding update_office get_office
update_office-Undone w c admin id p db x h = ground arith

pub add_public_ip-Undone :
    (w : World) (c : Clock) (admin : User) (id : ℕ) (ip : String)
    → Undone (add_public_ip w c admin id ip)
unfolding add_public_ip get_office add_ip
add_public_ip-Undone w c admin id ip db x h = ground arith

pub add_current_ip-Undone :
    (w : World) (c : Clock) (admin : User) (id : ℕ) (req : Request)
    → Undone (add_current_ip w c admin id req)
unfolding add_current_ip get_office add_ip
add_current_ip-Undone w c admin id req db x h = ground arith

pub remove_public_ip-Undone :
    (w : World) (c : Clock) (admin : User) (id : ℕ) (ip : String)
    → Undone (remove_public_ip w c admin id ip)
unfolding remove_public_ip get_office
remove_public_ip-Undone w c admin id ip db x h = ground arith

pub delete_office-Undone : (c : Clock) (admin : User) (id : ℕ) → Undone (delete_office c admin id)
unfolding delete_office get_office
delete_office-Undone c admin id db x h = ground arith
