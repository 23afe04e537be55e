-- ===== src/Offices/Network.antt =====
-- app/routers/offices.py with app/routers/attendance.py: from where a WiFi check-in can come.
use office_attendance_backen.Base.{
  ◌≡◌, subst, String, str_eq, eq_iff, true, false, some, List, [], ◌∷◌, All, arith, find-All,
  find-passes, select, select-All, Bool-cases, inl, inr,
}
use office_attendance_backen.Model.{Db, Office, User}
use office_attendance_backen.World.{World, Clock}
use office_attendance_backen.Session.{request, ok}
use office_attendance_backen.Ip.{Request, is_non_public_ip, get_client_ip}
use office_attendance_backen.Presence.{elem_text, find_office_by_ip}
use office_attendance_backen.Attendance.{Response, checkin_attempt}
use office_attendance_backen.Attendance.Safety.{is_checked_in, checkin_attempt_safe}
use office_attendance_backen.Offices.Addresses.{IsOfficeAddress, IsOfficeOk, OfficesOk}
use office_attendance_backen.Offices.Calls.{OfficeCall, run_calls, run_calls-OfficesOk}

elem_text-All :
    (P : String → Type 0) (a : String) (xs : List String) → All P xs → elem_text a xs ≡ true → P a
elem_text-All P a [] all h = cc
elem_text-All P a (x ∷ xs) (p, all) h = elim (Bool-cases (str_eq x a)) [
  | inl same ↦ subst P ((eq_iff x a).0 same) p
  | inr other ↦ elem_text-All P a xs all (ground arith)
]

find_office_by_ip-IsOfficeAddress :
    (w : World) (db : Db) (ip : String) (o : Office)
    → OfficesOk w db
    → find_office_by_ip db ip ≡ some o
    → IsOfficeAddress w ip
unfolding find_office_by_ip
find_office_by_ip-IsOfficeAddress w db ip o all found =
    let active = select (λ (x : Office). x.active) db.offices.rows in
    let there = find-passes (λ (x : Office). elem_text ip x.public_ips) active o found in
    let sound =
      find-All (IsOfficeOk w) (λ (x : Office). elem_text ip x.public_ips) active o
        (select-All (IsOfficeOk w) (λ (x : Office). x.active) db.offices.rows all) found in
    elem_text-All (IsOfficeAddress w) ip o.public_ips sound.1.0 there

-- In production, from a database whose offices have known zones and canonical, public and distinct
-- addresses, whatever requests on offices come: a WiFi check-in that then succeeds comes from a public
-- address.
pub checkin_attempt_public :
    (w : World) (calls : List OfficeCall) (db : Db) (c : Clock) (req : Request) (user : User)
    (x : Response)
    → OfficesOk w db
    → w.settings.dev_mode ≡ false
    → (request (checkin_attempt w c req user) (run_calls w calls db)).0 ≡ ok x
    → is_checked_in x ≡ true
    → is_non_public_ip w.addresses (get_client_ip w.settings.trust_proxy w.addresses req) ≡ false
checkin_attempt_public w calls db c req user x all production h checked =
    let db' = run_calls w calls db in
    let ip = get_client_ip w.settings.trust_proxy w.addresses req in
    let (may, matched, found) = checkin_attempt_safe w c req user db' x h checked in
    let address =
      find_office_by_ip-IsOfficeAddress w db' ip matched (run_calls-OfficesOk w calls db all)
        found in
    elim address.1 [ inl dev ↦ cc | inr public ↦ public ]
