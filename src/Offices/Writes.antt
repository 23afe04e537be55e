-- ===== src/Offices/Writes.antt =====
-- app/routers/offices.py: what each handler makes of the offices, on every branch.
use office_attendance_backen.Base.{
  ℕ, ◌==◌, ◌||◌, ◌≡◌, String, not, ltb, Option, none, some, List, [], ◌∷◌, ◌++◌, arith, find,
  select, update_first, or_else, Option-cases, inl, inr, if◌then◌else◌,
}
use office_attendance_backen.Model.{Db, Office, User}
use office_attendance_backen.World.{World, Clock}
use office_attendance_backen.Session.{request}
use office_attendance_backen.Patch.{is_null}
use office_attendance_backen.Ip.{Request, normalize_ip, get_client_ip}
use office_attendance_backen.Presence.{elem_text}
use office_attendance_backen.Deps.{log_action}
use office_attendance_backen.Offices.{
  OfficeCreate, OfficeUpdate, validate_ip, canonical_ips, get_office, new_office, create_office,
  merged_office, refused_zone, has_bad_null, update_office, with_ip, add_ip, add_public_ip,
  add_current_ip, without_ip, remove_public_ip, rosters_of, delete_office,
}

abbrev pub office_at : ℕ → Db → Option Office
office_at id db = find (λ o. o.id == id) db.offices.rows

-- The offices after a write to the row of `o`.
abbrev pub written_office : (Office → Office) → Office → Db → List Office
written_office f o db = update_first (λ x. x.id == o.id) f db.offices.rows

-- With what the loop over the addresses gives.
abbrev pub created_offices : World → Clock → OfficeCreate → Db → Option (List String) → List Office
created_offices w c p db none = db.offices.rows
created_offices w c p db (some ips) =
    if w.zones.is_known p.timezone
    then db.offices.rows ++ new_office c p ips db.offices.next_id ∷ []
    else db.offices.rows

pub offices-create_office :
    (w : World) (c : Clock) (admin : User) (p : OfficeCreate) (db : Db)
    → (request (create_office w c admin p) db).1.offices.rows
      ≡ created_offices w c p db (canonical_ips w p.public_ips [])
unfolding create_office log_action
offices-create_office w c admin p db = ground arith

abbrev pub updated_offices : World → OfficeUpdate → Db → Option Office → List Office
updated_offices w p db none = db.offices.rows
updated_offices w p db (some o) =
    if is_null p.timezone || refused_zone w p.timezone || has_bad_null p
    then db.offices.rows
    else written_office (merged_office p) o db

pub offices-update_office :
    (w : World) (c : Clock) (admin : User) (id : ℕ) (p : OfficeUpdate) (db : Db)
    → (request (update_office w c admin id p) db).1.offices.rows
      ≡ updated_offices w p db (office_at id db)
unfolding update_office get_office log_action
offices-update_office w c admin id p db = elim (Option-cases (office_at id db)) [
  | inl absent ↦ ground arith
  | inr (o, found) ↦ ground arith
]

-- With the canonical address, if it is a valid one.
abbrev pub added_offices : Db → Option String → Option Office → List Office
added_offices db valid none = db.offices.rows
added_offices db none (some o) = db.offices.rows
added_offices db (some c) (some o) =
    if elem_text c o.public_ips then db.offices.rows else written_office (with_ip c) o db

pub offices-add_public_ip :
    (w : World) (c : Clock) (admin : User) (id : ℕ) (ip : String) (db : Db)
    → (request (add_public_ip w c admin id ip) db).1.offices.rows
      ≡ added_offices db (validate_ip w ip) (office_at id db)
unfolding add_public_ip add_ip get_office log_action
offices-add_public_ip w c admin id ip db = elim (Option-cases (office_at id db)) [
  | inl absent ↦ ground arith
  | inr (o, found) ↦ ground arith
]

pub offices-add_current_ip :
    (w : World) (c : Clock) (admin : User) (id : ℕ) (req : Request) (db : Db)
    → (request (add_current_ip w c admin id req) db).1.offices.rows
      ≡ added_offices db
          (validate_ip w (get_client_ip w.settings.trust_proxy w.addresses req))
          (office_at id db)
unfolding add_current_ip add_ip get_office log_action
offices-add_current_ip w c admin id req db = elim (Option-cases (office_at id db)) [
  | inl absent ↦ ground arith
  | inr (o, found) ↦ ground arith
]

abbrev pub removed_offices : World → String → Db → Option Office → List Office
removed_offices w ip db none = db.offices.rows
removed_offices w ip db (some o) =
    let canonical = or_else (normalize_ip w.addresses ip) ip in
    if elem_text canonical o.public_ips
    then written_office (without_ip canonical) o db
    else db.offices.rows

pub offices-remove_public_ip :
    (w : World) (c : Clock) (admin : User) (id : ℕ) (ip : String) (db : Db)
    → (request (remove_public_ip w c admin id ip) db).1.offices.rows
      ≡ removed_offices w ip db (office_at id db)
unfolding remove_public_ip get_office log_action
offices-remove_public_ip w c admin id ip db = elim (Option-cases (office_at id db)) [
  | inl absent ↦ ground arith
  | inr (o, found) ↦ ground arith
]

abbrev pub deleted_offices : ℕ → Db → Option Office → List Office
deleted_offices id db none = db.offices.rows
deleted_offices id db (some o) =
    if ltb 0 (rosters_of id db)
    then db.offices.rows
    else select (λ x. not (x.id == o.id)) db.offices.rows

pub offices-delete_office :
    (c : Clock) (admin : User) (id : ℕ) (db : Db)
    → (request (delete_office c admin id) db).1.offices.rows
      ≡ deleted_offices id db (office_at id db)
unfolding delete_office get_office log_action
offices-delete_office c admin id db = elim (Option-cases (office_at id db)) [
  | inl absent ↦ ground arith
  | inr (o, found) ↦ ground arith
]
