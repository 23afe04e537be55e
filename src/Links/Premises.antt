-- ===== src/Links/Premises.antt =====
-- app/routers/offices.py: a request on offices removes no office that a roster has.
use office_attendance_backen.Base.{
  ℕ, ◌≡◌, ◌==◌, ◌||◌, ◌++◌, ◌∷◌, [], refl, ltb, none, some, Option, List, All, All-map, All-both,
  arith, find-passes, ==_iff, count_where-none, has_key, has_key-append, has_key-update_first,
  has_key-select, true, false, Bool-cases, Option-cases, inl, inr, String, or_else, String,
}
use office_attendance_backen.Model.{Db, Office}
use office_attendance_backen.World.{World, Clock}
use office_attendance_backen.Ip.{normalize_ip, get_client_ip}
use office_attendance_backen.Presence.{elem_text}
use office_attendance_backen.Patch.{is_null}
use office_attendance_backen.Offices.{
  OfficeCreate, OfficeUpdate, validate_ip, canonical_ips, new_office, merged_office, refused_zone,
  has_bad_null, with_ip, without_ip, rosters_of,
}
use office_attendance_backen.Offices.Writes.{
  office_at, written_office, created_offices, offices-create_office, updated_offices,
  offices-update_office, added_offices, offices-add_public_ip, offices-add_current_ip,
  removed_offices, offices-remove_public_ip, deleted_offices, offices-delete_office,
}
use office_attendance_backen.Offices.Calls.{OfficeCall, run_call}
use office_attendance_backen.Links.{IsRosterLinked}

-- The rosters of `db` are linked to these offices.
abbrev RostersLinked : Db → List Office → Type 0
RostersLinked db offices = All (IsRosterLinked offices) db.rosters.rows

grown-RostersLinked :
    (db : Db) (offices : List Office)
    → ((id : ℕ)
        → has_key (λ o. o.id) id db.offices.rows ≡ true
        → has_key (λ o. o.id) id offices ≡ true)
    → RostersLinked db db.offices.rows
    → RostersLinked db offices
grown-RostersLinked db offices grows all =
    All-map (IsRosterLinked db.offices.rows) (IsRosterLinked offices) db.rosters.rows
      (λ r h. grows r.office_id h) all

written_office-RostersLinked :
    (f : Office → Office) (o : Office) (db : Db)
    → ((x : Office) → (f x).id ≡ x.id)
    → RostersLinked db db.offices.rows
    → RostersLinked db (written_office f o db)
written_office-RostersLinked f o db keep all =
    grown-RostersLinked db (written_office f o db)
      (λ id h. has_key-update_first (λ x. x.id) id (λ x. x.id == o.id) f db.offices.rows keep h) all

created-RostersLinked :
    (w : World) (c : Clock) (p : OfficeCreate) (db : Db) (ips : Option (List String))
    → RostersLinked db db.offices.rows
    → RostersLinked db (created_offices w c p db ips)
created-RostersLinked w c p db none all = all
created-RostersLinked w c p db (some ips) all = elim (Bool-cases (w.zones.is_known p.timezone)) [
  | inr unknown ↦ rw unknown all
  | inl known ↦ rw known (
      grown-RostersLinked db (db.offices.rows ++ new_office c p ips db.offices.next_id ∷ [])
        (λ id h. has_key-append (λ x. x.id) id db.offices.rows _ h) all)
]

updated-RostersLinked :
    (w : World) (p : OfficeUpdate) (db : Db) (target : Option Office)
    → RostersLinked db db.offices.rows
    → RostersLinked db (updated_offices w p db target)
updated-RostersLinked w p db none all = all
updated-RostersLinked w p db (some o) all =
    elim (Bool-cases (is_null p.timezone || refused_zone w p.timezone || has_bad_null p)) [
      | inl refused ↦ rw refused all
      | inr granted ↦
          rw granted (written_office-RostersLinked (merged_office p) o db (λ x. refl) all)
    ]

added-RostersLinked :
    (db : Db) (valid : Option String) (target : Option Office)
    → RostersLinked db db.offices.rows
    → RostersLinked db (added_offices db valid target)
added-RostersLinked db valid none all = all
added-RostersLinked db none (some o) all = all
added-RostersLinked db (some ip) (some o) all = elim (Bool-cases (elem_text ip o.public_ips)) [
  | inl old ↦ rw old all
  | inr new ↦ rw new (written_office-RostersLinked (with_ip ip) o db (λ x. refl) all)
]

removed-RostersLinked :
    (w : World) (ip : String) (db : Db) (target : Option Office)
    → RostersLinked db db.offices.rows
    → RostersLinked db (removed_offices w ip db target)
removed-RostersLinked w ip db none all = all
removed-RostersLinked w ip db (some o) all =
    let c = or_else (normalize_ip w.addresses ip) ip in
    elim (Bool-cases (elem_text c o.public_ips)) [
      | inr other ↦ rw other all
      | inl there ↦ rw there (written_office-RostersLinked (without_ip c) o db (λ x. refl) all)
    ]

deleted-RostersLinked :
    (id : ℕ) (db : Db)
    → RostersLinked db db.offices.rows
    → RostersLinked db (deleted_offices id db (office_at id db))
unfolding rosters_of
deleted-RostersLinked id db all = elim (Option-cases (office_at id db)) [
  | inl absent ↦ rw absent all
  | inr (o, found) ↦ elim (Bool-cases (ltb 0 (rosters_of id db))) [
    | inl used ↦ rw (found, used) all
    | inr free ↦
        let same = (==_iff o.id id).0 (find-passes (λ x. x.id == id) db.offices.rows o found) in
        rw (found, free, same)
          (All-both (λ r. (r.office_id == id) ≡ false) (IsRosterLinked db.offices.rows) _
            db.rosters.rows
            (λ r e h. has_key-select (λ x. x.id) r.office_id id db.offices.rows (ground arith) h)
            (count_where-none (λ r. r.office_id == id) db.rosters.rows free) all)
  ]
]

pub run_call-RostersLinked :
    (w : World) (call : OfficeCall) (db : Db)
    → All (IsRosterLinked db.offices.rows) db.rosters.rows
    → All (IsRosterLinked (run_call w call db).offices.rows) db.rosters.rows
unfolding run_call
run_call-RostersLinked w (OfficeCall.create c admin p) db all =
    rw (offices-create_office w c admin p db)
      (created-RostersLinked w c p db (canonical_ips w p.public_ips []) all)
run_call-RostersLinked w (OfficeCall.update c admin id p) db all =
    rw (offices-update_office w c admin id p db)
      (updated-RostersLinked w p db (office_at id db) all)
run_call-RostersLinked w (OfficeCall.add c admin id ip) db all =
    rw (offices-add_public_ip w c admin id ip db)
      (added-RostersLinked db (validate_ip w ip) (office_at id db) all)
run_call-RostersLinked w (OfficeCall.add_current c admin id req) db all =
    rw (offices-add_current_ip w c admin id req db) (
      added-RostersLinked db (validate_ip w (get_client_ip w.settings.trust_proxy w.addresses req))
        (office_at id db) all)
run_call-RostersLinked w (OfficeCall.remove c admin id ip) db all =
    rw (offices-remove_public_ip w c admin id ip db)
      (removed-RostersLinked w ip db (office_at id db) all)
run_call-RostersLinked w (OfficeCall.delete c admin id) db all =
    rw (offices-delete_office c admin id db) (deleted-RostersLinked id db all)
