-- ===== src/Offices/Calls.antt =====
-- app/routers/offices.py: any sequence of requests keeps the addresses and timezones of offices valid.
use office_attendance_backen.Base.{
  ℕ, ◌==◌, ◌||◌, ◌≡◌, String, str_eq, false, not, ltb, some, List, [], ◌∷◌, All, All-append, arith,
  find-All, select-All, update_found-All, or_else, Bool-cases, Option-cases, inl, inr,
}
use office_attendance_backen.Model.{Db, Office, User}
use office_attendance_backen.World.{World, Clock}
use office_attendance_backen.Session.{request}
use office_attendance_backen.Patch.{is_null}
use office_attendance_backen.Ip.{Request, normalize_ip, get_client_ip}
use office_attendance_backen.Presence.{elem_text}
use office_attendance_backen.Offices.{
  OfficeCreate, OfficeUpdate, validate_ip, canonical_ips, new_office, create_office, merged_office,
  refused_zone, has_bad_null, update_office, with_ip, add_public_ip, add_current_ip, without_ip,
  remove_public_ip, rosters_of, delete_office,
}
use office_attendance_backen.Offices.Addresses.{
  IsOfficeOk, OfficesOk, validate_ip-IsOfficeAddress, appended-AddressesOk,
  canonical_ips-AddressesOk, selected-AddressesOk,
}
use office_attendance_backen.Offices.Writes.{
  office_at, written_office, created_offices, offices-create_office, updated_offices,
  offices-update_office, added_offices, offices-add_public_ip, offices-add_current_ip,
  removed_offices, offices-remove_public_ip, deleted_offices, offices-delete_office,
}

module _ (w : World) where
  -- A write that keeps a sound office sound, to the row that an id names.
  written_office-IsOfficeOk :
      (id : ℕ) (f : Office → Office) (db : Db) (o : Office)
      → office_at id db ≡ some o
      → (IsOfficeOk w o → IsOfficeOk w (f o))
      → OfficesOk w db
      → All (IsOfficeOk w) (written_office f o db)
  written_office-IsOfficeOk id f db o found keep all =
      update_found-All (IsOfficeOk w) (λ x. x.id) f id db.offices.rows o found
        (keep (find-All (IsOfficeOk w) (λ x. x.id == id) db.offices.rows o all found)) all

  created-IsOfficeOk :
      (c : Clock) (p : OfficeCreate) (db : Db)
      → OfficesOk w db
      → All (IsOfficeOk w) (created_offices w c p db (canonical_ips w p.public_ips []))
  created-IsOfficeOk c p db all = elim (Option-cases (canonical_ips w p.public_ips [])) [
    | inl bad ↦ rw bad all
    | inr (ips, good) ↦ elim (Bool-cases (w.zones.is_known p.timezone)) [
      | inr unknown ↦ rw (good, unknown) all
      | inl known ↦
          rw (good, known)
            (All-append (IsOfficeOk w) db.offices.rows (new_office c p ips db.offices.next_id ∷ [])
              all ((known, canonical_ips-AddressesOk w p.public_ips [] ips good (tt, tt)), tt))
    ]
  ]

  merged_office-IsOfficeOk :
      (p : OfficeUpdate) (o : Office)
      → refused_zone w p.timezone ≡ false
      → IsOfficeOk w o
      → IsOfficeOk w (merged_office p o)
  merged_office-IsOfficeOk p o h (known, addresses) = (ground arith, addresses)

  updated-IsOfficeOk :
      (id : ℕ) (p : OfficeUpdate) (db : Db)
      → OfficesOk w db
      → All (IsOfficeOk w) (updated_offices w p db (office_at id db))
  updated-IsOfficeOk id p db all = elim (Option-cases (office_at id db)) [
    | inl absent ↦ rw absent all
    | inr (o, found) ↦
        elim (Bool-cases (is_null p.timezone || refused_zone w p.timezone || has_bad_null p)) [
          | inl refused ↦ rw (found, refused) all
          | inr granted ↦
              rw (found, granted)
                (written_office-IsOfficeOk id (merged_office p) db o found
                  (merged_office-IsOfficeOk p o (ground arith)) all)
        ]
  ]

  added-IsOfficeOk :
      (id : ℕ) (ip : String) (db : Db)
      → OfficesOk w db
      → All (IsOfficeOk w) (added_offices db (validate_ip w ip) (office_at id db))
  added-IsOfficeOk id ip db all = elim (Option-cases (office_at id db)) [
    | inl absent ↦ rw absent all
    | inr (o, found) ↦ elim (Option-cases (validate_ip w ip)) [
      | inl bad ↦ rw (found, bad) all
      | inr (c, valid) ↦ elim (Bool-cases (elem_text c o.public_ips)) [
        | inl old ↦ rw (found, valid, old) all
        | inr new ↦
            rw (found, valid, new)
              (written_office-IsOfficeOk id (with_ip c) db o found
                (λ h. (
                  h.0,
                  appended-AddressesOk w c o.public_ips (validate_ip-IsOfficeAddress w ip c valid)
                      new h.1,
                ))
                all)
      ]
    ]
  ]

  removed-IsOfficeOk :
      (id : ℕ) (ip : String) (db : Db)
      → OfficesOk w db
      → All (IsOfficeOk w) (removed_offices w ip db (office_at id db))
  removed-IsOfficeOk id ip db all = elim (Option-cases (office_at id db)) [
    | inl absent ↦ rw absent all
    | inr (o, found) ↦
        let c = or_else (normalize_ip w.addresses ip) ip in
        elim (Bool-cases (elem_text c o.public_ips)) [
          | inr other ↦ rw (found, other) all
          | inl there ↦
              rw (found, there)
                (written_office-IsOfficeOk id (without_ip c) db o found
                  (λ h. (h.0, selected-AddressesOk w (λ x. not (str_eq x c)) o.public_ips h.1)) all)
        ]
  ]

  deleted-IsOfficeOk :
      (id : ℕ) (db : Db)
      → OfficesOk w db
      → All (IsOfficeOk w) (deleted_offices id db (office_at id db))
  deleted-IsOfficeOk id db all = elim (Option-cases (office_at id db)) [
    | inl absent ↦ rw absent all
    | inr (o, found) ↦ elim (Bool-cases (ltb 0 (rosters_of id db))) [
      | inl used ↦ rw (found, used) all
      | inr free ↦
          rw (found, free) (select-All (IsOfficeOk w) (λ x. not (x.id == o.id)) db.offices.rows all)
    ]
  ]

-- A request on offices.
pub data OfficeCall : Type 0 where
  create : Clock → User → OfficeCreate → OfficeCall
  update : Clock → User → ℕ → OfficeUpdate → OfficeCall
  add : Clock → User → ℕ → String → OfficeCall
  add_current : Clock → User → ℕ → Request → OfficeCall
  remove : Clock → User → ℕ → String → OfficeCall
  delete : Clock → User → ℕ → OfficeCall

unfoldable pub run_call : World → OfficeCall → Db → Db
run_call w (create c admin p) db = (request (create_office w c admin p) db).1
run_call w (update c admin id p) db = (request (update_office w c admin id p) db).1
run_call w (add c admin id ip) db = (request (add_public_ip w c admin id ip) db).1
run_call w (add_current c admin id req) db = (request (add_current_ip w c admin id req) db).1
run_call w (remove c admin id ip) db = (request (remove_public_ip w c admin id ip) db).1
run_call w (delete c admin id) db = (request (delete_office c admin id) db).1

unfoldable pub run_calls : World → List OfficeCall → Db → Db
unfolding run_call
run_calls w [] db = db
run_calls w (call ∷ calls) db = run_calls w calls (run_call w call db)

pub run_call-OfficesOk :
    (w : World) (call : OfficeCall) (db : Db) → OfficesOk w db → OfficesOk w (run_call w call db)
unfolding run_call
run_call-OfficesOk w (create c admin p) db all =
    rw (offices-create_office w c admin p db) (created-IsOfficeOk w c p db all)
run_call-OfficesOk w (update c admin id p) db all =
    rw (offices-update_office w c admin id p db) (updated-IsOfficeOk w id p db all)
run_call-OfficesOk w (add c admin id ip) db all =
    rw (offices-add_public_ip w c admin id ip db) (added-IsOfficeOk w id ip db all)
run_call-OfficesOk w (add_current c admin id req) db all =
    rw (offices-add_current_ip w c admin id req db)
      (added-IsOfficeOk w id (get_client_ip w.settings.trust_proxy w.addresses req) db all)
run_call-OfficesOk w (remove c admin id ip) db all =
    rw (offices-remove_public_ip w c admin id ip db) (removed-IsOfficeOk w id ip db all)
run_call-OfficesOk w (delete c admin id) db all =
    rw (offices-delete_office c admin id db) (deleted-IsOfficeOk w id db all)

-- Whatever requests on offices come, accepted or refused: if every office has a known timezone and
-- distinct addresses that are canonical and, outside of development, public, then so it is after
-- them.
pub run_calls-OfficesOk :
    (w : World) (calls : List OfficeCall) (db : Db)
    → OfficesOk w db
    → OfficesOk w (run_calls w calls db)
unfolding run_calls
run_calls-OfficesOk w [] db all = all
run_calls-OfficesOk w (call ∷ calls) db all =
    run_calls-OfficesOk w calls (run_call w call db) (run_call-OfficesOk w call db all)
