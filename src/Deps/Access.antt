-- ===== src/Deps/Access.antt =====
-- app/deps.py: whom each dependency lets through.
use office_attendance_backen.Base.{
  ◌==◌, ◌&&◌, ◌≡◌, refl, String, str_eq, Bool, true, false, Option, some, arith, find, find-passes,
  Option-cases, Bool-cases, inl, inr,
}
use office_attendance_backen.Model.{
  Db, Device, User, UserStatus, is_active_device, is_employee, user_status_eq,
}
use office_attendance_backen.World.{World, Claims, Clock}
use office_attendance_backen.Numerals.{ℤ}
use office_attendance_backen.Security.{has_type, subject}
use office_attendance_backen.Session.{Session, Result-cases, request, ok}
use office_attendance_backen.Ip.{truthy}
use office_attendance_backen.Deps.{
  claims_of, user_by_int, get_current_user, require_active_employee, device_of, get_current_device,
}

-- A user whom the bearer token names: an access token that decodes, for a user that is there and not
-- disabled.
pub record IsBearer (w : World) (c : Clock) (token : Option String) (db : Db) (user : User)
    : Type 0 where
  pub claims : Claims
  pub decoded : claims_of w c token ≡ some claims
  pub access : has_type "access" claims ≡ true
  pub id : ℤ
  pub named : subject claims ≡ some id
  pub found : user_by_int id db ≡ some user
  pub allowed : user_status_eq user.status UserStatus.disabled ≡ false

get_current_user-IsBearer :
    (w : World) (c : Clock) (token : Option String) (db : Db) (user : User) (s : Session)
    → s.current ≡ db
    → (get_current_user w c token s).0 ≡ ok user
    → IsBearer w c token db user
unfolding get_current_user
get_current_user-IsBearer w c token db user s e h = elim (Option-cases (claims_of w c token)) [
  | inl absent ↦ ground arith
  | inr (claims, decoded) ↦ elim (Bool-cases (has_type "access" claims)) [
    | inr other ↦ ground arith
    | inl access ↦ elim (Option-cases (subject claims)) [
      | inl absent ↦ ground arith
      | inr (id, named) ↦ elim (Option-cases (user_by_int id s.current)) [
        | inl absent ↦ ground arith
        | inr (u, found) ↦ elim (Bool-cases (user_status_eq u.status UserStatus.disabled)) [
          | inl disabled ↦ ground arith
          | inr allowed ↦
              let same : u ≡ user = ground arith in
              record {
                claims = claims;
                decoded = decoded;
                access = access;
                id = id;
                named = named;
                found = ground arith;
                allowed = ground arith;
              }
        ]
      ]
    ]
  ]
]

get_current_user_same :
    (w : World) (c : Clock) (token : Option String) (s : Session)
    → (get_current_user w c token s).1 ≡ s
unfolding get_current_user
get_current_user_same w c token s = ground arith

require_active_employee_same :
    (w : World) (c : Clock) (token : Option String) (s : Session)
    → (require_active_employee w c token s).1 ≡ s
unfolding require_active_employee
require_active_employee_same w c token s = ground (arith, get_current_user_same w c token s)

require_active_employee-passes :
    (w : World) (c : Clock) (token : Option String) (user : User) (s : Session)
    → (require_active_employee w c token s).0 ≡ ok user
    → ((get_current_user w c token s).0 ≡ ok user)
      × (is_employee user.role ≡ true)
      × (user_status_eq user.status UserStatus.active ≡ true)
unfolding require_active_employee
require_active_employee-passes w c token user s h =
    ground (arith, get_current_user_same w c token s)

device_of-passes :
    (w : World) (header : Option String) (user : User) (device : Device) (s : Session)
    → (device_of w header user s).0 ≡ ok device
    → (raw : String) × (truthy header ≡ some raw)
      × (str_eq device.token_hash (w.secrets.hash_token raw) ≡ true)
      × (device.user_id == user.id ≡ true)
      × (is_active_device device.status ≡ true)
unfolding device_of
device_of-passes w header user device s h = elim (Option-cases (truthy header)) [
  | inl absent ↦ ground arith
  | inr (raw, given) ↦
      let p : Device → Bool =
        λ d. str_eq d.token_hash (w.secrets.hash_token raw) && d.user_id == user.id in
      elim (Option-cases (find p s.current.devices.rows)) [
        | inl absent ↦ ground arith
        | inr (d, found) ↦
            let passes = find-passes p s.current.devices.rows d found in
            (raw, given, ground arith, ground arith, ground arith)
      ]
]

get_current_device-passes :
    (w : World) (c : Clock) (token header : Option String) (device : Device) (s : Session)
    → (get_current_device w c token header s).0 ≡ ok device
    → (user : User) × ((require_active_employee w c token s).0 ≡ ok user)
      × ((device_of w header user s).0 ≡ ok device)
unfolding get_current_device
get_current_device-passes w c token header device s h =
    let same = require_active_employee_same w c token s in
    elim (Result-cases (require_active_employee w c token s).0) [
      | inl (user, e) ↦ (user, e, ground arith)
      | inr (x, e) ↦ ground arith
    ]

-- A request that `get_current_device` lets through carries an access token of an active employee and the
-- token of a device that is that employee's and is not revoked.
pub get_current_device_safe :
    (w : World) (c : Clock) (token header : Option String) (db : Db) (device : Device)
    → (request (get_current_device w c token header) db).0 ≡ ok device
    → (user : User) × (raw : String) × IsBearer w c token db user
      × (is_employee user.role ≡ true)
      × (user_status_eq user.status UserStatus.active ≡ true)
      × (truthy header ≡ some raw)
      × (str_eq device.token_hash (w.secrets.hash_token raw) ≡ true)
      × (device.user_id == user.id ≡ true)
      × (is_active_device device.status ≡ true)
get_current_device_safe w c token header db device h =
    let s : Session = record { durable = db; current = db } in
    let (user, e, d) = get_current_device-passes w c token header device s h in
    let (u, employee, active) = require_active_employee-passes w c token user s e in
    let (raw, given, hash, owner, live) = device_of-passes w header user device s d in
    (
      user,
      raw,
      get_current_user-IsBearer w c token db user s refl u,
      employee,
      active,
      given,
      hash,
      owner,
      live,
    )
