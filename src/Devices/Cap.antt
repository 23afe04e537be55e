-- ===== src/Devices/Cap.antt =====
-- app/device_service.py `register_device`: how many active devices a user has afterwards.
use office_attendance_backen.Base.{
  ℕ, ◌+◌, ◌==◌, ◌&&◌, ◌≡◌, ◌≤◌, ◌<◌, refl, subst, arith, ltb, leb, String, Bool, Option, some, List,
  [], ◌∷◌, select, length, count_where, count_where-append, count_where-select, update_first,
  if◌then◌else◌, Bool-cases, Option-cases, inl, inr,
}
use office_attendance_backen.Model.{Db, Device, User}
use office_attendance_backen.World.{World, Clock}
use office_attendance_backen.Session.{Session, Result-cases, ok}
use office_attendance_backen.Deps.{log_action}
use office_attendance_backen.Devices.{
  is_active_of, oldest_from, oldest, revoke_row, new_device, evict, register_device,
}

-- How many active devices the user has.
abbrev pub active_count : ℕ → Db → ℕ
active_count u db = count_where (is_active_of u) db.devices.rows

-- Each id is the one of a single row.
abbrev pub IdsUnique : Db → Type 0
IdsUnique db = (id : ℕ) → count_where (λ (d : Device). d.id == id) db.devices.rows ≤ 1

length-select :
    (p : Device → Bool) (rows : List Device) → length (select p rows) ≡ count_where p rows
length-select p [] = refl
length-select p (d ∷ rows) = ground (arith, length-select p rows)

-- The device that goes is one of those that are there.
oldest_from-member :
    (best : Device) (ds : List Device)
    → 0 < count_where (λ x. x.id == (oldest_from best ds).id) (best ∷ ds)
unfolding oldest_from
oldest_from-member best [] = ground arith
oldest_from-member best (d ∷ ds) = elim (Bool-cases (ltb d.created_at best.created_at)) [
  | inl younger ↦ ground (arith, oldest_from-member d ds)
  | inr older ↦ ground (arith, oldest_from-member best ds)
]

oldest-member :
    (ds : List Device) (d : Device) → oldest ds ≡ some d → 0 < count_where (λ x. x.id == d.id) ds
unfolding oldest
oldest-member [] d h = cc
oldest-member (x ∷ ds) d h =
    let same : oldest_from x ds ≡ d = ground arith in
    subst (λ y. 0 < count_where (λ z. z.id == y.id) (x ∷ ds)) same (oldest_from-member x ds)

none_counted :
    (u k : ℕ) (rows : List Device)
    → count_where (λ d. is_active_of u d && d.id == k) rows ≤ count_where (λ d. d.id == k) rows
none_counted u k [] = omega arith
none_counted u k (d ∷ rows) = ground (arith, none_counted u k rows)

-- Revoking the one row of an id that is an active device of the user.
count-revoked :
    (u k : ℕ) (rows : List Device)
    → count_where (λ d. d.id == k) rows ≤ 1
    → 0 < count_where (λ d. is_active_of u d && d.id == k) rows
    → count_where (is_active_of u) (update_first (λ d. d.id == k) revoke_row rows) + 1
      ≡ count_where (is_active_of u) rows
count-revoked u k [] h p = ground arith
count-revoked u k (d ∷ rows) h p = ground (arith, count-revoked u k rows, none_counted u k rows)

evict-count :
    (w : World) (c : Clock) (user : User) (s : Session)
    → IdsUnique s.current
    → (evict w c user s).0 ≡ ok tt
    → let n = active_count user.id s.current in
      active_count user.id (evict w c user s).1.current
        + (if leb w.settings.max_devices_per_user n then 1 else 0)
      ≡ n
unfolding evict log_action
evict-count w c user s unique h =
    let rows = s.current.devices.rows in
    let active = select (is_active_of user.id) rows in
    let n = length-select (is_active_of user.id) rows in
    elim (Bool-cases (leb w.settings.max_devices_per_user (length active))) [
      | inr room ↦ ground (arith, n)
      | inl full ↦ elim (Option-cases (oldest active)) [
        | inl empty ↦ ground arith
        | inr (d, e) ↦
            let there = oldest-member active d e in
            let counted = count_where-select (λ x. x.id == d.id) (is_active_of user.id) rows in
            ground (
              arith,
              n,
              there,
              counted,
              count-revoked user.id d.id rows (unique d.id) (omega (arith, there, counted)),
            )
      ]
    ]

-- With ids that are unique: a registration that succeeds leaves the user with one more active
-- device, or, if they had as many as the cap or more, with as many as before; so a user who is
-- within the cap stays within it.
pub register_device-count :
    (w : World) (c : Clock) (user : User) (agent : Option String) (raw token : String) (s : Session)
    → IdsUnique s.current
    → (register_device w c user agent raw s).0 ≡ ok token
    → let n = active_count user.id s.current in
      active_count user.id (register_device w c user agent raw s).1.current
      ≡ (if leb w.settings.max_devices_per_user n then n else n + 1)
unfolding register_device log_action
register_device-count w c user agent raw token s unique h =
    let after = (evict w c user s).1.current in
    let new = new_device w c user agent raw after.devices.next_id in
    elim (Result-cases (evict w c user s).0) [
      | inr (x, e) ↦ ground arith
      | inl (x, e) ↦ ground (
        arith,
        evict-count w c user s unique e,
        count_where-append (is_active_of user.id) after.devices.rows (new ∷ []),
      )
    ]
