-- ===== src/Offices/Addresses.antt =====
-- app/routers/offices.py: the addresses of an office are canonical, public and distinct.
use office_attendance_backen.Base.{
  ◌||◌, ◌≡◌, ◌⊎◌, refl, subst, String, eq_iff, Bool, true, false, some, List, [], ◌∷◌, ◌++◌, All,
  All-append, arith, select, select-All, Bool-cases, Option-cases, inl, inr,
}
use office_attendance_backen.Model.{Db, Office}
use office_attendance_backen.World.{World}
use office_attendance_backen.Ip.{normalize_ip, is_non_public_ip}
use office_attendance_backen.Presence.{elem_text}
use office_attendance_backen.Offices.{validate_ip, add_new, canonical_ips}

-- An address as an office may have it: the canonical form of a text, and a public one unless in
-- development.
abbrev pub IsOfficeAddress : World → String → Type 0
IsOfficeAddress w c =
    ((ip : String) × (normalize_ip w.addresses ip ≡ some c))
    × ((w.settings.dev_mode ≡ true) ⊎ (is_non_public_ip w.addresses c ≡ false))

abbrev pub Distinct : List String → Type 0
Distinct [] = Unit
Distinct (x ∷ xs) = (elem_text x xs ≡ false) × Distinct xs

abbrev pub AddressesOk : World → List String → Type 0
AddressesOk w ips = All (IsOfficeAddress w) ips × Distinct ips

-- A timezone that is known, and addresses as above.
abbrev pub IsOfficeOk : World → Office → Type 0
IsOfficeOk w o = (w.zones.is_known o.timezone ≡ true) × AddressesOk w o.public_ips

abbrev pub OfficesOk : World → Db → Type 0
OfficesOk w db = All (IsOfficeOk w) db.offices.rows

pub validate_ip-IsOfficeAddress :
    (w : World) (ip c : String) → validate_ip w ip ≡ some c → IsOfficeAddress w c
unfolding validate_ip
validate_ip-IsOfficeAddress w ip c h = elim (Option-cases (normalize_ip w.addresses ip)) [
  | inl bad ↦ ground arith
  | inr (canonical, e) ↦ elim (Bool-cases w.settings.dev_mode) [
    | inl dev ↦ ((ip, ground arith), inl dev)
    | inr prod ↦ elim (Bool-cases (is_non_public_ip w.addresses canonical)) [
      | inl private ↦ ground arith
      | inr global ↦ ((ip, ground arith), inr (ground arith))
    ]
  ]
]

elem_text-append :
    (a : String) (xs ys : List String) → elem_text a (xs ++ ys) ≡ (elem_text a xs || elem_text a ys)
elem_text-append a [] ys = refl
elem_text-append a (x ∷ xs) ys = ground (arith, elem_text-append a xs ys)

Distinct-append :
    (c : String) (ips : List String)
    → elem_text c ips ≡ false
    → Distinct ips
    → Distinct (ips ++ c ∷ [])
Distinct-append c [] h d = (refl, tt)
Distinct-append c (x ∷ xs) h (new, d) = (
  ground (arith, elem_text-append x xs (c ∷ []), eq_iff x c, eq_iff c x),
  Distinct-append c xs (ground arith) d,
)

pub appended-AddressesOk :
    (w : World) (c : String) (ips : List String)
    → IsOfficeAddress w c
    → elem_text c ips ≡ false
    → AddressesOk w ips
    → AddressesOk w (ips ++ c ∷ [])
appended-AddressesOk w c ips h new (all, d) =
    (All-append (IsOfficeAddress w) ips (c ∷ []) all (h, tt), Distinct-append c ips new d)

add_new-AddressesOk :
    (w : World) (c : String) (ips : List String)
    → IsOfficeAddress w c
    → AddressesOk w ips
    → AddressesOk w (add_new c ips)
add_new-AddressesOk w c ips h ips_ok = elim (Bool-cases (elem_text c ips)) [
  | inl old ↦ rw old ips_ok
  | inr new ↦ rw new (appended-AddressesOk w c ips h new ips_ok)
]

pub canonical_ips-AddressesOk :
    (w : World) (ips done result : List String)
    → canonical_ips w ips done ≡ some result
    → AddressesOk w done
    → AddressesOk w result
unfolding canonical_ips
canonical_ips-AddressesOk w [] done result h done_ok =
    let same : done ≡ result = cc in subst (AddressesOk w) same done_ok
canonical_ips-AddressesOk w (ip ∷ ips) done result h done_ok =
    elim (Option-cases (validate_ip w ip)) [
      | inl bad ↦ ground arith
      | inr (c, valid) ↦
          canonical_ips-AddressesOk w ips (add_new c done) result (ground arith)
            (add_new-AddressesOk w c done (validate_ip-IsOfficeAddress w ip c valid) done_ok)
    ]

elem_text-select :
    (p : String → Bool) (a : String) (xs : List String)
    → elem_text a xs ≡ false
    → elem_text a (select p xs) ≡ false
elem_text-select p a [] h = refl
elem_text-select p a (x ∷ xs) h = ground (arith, elem_text-select p a xs)

select-Distinct : (p : String → Bool) (xs : List String) → Distinct xs → Distinct (select p xs)
select-Distinct p [] d = tt
select-Distinct p (x ∷ xs) (new, d) = elim (Bool-cases (p x)) [
  | inl t ↦ rw t (elem_text-select p x xs new, select-Distinct p xs d)
  | inr e ↦ rw e (select-Distinct p xs d)
]

pub selected-AddressesOk :
    (w : World) (p : String → Bool) (ips : List String)
    → AddressesOk w ips
    → AddressesOk w (select p ips)
selected-AddressesOk w p ips (all, d) =
    (select-All (IsOfficeAddress w) p ips all, select-Distinct p ips d)
