-- ===== src/Api/Bodies.antt =====
-- app/schemas.py: the validators of the request bodies. A body that they refuse is answered by 422.
use office_attendance_backen.Base.{
  ℕ, suc, ◌&&◌, leb, ◌==◌, String, Bool, true, not, Option, none, some, List, [], ◌∷◌, length,
  order_by, if◌then◌else◌,
}
use office_attendance_backen.Model.{Float}
use office_attendance_backen.World.{World}
use office_attendance_backen.Patch.{Field, unset, null, given}
use office_attendance_backen.Presence.{elem_ℕ}
use office_attendance_backen.Auth.{SignupRequest, LoginRequest}
use office_attendance_backen.Rosters.{RosterCreate, RosterUpdate}
use office_attendance_backen.Offices.{OfficeCreate, OfficeUpdate}
use office_attendance_backen.Attendance.{LocationIn, HeartbeatIn}
use office_attendance_backen.Api.Routes.{OpenRoute, EmployeeRoute, AdminRoute}

-- `set(days)`, in some order.
abbrev pub distinct : List ℕ → List ℕ
distinct [] = []
distinct (d ∷ ds) = let rest = distinct ds in if elem_ℕ d rest then rest else d ∷ rest

abbrev pub all_weekdays : List ℕ → Bool
all_weekdays [] = true
all_weekdays (d ∷ ds) = leb d 6 && all_weekdays ds

-- `_validate_working_days`
unfoldable pub validate_working_days : List ℕ → Option (List ℕ)
validate_working_days [] = none
validate_working_days (d ∷ ds) =
    if all_weekdays (d ∷ ds) && length (distinct (d ∷ ds)) == length (d ∷ ds)
    then some (order_by leb (distinct (d ∷ ds)))
    else none

abbrev text_length : String → ℕ
text_length String.[] = 0
text_length (String.◌∷◌ c s) = suc (text_length s)

-- `Field(min_length=..., max_length=...)`
abbrev pub sized : ℕ → ℕ → String → Bool
sized low high s = leb low (text_length s) && leb (text_length s) high

-- `Field(ge=-n, le=n)`: pydantic refuses what is below or above, so that NaN passes.
abbrev pub within_degrees : World → ℕ → Float → Bool
within_degrees w n f = not (w.floats.lt_neg f n) && not (w.floats.gt_int f n)

-- A constraint on a value that may be None.
abbrev pub if_some {ℓ} : {A : Type ℓ} → (A → Bool) → Option A → Bool
if_some p none = true
if_some p (some a) = p a

-- A constraint on a field of a PATCH, which may be left out or null.
abbrev pub if_given {ℓ} : {A : Type ℓ} → (A → Bool) → Field A → Bool
if_given p (given a) = p a
if_given p _ = true

abbrev accept {ℓ} : {A : Type ℓ} → Bool → A → Option A
accept ok a = if ok then some a else none

unfoldable pub check_roster_create : RosterCreate → Option RosterCreate
check_roster_create p = elim (validate_working_days p.working_days) [
  | none ↦ none
  | some days ↦
      accept (sized 1 120 p.name && leb p.grace_minutes 240) (record p { working_days = days })
]

abbrev pub patched_days : Field (List ℕ) → Option (Field (List ℕ))
patched_days (given days) = elim (validate_working_days days) [
  | none ↦ none
  | some sorted ↦ some (given sorted)
]
patched_days unset = some unset
patched_days null = some null

unfoldable pub check_roster_update : RosterUpdate → Option RosterUpdate
check_roster_update p = elim (patched_days p.working_days) [
  | none ↦ none
  | some days ↦
      accept (if_given (sized 1 120) p.name && if_given (λ n. leb n 240) p.grace_minutes)
        (record p { working_days = days })
]

unfoldable pub office_create_ok : World → OfficeCreate → Bool
office_create_ok w p =
    sized 1 120 p.name
    && if_some (within_degrees w 90) p.latitude
    && if_some (within_degrees w 180) p.longitude
    && leb 10 p.radius_meters
    && leb p.radius_meters 100000
    && sized 0 64 p.timezone

unfoldable pub office_update_ok : World → OfficeUpdate → Bool
office_update_ok w p =
    if_given (sized 1 120) p.name
    && if_given (within_degrees w 90) p.latitude
    && if_given (within_degrees w 180) p.longitude
    && if_given (λ n. leb 10 n && leb n 100000) p.radius_meters
    && if_given (sized 0 64) p.timezone

unfoldable pub location_ok : World → LocationIn → Bool
location_ok w p =
    within_degrees w 90 p.latitude
    && within_degrees w 180 p.longitude
    && not (w.floats.lt_neg p.accuracy 0)

unfoldable pub heartbeat_ok : World → HeartbeatIn → Bool
heartbeat_ok w p =
    if_some (within_degrees w 90) p.latitude
    && if_some (within_degrees w 180) p.longitude
    && if_some (λ f. not (w.floats.lt_neg f 0)) p.accuracy

unfoldable pub check_signup : World → SignupRequest → Option SignupRequest
check_signup w p = elim (w.email_str p.email) [
  | none ↦ none
  | some email ↦
      accept
        (sized 1 120 p.name
          && sized 3 40 p.phone
          && sized 8 128 p.password
          && sized 1 120 p.department
          && sized 1 120 p.job_title
          && sized 1 120 p.city)
        (record p { email = email })
]

unfoldable pub check_login : World → LoginRequest → Option LoginRequest
check_login w p = elim (w.email_str p.email) [
  | none ↦ none
  | some email ↦ some (record p { email = email })
]

-- `Field(default=None, max_length=1000)`
abbrev pub note_ok : Option String → Bool
note_ok = if_some (sized 0 1000)

-- The route with its body as the validators leave it, or `none` for a 422.
unfoldable pub check_open : World → OpenRoute → Option OpenRoute
check_open w (OpenRoute.signup p) = elim (check_signup w p) [
  | none ↦ none
  | some p' ↦ some (OpenRoute.signup p')
]
check_open w (OpenRoute.login p raw_token) = elim (check_login w p) [
  | none ↦ none
  | some p' ↦ some (OpenRoute.login p' raw_token)
]
check_open w OpenRoute.health = some OpenRoute.health
check_open w r = some r

unfoldable pub employee_ok : World → EmployeeRoute → Bool
employee_ok w EmployeeRoute.checkin_attempt = true
employee_ok w (EmployeeRoute.verify_location p) = location_ok w p
employee_ok w (EmployeeRoute.heartbeat p) = heartbeat_ok w p

unfoldable pub check_admin : World → AdminRoute → Option AdminRoute
check_admin w (AdminRoute.create_roster p) = elim (check_roster_create p) [
  | none ↦ none
  | some p' ↦ some (AdminRoute.create_roster p')
]
check_admin w (AdminRoute.update_roster id p) = elim (check_roster_update p) [
  | none ↦ none
  | some p' ↦ some (AdminRoute.update_roster id p')
]
check_admin w (AdminRoute.create_office p) =
    accept (office_create_ok w p) (AdminRoute.create_office p)
check_admin w (AdminRoute.update_office id p) =
    accept (office_update_ok w p) (AdminRoute.update_office id p)
check_admin w (AdminRoute.add_public_ip id ip) =
    accept (sized 3 64 ip) (AdminRoute.add_public_ip id ip)
check_admin w (AdminRoute.decide_user id p) =
    accept (note_ok p.feedback) (AdminRoute.decide_user id p)
check_admin w (AdminRoute.verify_gps_day id action remark) =
    accept (note_ok remark) (AdminRoute.verify_gps_day id action remark)
check_admin w (AdminRoute.resolve_flagged_day id r remark) =
    accept (note_ok remark) (AdminRoute.resolve_flagged_day id r remark)
check_admin w r = some r
