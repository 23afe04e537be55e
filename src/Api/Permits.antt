-- ===== src/Api/Permits.antt =====
-- app/deps.py and app/main.py: who may call which route.
use office_attendance_backen.Base.{
  ◌==◌, ◌&&◌, ◌≡◌, refl, String, str_eq, Bool, true, false, not, Option, none, some, arith, find,
  Option-cases, Bool-cases, inl, inr, if◌then◌else◌,
}
use office_attendance_backen.Model.{
  Db, Device, User, UserStatus, is_active_device, is_admin, is_employee, user_status_eq,
}
use office_attendance_backen.World.{World, Clock}
use office_attendance_backen.Security.{has_type, subject}
use office_attendance_backen.Session.{
  ◌>>=◌, ◌>>◌, raise_if, or_raise, unprocessable, Action, HttpError, Session, Result-cases, request,
  ok, err,
}
use office_attendance_backen.Ip.{truthy}
use office_attendance_backen.Deps.{
  claims_of, user_by_int, get_current_user, require_admin, require_active_employee, device_of,
  require_dev_mode,
}
use office_attendance_backen.Debug.{my_ip, set_time, get_time, run_nightly, run_idle}
use office_attendance_backen.Api.Routes.{Route, DebugRoute}
use office_attendance_backen.Auth.Me.{me}
use office_attendance_backen.Attendance.{history}
use office_attendance_backen.Api.Bodies.{employee_ok, check_admin}
use office_attendance_backen.Api.{
  Call, Answer, as_answer, answer_employee, answer_admin, answer_debug, serve,
}

-- The account that the access token of a call stands for, if it is not disabled.
abbrev account : World → Clock → Option String → Db → Option User
account w c token db = elim (claims_of w c token) [
  | none ↦ none
  | some claims ↦ if not (has_type "access" claims) then none else elim (subject claims) [
    | none ↦ none
    | some id ↦ elim (user_by_int id db) [
      | none ↦ none
      | some u ↦ if user_status_eq u.status UserStatus.disabled then none else some u
    ]
  ]
]

-- The device that the header of a call names, among those of the user.
abbrev device_at : World → Option String → User → Db → Option Device
device_at w header user db = elim (truthy header) [
  | none ↦ none
  | some raw ↦
      find (λ d. str_eq d.token_hash (w.secrets.hash_token raw) && d.user_id == user.id)
        db.devices.rows
]

abbrev has_device : World → Option String → User → Db → Bool
has_device w header user db = elim (device_at w header user db) [
  | none ↦ false
  | some d ↦ is_active_device d.status
]

abbrev is_at_work : User → Bool
is_at_work u = is_employee u.role && user_status_eq u.status UserStatus.active

-- Whether a call may have its route.
abbrev pub may_call : World → Call → Db → Route → Bool
may_call w e db (Route.open_to_all r) = true
may_call w e db Route.me = elim (account w e.clock e.token db) [ none ↦ false | some u ↦ true ]
may_call w e db Route.history = elim (account w e.clock e.token db) [
  | none ↦ false
  | some u ↦ is_at_work u
]
may_call w e db (Route.for_employee r) = elim (account w e.clock e.token db) [
  | none ↦ false
  | some u ↦ is_at_work u && has_device w e.x_device_token u db
]
may_call w e db (Route.for_admin r) = elim (account w e.clock e.token db) [
  | none ↦ false
  | some u ↦ is_admin u.role
]
may_call w e db (Route.debug r) = w.settings.dev_mode

-- 401, 403, 404, or the 500 of a token whose subject is no number: never 422 or 409.
abbrev pub is_refusal : HttpError → Bool
is_refusal HttpError.unauthorized = true
is_refusal HttpError.forbidden = true
is_refusal HttpError.not_found = true
is_refusal HttpError.internal = true
is_refusal _ = false

get_current_user-some :
    (w : World) (c : Clock) (token : Option String) (u : User) (s : Session)
    → account w c token s.current ≡ some u
    → get_current_user w c token s ≡ (ok u, s)
unfolding get_current_user
get_current_user-some w c token u s h = ground arith

-- The action is refused, and leaves the session as it was.
abbrev Refused {ℓ} : {A : Type ℓ} → Action A → Session → Type ℓ
Refused m s = (x : HttpError) × (m s ≡ (err x, s)) × (is_refusal x ≡ true)

-- A refusal ends the block.
Refused-bind {ℓ κ} :
    {A : Type ℓ} {B : Type κ} (m : Action A) (f : A → Action B) (s : Session)
    → Refused m s
    → Refused (m >>= f) s
Refused-bind m f s (x, e, r) = (x, ground arith, r)

Refused-after {ℓ κ} :
    {A : Type ℓ} {B : Type κ} (m : Action A) (f : A → Action B) (a : A) (s : Session)
    → m s ≡ (ok a, s)
    → Refused (f a) s
    → Refused (m >>= f) s
Refused-after m f a s e (x, e', r) = (x, ground arith, r)

get_current_user-none :
    (w : World) (c : Clock) (token : Option String) (s : Session)
    → account w c token s.current ≡ none
    → Refused (get_current_user w c token) s
unfolding get_current_user
get_current_user-none w c token s h = elim (Result-cases (get_current_user w c token s).0) [
  | inl (u, e) ↦ ground arith
  | inr (x, e) ↦ (x, ground arith, ground arith)
]

-- The user is not let through: no account, or one that a test refuses.
module _ (w : World) (e : Call) (s : Session) where
  require_admin-Refused :
      (elim (account w e.clock e.token s.current) [ none ↦ false | some u ↦ is_admin u.role ])
        ≡ false
      → Refused (require_admin w e.clock e.token) s
  unfolding require_admin
  require_admin-Refused h = elim (Option-cases (account w e.clock e.token s.current)) [
    | inl absent ↦
        let (x, refused, r) = get_current_user-none w e.clock e.token s absent in
        (x, ground arith, r)
    | inr (u, found) ↦
        let user = get_current_user-some w e.clock e.token u s found in
        (HttpError.forbidden, ground arith, refl)
  ]

  require_active_employee-Refused :
      (elim (account w e.clock e.token s.current) [ none ↦ false | some u ↦ is_at_work u ]) ≡ false
      → Refused (require_active_employee w e.clock e.token) s
  unfolding require_active_employee
  require_active_employee-Refused h = elim (Option-cases (account w e.clock e.token s.current)) [
    | inl absent ↦
        let (x, refused, r) = get_current_user-none w e.clock e.token s absent in
        (x, ground arith, r)
    | inr (u, found) ↦
        let user = get_current_user-some w e.clock e.token u s found in
        (HttpError.forbidden, ground arith, refl)
  ]

  require_active_employee-some :
      (u : User)
      → account w e.clock e.token s.current ≡ some u
      → is_at_work u ≡ true
      → require_active_employee w e.clock e.token s ≡ (ok u, s)
  unfolding require_active_employee
  require_active_employee-some u found h =
      let user = get_current_user-some w e.clock e.token u s found in ground arith

  device_of-Refused :
      (u : User)
      → has_device w e.x_device_token u s.current ≡ false
      → Refused (device_of w e.x_device_token u) s
  unfolding device_of
  device_of-Refused u h = (HttpError.unauthorized, ground arith, refl)

  answer_debug-Refused :
      (r : DebugRoute) → w.settings.dev_mode ≡ false → Refused (answer_debug w e r) s
  unfolding answer_debug my_ip set_time get_time run_nightly run_idle require_dev_mode
  answer_debug-Refused DebugRoute.my_ip h = (HttpError.not_found, ground arith, refl)
  answer_debug-Refused _ h = (HttpError.not_found, ground arith, refl)

  serve-Refused : (r : Route) → may_call w e s.current r ≡ false → Refused (serve w e r) s
  unfolding serve
  serve-Refused (Route.open_to_all r) h = cc
  serve-Refused Route.me h = elim (Option-cases (account w e.clock e.token s.current)) [
    | inl absent ↦
        Refused-bind (get_current_user w e.clock e.token) (λ user. as_answer Answer.who (me user)) s
          (get_current_user-none w e.clock e.token s absent)
    | inr (u, found) ↦ ground arith
  ]
  serve-Refused Route.history h =
      Refused-bind (require_active_employee w e.clock e.token)
        (λ user. as_answer Answer.days (history w e.clock user)) s
        (require_active_employee-Refused h)
  serve-Refused (Route.for_employee r) h =
      let user = require_active_employee w e.clock e.token in
      let k : User → Device → Action Answer = λ u device.
        raise_if (not (employee_ok w r)) unprocessable >> answer_employee w e u device r in
      let k' : User → Action Answer = λ u. device_of w e.x_device_token u >>= k u in
      elim (Option-cases (account w e.clock e.token s.current)) [
        | inl absent ↦ Refused-bind user k' s (require_active_employee-Refused (ground arith))
        | inr (u, found) ↦ elim (Bool-cases (is_at_work u)) [
          | inr off ↦ Refused-bind user k' s (require_active_employee-Refused (ground arith))
          | inl on ↦ Refused-after user k' u s (require_active_employee-some u found on) (
              Refused-bind (device_of w e.x_device_token u) (k u) s
                (device_of-Refused u (ground arith)))
        ]
      ]
  serve-Refused (Route.for_admin r) h =
      Refused-bind (require_admin w e.clock e.token)
        (λ admin. or_raise unprocessable (check_admin w r) >>= λ r'. answer_admin w e admin r') s
        (require_admin-Refused h)
  serve-Refused (Route.debug r) h = answer_debug-Refused r h

-- A call that has no right to its route, which asks for an access token of an account that is not
-- disabled, of an admin or of an active employee, for that employee's active device or for DEV_MODE,
-- is refused by 401, 403, 404 or 500, and the database stays as it was.
pub serve_refused :
    (w : World) (e : Call) (r : Route) (db : Db)
    → may_call w e db r ≡ false
    → (x : HttpError) × (request (serve w e r) db ≡ (err x, db)) × (is_refusal x ≡ true)
serve_refused w e r db h =
    let start : Session = record { durable = db; current = db } in
    let (x, refused, is) = serve-Refused w e start r h in (x, ground arith, is)
