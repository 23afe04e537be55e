-- ===== src/Auth/Tokens.antt =====
-- app/security.py, app/routers/auth.py and app/deps.py: the tokens that a login hands out are
-- accepted, each for its own use, until they expire.
use office_attendance_backen.Base.{
  ℕ, ◌+◌, ◌*◌, ◌/◌, ◌≡◌, ltb, String, Bool, Option, none, some, arith, Option-cases, Bool-cases,
  inl, inr, if◌then◌else◌,
}
use office_attendance_backen.Time.{Instant, day_us}
use office_attendance_backen.Model.{Db, Role, User, UserStatus, user_status_eq}
use office_attendance_backen.World.{World, Claims, Clock, Secrets}
use office_attendance_backen.Numerals.{str_of}
use office_attendance_backen.Numerals.RoundTrip.{int_of-str_of}
use office_attendance_backen.Session.{Result, Session, Result-cases, request, ok, err, unauthorized}
use office_attendance_backen.Security.{
  role_name, hours, create_access_token, create_refresh_token, decode_token,
}
use office_attendance_backen.Deps.{user_by_id, claims_of, get_current_user}
use office_attendance_backen.Auth.{
  LoginRequest, LoginResponse, verified_user, login_device, login, refresh,
}

-- `jose`: a token is expired when its `exp` is before the moment, in whole seconds.
abbrev pub is_expired : Instant → Instant → Bool
is_expired exp now = ltb (exp / 1000000) (now / 1000000)

-- The documented behaviour of `jose.jwt`: under the secret and the algorithm that signed it, a
-- token decodes to its claims unless it is expired.
abbrev pub JwtLaw : Secrets → Type 0
JwtLaw s =
    (claims : Claims) (exp : Instant) (key algorithm : String) (now : Instant)
    → s.jwt_decode (s.jwt_encode claims exp key algorithm) key algorithm now
      ≡ (if is_expired exp now then none else some claims)

abbrev pub access_expires : World → Clock → Instant
access_expires w c = c.system + hours w.settings.access_token_expire_hours

abbrev pub refresh_expires : World → Clock → Instant
refresh_expires w c = c.system + w.settings.refresh_token_expire_days * day_us

-- What `get_current_user` answers to a token of the user in this row.
abbrev pub bearer_result : Option User → Result User
bearer_result none = err unauthorized
bearer_result (some u) =
    if user_status_eq u.status UserStatus.disabled then err unauthorized else ok u

-- What `refresh` answers.
abbrev pub refresh_result : World → Clock → Option User → Result String
refresh_result w c none = err unauthorized
refresh_result w c (some u) =
    if user_status_eq u.status UserStatus.active
    then ok (create_access_token w c.system u.id u.role)
    else err unauthorized

-- The tokens of a login.
login_issues :
    (w : World) (c : Clock) (p : LoginRequest) (raw : String) (db : Db) (r : LoginResponse)
    → (request (login w c p raw) db).0 ≡ ok r
    → (r.access_token ≡ create_access_token w c.system r.user.id r.user.role)
      × (r.refresh_token ≡ create_refresh_token w c.system r.user.id)
unfolding login
login_issues w c p raw db r h =
    let s : Session = record { durable = db; current = db } in
    elim (Option-cases (verified_user w p db)) [
      | inl absent ↦ ground arith
      | inr (user, found) ↦ elim (Bool-cases (user_status_eq user.status UserStatus.active)) [
        | inr other ↦ ground arith
        | inl active ↦ elim (Result-cases (login_device w c p raw user s).0) [
          | inr (x, e) ↦ ground arith
          | inl (token, e) ↦ (ground arith, ground arith)
        ]
      ]
    ]

module _ (w : World) (law : JwtLaw w.secrets) where
  abbrev access_claims : ℕ → Role → Claims
  access_claims id role = record {
    sub = some (str_of id);
    role = some (role_name role);
    token_type = some "access";
  }

  abbrev refresh_claims : ℕ → Claims
  refresh_claims id = record { sub = some (str_of id); role = none; token_type = some "refresh" }

  decode-access :
      (c c' : Clock) (id : ℕ) (role : Role)
      → decode_token w c'.system (create_access_token w c.system id role)
        ≡ (if is_expired (access_expires w c) c'.system then none else some (access_claims id role))
  unfolding decode_token create_access_token
  decode-access c c' id role = law _ _ _ _ _

  decode-refresh :
      (c c' : Clock) (id : ℕ)
      → decode_token w c'.system (create_refresh_token w c.system id)
        ≡ (if is_expired (refresh_expires w c) c'.system then none else some (refresh_claims id))
  unfolding decode_token create_refresh_token
  decode-refresh c c' id = law _ _ _ _ _

  get_current_user-access :
      (c c' : Clock) (id : ℕ) (role : Role) (db : Db)
      → (request (get_current_user w c' (some (create_access_token w c.system id role))) db).0 ≡ (
          if is_expired (access_expires w c) c'.system
          then err unauthorized
          else bearer_result (user_by_id id db))
  unfolding get_current_user claims_of
  get_current_user-access c c' id role db =
      elim (Bool-cases (is_expired (access_expires w c) c'.system)) [
        | inl old ↦ ground (arith, decode-access c c' id role)
        | inr fresh ↦ ground (arith, decode-access c c' id role, int_of-str_of id)
      ]

  refresh-refresh :
      (c c' : Clock) (id : ℕ) (db : Db)
      → (request (refresh w c' (create_refresh_token w c.system id)) db).0 ≡ (
          if is_expired (refresh_expires w c) c'.system
          then err unauthorized
          else refresh_result w c' (user_by_id id db))
  unfolding refresh
  refresh-refresh c c' id db = elim (Bool-cases (is_expired (refresh_expires w c) c'.system)) [
    | inl old ↦ ground (arith, decode-refresh c c' id)
    | inr fresh ↦ ground (arith, decode-refresh c c' id, int_of-str_of id)
  ]

  get_current_user-refresh :
      (c c' : Clock) (id : ℕ) (db : Db)
      → (request (get_current_user w c' (some (create_refresh_token w c.system id))) db).0
        ≡ err unauthorized
  unfolding get_current_user claims_of
  get_current_user-refresh c c' id db =
      elim (Bool-cases (is_expired (refresh_expires w c) c'.system)) [
        | inl old ↦ ground (arith, decode-refresh c c' id)
        | inr fresh ↦ ground (arith, decode-refresh c c' id)
      ]

  refresh-access :
      (c c' : Clock) (id : ℕ) (role : Role) (db : Db)
      → (request (refresh w c' (create_access_token w c.system id role)) db).0 ≡ err unauthorized
  unfolding refresh
  refresh-access c c' id role db = elim (Bool-cases (is_expired (access_expires w c) c'.system)) [
    | inl old ↦ ground (arith, decode-access c c' id role)
    | inr fresh ↦ ground (arith, decode-access c c' id role)
  ]

-- With tokens that decode to what was signed until they expire: what a login hands out is read
-- back, at any later request and on any later database. Its access token stands for the user of
-- the login, whose row decides; its refresh token gives a new access token to that user while the
-- account is active; and both are refused with 401 once they are expired.
pub login_tokens :
    (w : World) (c c' : Clock) (p : LoginRequest) (raw : String) (db db' : Db) (r : LoginResponse)
    → JwtLaw w.secrets
    → (request (login w c p raw) db).0 ≡ ok r
    → ((request (get_current_user w c' (some r.access_token)) db').0 ≡ (
        if is_expired (access_expires w c) c'.system
        then err unauthorized
        else bearer_result (user_by_id r.user.id db')))
      × ((request (refresh w c' r.refresh_token) db').0 ≡ (
          if is_expired (refresh_expires w c) c'.system
          then err unauthorized
          else refresh_result w c' (user_by_id r.user.id db')))
login_tokens w c c' p raw db db' r law h =
    let (access, again) = login_issues w c p raw db r h in
    (
      rw access (get_current_user-access w law c c' r.user.id r.user.role db'),
      rw again (refresh-refresh w law c c' r.user.id db'),
    )

-- The tokens of a login are not mixed up: its refresh token opens no request as an access token,
-- and its access token gives no new one.
pub login_tokens_apart :
    (w : World) (c c' : Clock) (p : LoginRequest) (raw : String) (db db' : Db) (r : LoginResponse)
    → JwtLaw w.secrets
    → (request (login w c p raw) db).0 ≡ ok r
    → ((request (get_current_user w c' (some r.refresh_token)) db').0 ≡ err unauthorized)
      × ((request (refresh w c' r.access_token) db').0 ≡ err unauthorized)
login_tokens_apart w c c' p raw db db' r law h =
    let (access, again) = login_issues w c p raw db r h in
    (
      rw again (get_current_user-refresh w law c c' r.user.id db'),
      rw access (refresh-access w law c c' r.user.id r.user.role db'),
    )
