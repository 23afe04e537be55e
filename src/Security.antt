-- ===== src/Security.antt =====
-- app/security.py: the tokens of a session.
use office_attendance_backen.Base.{ℕ, ◌+◌, ◌*◌, String, str_eq, Bool, false, Option, none, some}
use office_attendance_backen.Time.{Instant, minutes, day_us}
use office_attendance_backen.Model.{Role}
use office_attendance_backen.World.{World, Claims}
use office_attendance_backen.Numerals.{ℤ, str_of, int_of}

-- The words of `users.role`.
abbrev pub role_name : Role → String
role_name Role.admin = "admin"
role_name Role.employee = "employee"

-- `timedelta(hours=n)`
abbrev pub hours : ℕ → ℕ
hours n = minutes (n * 60)

-- With the reading of `datetime.now(timezone.utc)`.
unfoldable pub create_access_token : World → Instant → ℕ → Role → String
create_access_token w now user_id role =
    let expire = now + hours w.settings.access_token_expire_hours in
    w.secrets.jwt_encode
      (record {
        sub = some (str_of user_id);
        role = some (role_name role);
        token_type = some "access";
      })
      expire w.settings.jwt_secret w.settings.jwt_algorithm

unfoldable pub create_refresh_token : World → Instant → ℕ → String
create_refresh_token w now user_id =
    let expire = now + w.settings.refresh_token_expire_days * day_us in
    w.secrets.jwt_encode
      (record { sub = some (str_of user_id); role = none; token_type = some "refresh" }) expire
      w.settings.jwt_secret w.settings.jwt_algorithm

-- `none` where it raises JWTError.
unfoldable pub decode_token : World → Instant → String → Option Claims
decode_token w now token =
    w.secrets.jwt_decode token w.settings.jwt_secret w.settings.jwt_algorithm now

-- `payload.get("type") == kind`
abbrev pub has_type : String → Claims → Bool
has_type kind c = elim c.token_type [ none ↦ false | some t ↦ str_eq t kind ]

-- `int(payload["sub"])`, or `none` where that raises KeyError or ValueError.
abbrev pub subject : Claims → Option ℤ
subject c = elim c.sub [ none ↦ none | some s ↦ int_of s ]
