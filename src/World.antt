-- ===== src/World.antt =====
-- What the program is configured with and what it calls: app/config.py's settings, and the
-- libraries behind it as interfaces (floats, `ipaddress`, hashing and tokens).
use office_attendance_backen.Base.{ℕ, String, Bool, Option}
use office_attendance_backen.Time.{Zones, Instant}
use office_attendance_backen.Numerals.{ℤ}
use office_attendance_backen.Model.{Float}

-- The fields of `Settings` that the modelled code reads.
pub record Settings : Type 0 where
  pub admin_email : String
  pub admin_password : String
  pub jwt_secret : String
  pub jwt_algorithm : String
  pub access_token_expire_hours : ℕ
  pub refresh_token_expire_days : ℕ
  pub trust_proxy : Bool
  pub dev_mode : Bool
  pub display_timezone : String
  pub max_gps_accuracy_m : ℕ
  pub gps_reverify_minutes : ℕ
  pub checkout_idle_minutes : ℕ
  pub run_scheduler : Bool
  pub max_devices_per_user : ℕ

-- Arithmetic on IEEE doubles and the functions of `math`, on arguments for which they raise nothing.
pub record Floats : Type 0 where
  pub lt : Float → Float → Bool
  -- `math.isnan`
  pub is_nan : Float → Bool
  -- `math.isfinite`
  pub is_finite : Float → Bool
  -- Comparisons of a float with an int: `f > n` and `f <= n`, which are both false of NaN.
  pub gt_int : Float → ℕ → Bool
  pub le_int : Float → ℕ → Bool
  -- `f < -n`
  pub lt_neg : Float → ℕ → Bool
  pub round : Float → ℕ
  pub of_int : ℕ → Float
  pub add : Float → Float → Float
  pub sub : Float → Float → Float
  pub mul : Float → Float → Float
  pub div : Float → Float → Float
  pub radians : Float → Float
  pub sin : Float → Float
  pub cos : Float → Float
  pub asin : Float → Float
  pub sqrt : Float → Float
  pub square : Float → Float
  -- The literal 6_371_008.8.
  pub earth_radius_m : Float

-- `ipaddress`: the canonical text of an address, `none` where parsing raises ValueError, and
-- `is_global` of a canonical address.
pub record Addresses : Type 0 where
  pub canonical : String → Option String
  pub is_global : String → Bool

-- The payload of a JWT without its `exp`; `none` is a claim that is not there.
pub record Claims : Type 0 where
  pub sub : Option String
  pub role : Option String
  pub token_type : Option String

-- bcrypt, SHA-256 and `jose`.
pub record Secrets : Type 0 where
  pub hash_password : String → String
  pub verify_password : String → String → Bool
  pub hash_token : String → String
  -- `jwt.encode`: the claims, the `exp`, the secret and the algorithm.
  pub jwt_encode : Claims → Instant → String → String → String
  -- `jwt.decode`: the token, the secret and the algorithm, at a moment; `none` where it raises
  -- JWTError.
  pub jwt_decode : String → String → String → Instant → Option Claims
  -- `str.lower`
  pub lower : String → String

-- An aware `datetime`: the instant, and the offset from UTC that it is written with, in microseconds.
pub record AwareTime : Type 0 where
  pub instant : Instant
  pub utc_offset : ℤ

-- What `datetime.fromisoformat` reads: a wall time without an offset, or an aware time.
pub data IsoTime : Type 0 where
  naive : IsoTime
  aware : AwareTime → IsoTime

pub record World : Type 0 where
  pub settings : Settings
  pub zones : Zones
  pub floats : Floats
  pub addresses : Addresses
  -- The database's collation: whether a text comes before another, or beside it.
  pub text_le : String → String → Bool
  -- `datetime.fromisoformat`, or `none` where it raises ValueError.
  pub from_iso : String → Option IsoTime
  -- `isoformat` of an aware time
  pub isoformat : AwareTime → String
  -- Pydantic's `EmailStr`: the address as it is normalised, or `none` where it is refused.
  pub email_str : String → Option String
  pub secrets : Secrets

-- The readings of the clock that a request makes: two calls of `now_utc` in their order, the
-- database's `now()`, and the system's clock, which no override moves.
pub record Clock : Type 0 where
  pub first : Instant
  pub second : Instant
  pub db_now : Instant
  pub system : Instant
