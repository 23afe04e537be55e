-- ===== src/Tests/Accounts.antt =====
-- Accounts and access: app/deps.py, app/routers/auth.py and app/routers/admin.py.
use office_attendance_backen.Base.{
  if◌then◌else◌, ◌==◌, ◌≡◌, refl, String, str_eq, true, none, some, List, [], ◌∷◌,
}
use office_attendance_backen.Model.{Role, User, UserStatus, is_employee, user_status_eq}
use office_attendance_backen.Ip.{truthy}
use office_attendance_backen.Numerals.{str_of, int_of, digit_of}
use office_attendance_backen.Security.{create_access_token, create_refresh_token, decode_token}
use office_attendance_backen.Deps.{get_current_user, get_current_device, claims_of}
use office_attendance_backen.Deps.Access.{IsBearer, get_current_device_safe}
use office_attendance_backen.Auth.{
  LoginRequest, LoginResponse, SignupRequest, login, refresh, user_by_email,
}
use office_attendance_backen.Session.{request, err, unauthorized}
use office_attendance_backen.Auth.Access.{login_safe}
use office_attendance_backen.Auth.Tokens.{
  is_expired, access_expires, refresh_expires, bearer_result, refresh_result, login_tokens,
  login_tokens_apart,
}
use office_attendance_backen.Tests.Tokens.{verify-issue}
use office_attendance_backen.Admin.{Decision, UserDecisionIn}
use office_attendance_backen.Accounts.Soundness.{AllSound}
use office_attendance_backen.Accounts.Calls.{
  Call, sign_up, decide_on, disable, enable, perform_all, perform_all-AllSound,
}
use office_attendance_backen.Tests.Data.{world, at_minute, clock_at, boss, ayesha, laptop, fresh_db}

abbrev newcomer : SignupRequest
newcomer = record {
  name = "Bilal";
  email = "bilal@example.com";
  phone = "0300";
  password = "secret";
  requested_roster_id = some 1;
  department = "IT";
  job_title = "Engineer";
  city = "Lahore";
}

abbrev approval : UserDecisionIn
approval = record { action = Decision.approve; assigned_roster_id = some 1; feedback = none }

abbrev history : List Call
history =
    sign_up (clock_at 500) newcomer
    ∷ decide_on (clock_at 510) boss 3 approval
    ∷ disable (clock_at 520) boss 2
    ∷ enable (clock_at 530) boss 2
    ∷ []

perform_all-AllSound_example : AllSound (perform_all world history fresh_db)
perform_all-AllSound_example = perform_all-AllSound world history fresh_db (refl, (refl, tt))

-- Ayesha's access token since nine.
abbrev badge : String
badge = create_access_token world (at_minute 540) 2 Role.employee

get_current_device_safe_example :
    (user : User) × (raw : String) × IsBearer world (clock_at 550) (some badge) fresh_db user
    × (is_employee user.role ≡ true)
    × (user_status_eq user.status UserStatus.active ≡ true)
    × (truthy (some "laptop") ≡ some raw)
    × (str_eq "laptop" raw ≡ true)
    × (2 == user.id ≡ true)
    × (true ≡ true)
unfolding get_current_device create_access_token str_of claims_of decode_token int_of digit_of
get_current_device_safe_example =
    get_current_device_safe world (clock_at 550) (some badge) (some "laptop") fresh_db laptop refl

abbrev credentials : LoginRequest
credentials = record {
  email = "ayesha@example.com";
  password = "secret";
  x_device_token = some "laptop";
  user_agent = none;
}

abbrev response : LoginResponse
response = record {
  access_token = create_access_token world (at_minute 550) 2 Role.employee;
  refresh_token = create_refresh_token world (at_minute 550) 2;
  device_token = none;
  user = ayesha;
}

login_safe_example :
    (user_by_email "ayesha@example.com" fresh_db ≡ some ayesha)
    × (str_eq "secret" "secret" ≡ true)
    × (true ≡ true)
    × (response.device_token ≡ none)
unfolding login
login_safe_example = login_safe world (clock_at 550) credentials "new" fresh_db response refl

login_tokens_example :
    ((request (get_current_user world (clock_at 700) (some response.access_token)) fresh_db).0 ≡ (
      if is_expired (access_expires world (clock_at 550)) (clock_at 700).system
      then err unauthorized
      else bearer_result (some ayesha)))
    × ((request (refresh world (clock_at 700) response.refresh_token) fresh_db).0 ≡ (
        if is_expired (refresh_expires world (clock_at 550)) (clock_at 700).system
        then err unauthorized
        else refresh_result world (clock_at 700) (some ayesha)))
unfolding login
login_tokens_example =
    login_tokens world (clock_at 550) (clock_at 700) credentials "new" fresh_db fresh_db response
      verify-issue refl

login_tokens_apart_example :
    ((request (get_current_user world (clock_at 700) (some response.refresh_token)) fresh_db).0
      ≡ err unauthorized)
    × ((request (refresh world (clock_at 700) response.access_token) fresh_db).0 ≡ err unauthorized)
unfolding login
login_tokens_apart_example =
    login_tokens_apart world (clock_at 550) (clock_at 700) credentials "new" fresh_db fresh_db
      response verify-issue refl
