-- ===== src/Auth/Access.antt =====
-- app/routers/auth.py `login`: what a token proves of the account that it is issued for.
use office_attendance_backen.Base.{
  ◌&&◌, ◌≡◌, ◌∙◌, ap, subst, String, true, Option, none, some, arith, not, Option-cases, Bool-cases,
  inl, inr, if◌then◌else◌,
}
use office_attendance_backen.Model.{Db, User, UserStatus, is_employee, user_status_eq}
use office_attendance_backen.World.{World, Clock}
use office_attendance_backen.Session.{Session, Result-cases, request, ok}
use office_attendance_backen.Devices.{register_device}
use office_attendance_backen.Auth.{
  LoginRequest, LoginResponse, user_by_email, verified_user, known_device, login_device, login,
}

verified_user-passes :
    (w : World) (p : LoginRequest) (db : Db) (user : User)
    → verified_user w p db ≡ some user
    → (user_by_email (w.secrets.lower p.email) db ≡ some user)
      × (w.secrets.verify_password p.password user.password_hash ≡ true)
verified_user-passes w p db user h =
    elim (Option-cases (user_by_email (w.secrets.lower p.email) db)) [
      | inl absent ↦ ground arith
      | inr (u, found) ↦ ground arith
    ]

login_device-passes :
    (w : World) (c : Clock) (p : LoginRequest) (raw_token : String) (user : User)
    (token : Option String) (s : Session)
    → (login_device w c p raw_token user s).0 ≡ ok token
    → token ≡ (
        if is_employee user.role && not (known_device w user p.x_device_token s.current)
        then some raw_token
        else none)
unfolding login_device register_device
login_device-passes w c p raw_token user token s h = ground arith

-- A login succeeds only for the account of the email, with its password, if the account is active, and
-- it hands out a device token exactly to an employee who did not send the token of one of
-- their active devices.
pub login_safe :
    (w : World) (c : Clock) (p : LoginRequest) (raw_token : String) (db : Db)
    (response : LoginResponse)
    → (request (login w c p raw_token) db).0 ≡ ok response
    → let user = response.user in
      (user_by_email (w.secrets.lower p.email) db ≡ some user)
      × (w.secrets.verify_password p.password user.password_hash ≡ true)
      × (user_status_eq user.status UserStatus.active ≡ true)
      × (response.device_token ≡ (
          if is_employee user.role && not (known_device w user p.x_device_token db)
          then some raw_token
          else none))
unfolding login
login_safe w c p raw_token db response h =
    let s : Session = record { durable = db; current = db } in
    elim (Option-cases (verified_user w p db)) [
      | inl absent ↦ ground arith
      | inr (user, found) ↦ elim (Bool-cases (user_status_eq user.status UserStatus.active)) [
        | inr other ↦ ground arith
        | inl active ↦
            let account = verified_user-passes w p db user found in
            elim (Result-cases (login_device w c p raw_token user s).0) [
              | inr (x, e) ↦ ground arith
              | inl (token, e) ↦
                  let same : user ≡ response.user = ground arith in
                  let device = login_device-passes w c p raw_token user token s e in
                  let handed : response.device_token ≡ token = ground arith in
                  (
                    account.0 ∙ ap (λ u. some u) same,
                    subst (λ u. w.secrets.verify_password p.password u.password_hash ≡ true) same
                        account.1,
                    subst (λ u. user_status_eq u.status UserStatus.active ≡ true) same active,
                    handed
                        ∙ subst
                            (λ u. token ≡ (
                              if is_employee u.role && not (known_device w u p.x_device_token db)
                              then some raw_token
                              else none))
                            same device,
                  )
            ]
      ]
    ]
