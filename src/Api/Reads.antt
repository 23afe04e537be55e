-- ===== src/Api/Reads.antt =====
-- app/deps.py and the views of app/routers/: what only reads leaves the session as it is.
use office_attendance_backen.Base.{
  String, Bool, true, false, Option, some, List, [], ◌∷◌, ◌≡◌, refl, arith, inl, inr, select,
  order_by, ◌&&◌,
}
use office_attendance_backen.Model.{User, UserStatus, is_employee, user_status_eq}
use office_attendance_backen.World.{World, Clock}
use office_attendance_backen.Session.{
  Action, unprocessable, pure, gets, or_raise, Result-cases, ◌>>=◌,
}
use office_attendance_backen.Deps.{
  get_current_user, require_admin, require_active_employee, device_of, require_dev_mode,
}
use office_attendance_backen.Auth.{refresh}
use office_attendance_backen.Auth.Me.{me}
use office_attendance_backen.Attendance.{own_today, history}
use office_attendance_backen.Rosters.Views.{list_active_rosters, list_all_rosters}
use office_attendance_backen.Offices.Views.{list_offices}
use office_attendance_backen.Admin.{
  get_employee, list_employees, list_employee_devices, dashboard, entry_of, dashboard_entries,
  flagged_days,
}
use office_attendance_backen.Reports.{month_bounds, build_report, export_report}
use office_attendance_backen.Debug.{my_ip, get_time}
use office_attendance_backen.Api.Routes.{Route, OpenRoute, AdminRoute, DebugRoute}
use office_attendance_backen.Api.Bodies.{check_open, check_admin}
use office_attendance_backen.Api.{
  Call, Answer, as_answer, answer_open, answer_admin, answer_debug, serve,
}
use office_attendance_backen.Api.Undone.{Looks, Looks-bind}

-- The routes that only read.
abbrev pub reads_admin : AdminRoute → Bool
reads_admin AdminRoute.list_all_rosters = true
reads_admin AdminRoute.list_offices = true
reads_admin AdminRoute.current_ip = true
reads_admin AdminRoute.list_employees = true
reads_admin AdminRoute.dashboard = true
reads_admin AdminRoute.flagged_days = true
reads_admin (AdminRoute.list_employee_devices id) = true
reads_admin (AdminRoute.monthly_report month) = true
reads_admin (AdminRoute.export_report month) = true
reads_admin _ = false

abbrev pub only_reads : Route → Bool
only_reads (Route.open_to_all OpenRoute.health) = true
only_reads (Route.open_to_all OpenRoute.list_active_rosters) = true
only_reads (Route.open_to_all (OpenRoute.refresh token)) = true
only_reads Route.me = true
only_reads Route.history = true
only_reads (Route.for_admin r) = reads_admin r
only_reads (Route.debug DebugRoute.my_ip) = true
only_reads (Route.debug DebugRoute.get_time) = true
only_reads _ = false

pub get_current_user-Looks :
    (w : World) (c : Clock) (token : Option String) → Looks (get_current_user w c token)
unfolding get_current_user
get_current_user-Looks w c token s = ground arith

pub require_admin-Looks :
    (w : World) (c : Clock) (token : Option String) → Looks (require_admin w c token)
unfolding require_admin
require_admin-Looks w c token s = ground (arith, get_current_user-Looks w c token s)

pub require_active_employee-Looks :
    (w : World) (c : Clock) (token : Option String) → Looks (require_active_employee w c token)
unfolding require_active_employee
require_active_employee-Looks w c token s = ground (arith, get_current_user-Looks w c token s)

pub device_of-Looks :
    (w : World) (header : Option String) (user : User) → Looks (device_of w header user)
unfolding device_of
device_of-Looks w header user s = ground arith

pub history-Looks : (w : World) (c : Clock) (user : User) → Looks (history w c user)
unfolding history own_today
history-Looks w c user s = ground arith

entry_of-Looks : (w : World) (c : Clock) (emp : User) → Looks (entry_of w c emp)
unfolding entry_of own_today
entry_of-Looks w c emp s = ground arith

dashboard_entries-Looks :
    (w : World) (c : Clock) (emps : List User) → Looks (dashboard_entries w c emps)
unfolding dashboard_entries
dashboard_entries-Looks w c [] s = refl
dashboard_entries-Looks w c (emp ∷ emps) s =
    let same = entry_of-Looks w c emp s in
    let rest = dashboard_entries-Looks w c emps s in
    elim (Result-cases (entry_of w c emp s).0) [
      | inl (entry, e) ↦ elim (Result-cases (dashboard_entries w c emps s).0) [
        | inl (entries, e') ↦ ground arith
        | inr (x, e') ↦ ground arith
      ]
      | inr (x, e) ↦ ground arith
    ]

pub month_bounds-Looks : (month : String) → Looks (month_bounds month)
unfolding month_bounds
month_bounds-Looks month s = ground arith

pub build_report-Looks : (w : World) (month : String) → Looks (build_report w month)
unfolding build_report
build_report-Looks w month s =
    let same = month_bounds-Looks month s in
    elim (Result-cases (month_bounds month s).0) [
      | inl (bounds, e) ↦ ground arith
      | inr (x, e) ↦ ground arith
    ]

pub export_report-Looks : (w : World) (month : String) → Looks (export_report w month)
unfolding export_report
export_report-Looks w month s =
    let same = build_report-Looks w month s in
    elim (Result-cases (build_report w month s).0) [
      | inl (rows, e) ↦ ground arith
      | inr (x, e) ↦ ground arith
    ]

pub dashboard-Looks : (w : World) (c : Clock) → Looks (dashboard w c)
unfolding dashboard
dashboard-Looks w c s =
    Looks-bind
      (gets (λ db.
        order_by (λ a b. w.text_le a.name b.name)
          (select (λ u. is_employee u.role && user_status_eq u.status UserStatus.active)
            db.users.rows)))
      (dashboard_entries w c) (λ s. refl) (dashboard_entries-Looks w c) s

pub as_answer-Looks {ℓ} :
    {A : Type ℓ} (f : A → Answer) (m : Action A) → Looks m → Looks (as_answer f m)
as_answer-Looks f m looks = Looks-bind m (λ a. pure (f a)) looks (λ a s. refl)

pub answer_open-Looks :
    (w : World) (e : Call) (r : OpenRoute)
    → only_reads (Route.open_to_all r) ≡ true
    → Looks (answer_open w e r)
unfolding answer_open list_active_rosters refresh
answer_open-Looks w e (OpenRoute.signup p) h s = cc
answer_open-Looks w e (OpenRoute.login p raw_token) h s = cc
answer_open-Looks w e OpenRoute.health h s = refl
answer_open-Looks w e OpenRoute.list_active_rosters h s = refl
answer_open-Looks w e (OpenRoute.refresh token) h s = ground arith

pub answer_admin-Looks :
    (w : World) (e : Call) (admin : User) (r : AdminRoute)
    → reads_admin r ≡ true
    → Looks (answer_admin w e admin r)
unfolding answer_admin list_all_rosters list_offices list_employees list_employee_devices
    flagged_days get_employee
answer_admin-Looks w e admin AdminRoute.dashboard h s =
    as_answer-Looks Answer.entries (dashboard w e.clock) (dashboard-Looks w e.clock) s
answer_admin-Looks w e admin (AdminRoute.monthly_report month) h s =
    as_answer-Looks Answer.report (build_report w month) (build_report-Looks w month) s
answer_admin-Looks w e admin (AdminRoute.export_report month) h s =
    as_answer-Looks Answer.file (export_report w month) (export_report-Looks w month) s
answer_admin-Looks w e admin (AdminRoute.list_employee_devices id) h s = ground arith
answer_admin-Looks w e admin _ h s = ground arith

pub me-Looks : (user : User) → Looks (as_answer Answer.who (me user))
unfolding me
me-Looks user s = refl

pub history_answer-Looks :
    (w : World) (e : Call) (user : User) → Looks (as_answer Answer.days (history w e.clock user))
history_answer-Looks w e user =
    as_answer-Looks Answer.days (history w e.clock user) (history-Looks w e.clock user)

checked_open-Looks :
    (w : World) (e : Call) (r : OpenRoute)
    → only_reads (Route.open_to_all r) ≡ true
    → Looks (serve w e (Route.open_to_all r))
unfolding serve check_open
checked_open-Looks w e (OpenRoute.signup p) h s = cc
checked_open-Looks w e (OpenRoute.login p raw_token) h s = cc
checked_open-Looks w e OpenRoute.health h s = answer_open-Looks w e OpenRoute.health refl s
checked_open-Looks w e OpenRoute.list_active_rosters h s =
    answer_open-Looks w e OpenRoute.list_active_rosters refl s
checked_open-Looks w e (OpenRoute.refresh token) h s =
    answer_open-Looks w e (OpenRoute.refresh token) refl s

-- A body of a route that reads is not changed by its validators.
check_admin-reads : (w : World) (r : AdminRoute) → reads_admin r ≡ true → check_admin w r ≡ some r
unfolding check_admin
check_admin-reads w AdminRoute.dashboard h = refl
check_admin-reads w _ h = ground arith

checked_admin-Looks :
    (w : World) (e : Call) (admin : User) (r : AdminRoute)
    → reads_admin r ≡ true
    → Looks (or_raise unprocessable (check_admin w r) >>= λ r'. answer_admin w e admin r')
checked_admin-Looks w e admin r h s =
    rw (check_admin-reads w r h) (answer_admin-Looks w e admin r h s)

pub serve-Looks : (w : World) (e : Call) (r : Route) → only_reads r ≡ true → Looks (serve w e r)
unfolding serve answer_debug my_ip get_time require_dev_mode
serve-Looks w e (Route.open_to_all r) h = checked_open-Looks w e r h
serve-Looks w e Route.me h =
    Looks-bind (get_current_user w e.clock e.token) (λ user. as_answer Answer.who (me user))
      (get_current_user-Looks w e.clock e.token) me-Looks
serve-Looks w e Route.history h =
    Looks-bind (require_active_employee w e.clock e.token)
      (λ user. as_answer Answer.days (history w e.clock user))
      (require_active_employee-Looks w e.clock e.token) (history_answer-Looks w e)
serve-Looks w e (Route.for_employee r) h = cc
serve-Looks w e (Route.for_admin r) h =
    Looks-bind (require_admin w e.clock e.token)
      (λ admin. or_raise unprocessable (check_admin w r) >>= λ r'. answer_admin w e admin r')
      (require_admin-Looks w e.clock e.token) (λ admin. checked_admin-Looks w e admin r h)
serve-Looks w e (Route.debug DebugRoute.my_ip) h = λ s. ground arith
serve-Looks w e (Route.debug DebugRoute.get_time) h = λ s. ground arith
serve-Looks w e (Route.debug _) h = cc
