-- ===== src/Days/Calls.antt =====
-- app/: whatever requests come and whatever jobs run, in any order, the table of days stays coherent.
use office_attendance_backen.Base.{ℕ, not, List, [], ◌∷◌, refl}
use office_attendance_backen.Time.{Instant}
use office_attendance_backen.Model.{Db}
use office_attendance_backen.World.{World, Clock}
use office_attendance_backen.Session.{unprocessable, request, or_raise, raise_if, ◌>>=◌, ◌>>◌}
use office_attendance_backen.Deps.{require_admin, require_active_employee, device_of}
use office_attendance_backen.Api.Routes.{Route}
use office_attendance_backen.Api.Bodies.{check_open, employee_ok, check_admin}
use office_attendance_backen.Api.{Call, answer_open, answer_employee, answer_admin, serve}
use office_attendance_backen.Scheduler.{job_idle_checkout, job_nightly}
use office_attendance_backen.Admin.{ensure_admin_user}
use office_attendance_backen.Api.Undone.{or_raise-Looks}
use office_attendance_backen.Api.Reads.{
  serve-Looks, require_admin-Looks, require_active_employee-Looks, device_of-Looks,
}
use office_attendance_backen.Days.{DaysOk}
use office_attendance_backen.Days.Keeps.{KeepsDays, KeepsDays-bind}
use office_attendance_backen.Days.Jobs
use office_attendance_backen.Days.Requests
use office_attendance_backen.Days.Answers.{
  reading-KeepsDays, answer_open-KeepsDays, answer_employee-KeepsDays, answer_admin-KeepsDays,
  answer_debug-KeepsDays,
}

serve-KeepsDays : (w : World) (e : Call) (r : Route) → KeepsDays (serve w e r)
unfolding serve
serve-KeepsDays w e (Route.open_to_all r) =
    KeepsDays-bind (or_raise unprocessable (check_open w r)) (λ r'. answer_open w e r')
      (or_raise-Looks unprocessable (check_open w r)) (λ r'. answer_open-KeepsDays w e r')
serve-KeepsDays w e Route.me =
    reading-KeepsDays (serve w e Route.me) (serve-Looks w e Route.me refl)
serve-KeepsDays w e Route.history =
    reading-KeepsDays (serve w e Route.history) (serve-Looks w e Route.history refl)
serve-KeepsDays w e (Route.for_employee r) =
    KeepsDays-bind (require_active_employee w e.clock e.token)
      (λ user. device_of w e.x_device_token user >>= λ device.
        raise_if (not (employee_ok w r)) unprocessable >> answer_employee w e user device r)
      (require_active_employee-Looks w e.clock e.token)
      (λ user.
        KeepsDays-bind (device_of w e.x_device_token user)
          (λ device.
            raise_if (not (employee_ok w r)) unprocessable >> answer_employee w e user device r)
          (device_of-Looks w e.x_device_token user)
          (λ device.
            KeepsDays-bind (raise_if (not (employee_ok w r)) unprocessable)
              (λ _. answer_employee w e user device r) (λ s. refl)
              (λ _. answer_employee-KeepsDays w e user device r)))
serve-KeepsDays w e (Route.for_admin r) =
    KeepsDays-bind (require_admin w e.clock e.token)
      (λ admin. or_raise unprocessable (check_admin w r) >>= λ r'. answer_admin w e admin r')
      (require_admin-Looks w e.clock e.token)
      (λ admin.
        KeepsDays-bind (or_raise unprocessable (check_admin w r)) (λ r'. answer_admin w e admin r')
          (or_raise-Looks unprocessable (check_admin w r))
          (λ r'. answer_admin-KeepsDays w e admin r'))
serve-KeepsDays w e (Route.debug r) = answer_debug-KeepsDays w e r

-- What happens to the database: a call of the API, a job with the locks that others hold, the start of
-- the application.
pub data Event : Type 0 where
  call : Call → Route → Event
  idle_job nightly_job : List ℕ → Instant → Event
  boot : Clock → Event

unfoldable pub happen : World → Event → Db → Db
happen w (call e r) db = (request (serve w e r) db).1
happen w (idle_job held clock) db = (job_idle_checkout w held clock db).1
happen w (nightly_job held clock) db = (job_nightly w held clock db).1
happen w (boot c) db = (request (ensure_admin_user w c) db).1

unfoldable pub happen_all : World → List Event → Db → Db
unfolding happen
happen_all w [] db = db
happen_all w (ev ∷ evs) db = happen_all w evs (happen w ev db)

happen-DaysOk : (w : World) (ev : Event) (db : Db) → DaysOk db.days → DaysOk (happen w ev db).days
unfolding happen
happen-DaysOk w (call e r) db good = serve-KeepsDays w e r db good
happen-DaysOk w (idle_job held clock) db good = Jobs.job_idle_checkout-DaysOk w held clock db good
happen-DaysOk w (nightly_job held clock) db good = Jobs.job_nightly-DaysOk w held clock db good
happen-DaysOk w (boot c) db good = Requests.ensure_admin_user-KeepsDays w c db good

-- Whatever calls of the API come and whatever jobs run, in any order and with any outcome: if all days
-- are coherent, no two have one id or one user and date, and no id is above the sequence, then so it
-- is after them.
pub happen_all-DaysOk :
    (w : World) (evs : List Event) (db : Db) → DaysOk db.days → DaysOk (happen_all w evs db).days
unfolding happen_all
happen_all-DaysOk w [] db good = good
happen_all-DaysOk w (ev ∷ evs) db good =
    happen_all-DaysOk w evs (happen w ev db) (happen-DaysOk w ev db good)
