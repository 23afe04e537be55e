-- ===== src/Scheduler/Process.antt =====
-- app/scheduler.py `start_scheduler` and `stop_scheduler`, and app/scheduler_main.py `main`: the process
-- that runs the jobs. APScheduler is a parameter, and so are the moments at which it runs a job.
use office_attendance_backen.Base.{
  ℕ, Bool, false, List, [], ◌∷◌, if◌then◌else◌, ◌≡◌, ◌⊎◌, inl, inr, arith, Bool-cases,
}
use office_attendance_backen.Time.{Instant}
use office_attendance_backen.Model.{Db}
use office_attendance_backen.World.{World}
use office_attendance_backen.Scheduler.{job_idle_checkout, job_nightly}
use office_attendance_backen.Days.{DaysOk}
use office_attendance_backen.Days.Jobs.{job_idle_checkout-DaysOk, job_nightly-DaysOk}

pub data Job : Type 0 where
  idle_checkout nightly : Job

-- A field of a cron expression: not given, a number, `*/n`.
pub data CronField : Type 0 where
  unset : CronField
  at every : ℕ → CronField

pub record CronTrigger : Type 0 where
  pub hour : CronField
  pub minute : CronField

-- What the process calls of an `AsyncIOScheduler`; `add_job` is with `replace_existing=True`.
pub record AsyncIoScheduler (S : Type 0) : Type 0 where
  pub add_job : Job → CronTrigger → S → S
  pub start : S → S
  pub shutdown : S → S
  pub running : S → Bool

-- A job that is due: the locks that other transactions hold and a reading of the clock.
pub record Due : Type 0 where
  pub job : Job
  pub held : List ℕ
  pub clock : Instant

unfoldable pub run_due : World → Due → Db → Db
run_due w d db = elim d.job [
  | idle_checkout ↦ (job_idle_checkout w d.held d.clock db).1
  | nightly ↦ (job_nightly w d.held d.clock db).1
]

unfoldable pub run_all_due : World → List Due → Db → Db
unfolding run_due
run_all_due w [] db = db
run_all_due w (d ∷ ds) db = run_all_due w ds (run_due w d db)

-- How the process ends: `SystemExit(1)`, or after a signal.
pub data Ending : Type 0 where
  refused stopped : Ending

module _ {S : Type 0} (aps : AsyncIoScheduler S) where
  unfoldable pub start_scheduler : S → S
  start_scheduler s =
      let s' = aps.add_job idle_checkout (record { hour = unset; minute = every 15 }) s in
      aps.start (aps.add_job nightly (record { hour = at 23; minute = at 55 }) s')

  unfoldable pub stop_scheduler : S → S
  stop_scheduler s = if aps.running s then aps.shutdown s else s

  -- `main`, with the jobs that come due until the signal. They run only in this process.
  unfoldable pub main : World → List Due → S × Db → Ending × S × Db
  unfolding start_scheduler stop_scheduler run_all_due
  main w due (s, db) =
      if w.settings.run_scheduler
      then (stopped, stop_scheduler (start_scheduler s), run_all_due w due db)
      else (refused, s, db)

run_all_due-DaysOk :
    (w : World) (due : List Due) (db : Db) → DaysOk db.days → DaysOk (run_all_due w due db).days
unfolding run_all_due run_due
run_all_due-DaysOk w [] db good = good
run_all_due-DaysOk w (d ∷ ds) db good =
    run_all_due-DaysOk w ds (run_due w d db)
      (elim d.job as (λ job. DaysOk (run_due w (record d { job = job }) db).days) [
        | idle_checkout ↦ job_idle_checkout-DaysOk w d.held d.clock db good
        | nightly ↦ job_nightly-DaysOk w d.held d.clock db good
      ])

-- A process without RUN_SCHEDULER refuses to start and runs no job, whatever comes due. One with it
-- leaves the table of days coherent, and its scheduler is not running when it ends, if shutting a
-- scheduler down stops it.
main_ends :
    {S : Type 0} (aps : AsyncIoScheduler S) (w : World) (due : List Due) (s : S) (db : Db)
    → ((x : S) → aps.running (aps.shutdown x) ≡ false)
    → DaysOk db.days
    → ((w.settings.run_scheduler ≡ false) × (main aps w due (s, db) ≡ (refused, s, db)))
      ⊎ ((s' : S) × (db' : Db) × (main aps w due (s, db) ≡ (stopped, s', db'))
          × (aps.running s' ≡ false)
          × DaysOk db'.days)
unfolding main stop_scheduler
main_ends aps w due s db stops good = elim (Bool-cases w.settings.run_scheduler) [
  | inr off ↦ inl (off, ground arith)
  | inl on ↦
      let started = start_scheduler aps s in
      inr (
        stop_scheduler aps started,
        run_all_due w due db,
        ground arith,
        ground (arith, stops started),
        run_all_due-DaysOk w due db good,
      )
]
