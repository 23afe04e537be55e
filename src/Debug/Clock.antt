-- ===== src/Debug/Clock.antt =====
-- app/routers/debug.py: what a set clock means to later requests and jobs, and that the routes run
-- the jobs that the scheduler runs.
use office_attendance_backen.Base.{
  ◌≡◌, ◌∙◌, refl, ap, arith, String, str_eq, true, false, Option, none, some, [], Option-cases,
  Bool-cases, inl, inr, if◌then◌else◌,
}
use office_attendance_backen.Time.{Instant, now_utc}
use office_attendance_backen.Model.{Db}
use office_attendance_backen.World.{World, AwareTime, aware}
use office_attendance_backen.Session.{
  Result, Result-cases, Session, request, ok, err, not_found, unprocessable,
}
use office_attendance_backen.Ip.{truthy}
use office_attendance_backen.Deps.{require_dev_mode}
use office_attendance_backen.Nightly.{run_nightly_resolution}
use office_attendance_backen.Scheduler.{
  Outcome, done, failed, settle, run_locked, get_time_override, set_time_override_db, job_nightly,
  job_idle_checkout,
}
use office_attendance_backen.Debug.{
  request_now, instant_of, parsed_iso, set_time, get_time, run_nightly, run_idle,
}

-- What the request leaves of a clock, from what the payload stands for.
abbrev pub set_result :
    World → Db → Instant → Option (Option AwareTime) → Result (Option Instant × Instant) × Db
set_result w db clock none = (err unprocessable, db)
set_result w db clock (some dt) =
    (ok (instant_of dt, now_utc (instant_of dt) clock), set_time_override_db w dt db)

request-set_time :
    (w : World) (clock : Instant) (iso : Option String) (db : Db)
    → request (set_time w clock iso) db ≡ (
        if w.settings.dev_mode
        then set_result w db clock (parsed_iso w (truthy iso))
        else (err not_found, db))
unfolding set_time require_dev_mode
request-set_time w clock iso db = elim (Bool-cases w.settings.dev_mode) [
  | inr production ↦ ground arith
  | inl dev ↦ elim (Option-cases (parsed_iso w (truthy iso))) [
    | inl refused ↦ ground arith
    | inr (dt, e) ↦ ground arith
  ]
]

-- `fromisoformat` reads what `isoformat` writes of the time, which is not empty.
abbrev pub IsWritten : World → Option AwareTime → Type 0
IsWritten w none = Unit {0}
IsWritten w (some t) =
    (w.from_iso (w.isoformat t) ≡ some (aware t)) × (str_eq (w.isoformat t) "" ≡ false)

get_time_override-set :
    (w : World) (dt : Option AwareTime) (db : Db)
    → IsWritten w dt
    → get_time_override w (set_time_override_db w dt db) ≡ instant_of dt
unfolding set_time_override_db get_time_override
get_time_override-set w none db h = refl
get_time_override-set w (some t) db h = rw (h.1, h.0) refl

request_now-set :
    (w : World) (dt : Option AwareTime) (db : Db) (clock : Instant)
    → w.settings.dev_mode ≡ true
    → IsWritten w dt
    → request_now w (set_time_override_db w dt db) clock ≡ now_utc (instant_of dt) clock
unfolding request_now
request_now-set w dt db clock dev h = let kept = get_time_override-set w dt db h in ground arith

get_time-set :
    (w : World) (dt : Option AwareTime) (db : Db) (clock : Instant)
    → w.settings.dev_mode ≡ true
    → IsWritten w dt
    → (request (get_time w clock) (set_time_override_db w dt db)).0
      ≡ ok (instant_of dt, now_utc (instant_of dt) clock)
unfolding get_time require_dev_mode
get_time-set w dt db clock dev h =
    let now = request_now-set w dt db clock dev h in
    ground (arith, now, get_time_override-set w dt db h)

-- In DEV_MODE, a clock that is set to an aware time, or cleared by an empty text or none, changes the
-- override alone; every later reading of the clock by a request, which parses the text in app_state, is
-- then the instant of that time, or the system's clock if it was cleared, and get_time reports it, if
-- fromisoformat reads what isoformat wrote of the time.
pub set_time_read :
    (w : World) (clock clock' : Instant) (iso : Option String) (dt : Option AwareTime) (db : Db)
    → w.settings.dev_mode ≡ true
    → parsed_iso w (truthy iso) ≡ some dt
    → IsWritten w dt
    → let t = instant_of dt in
      (request (set_time w clock iso) db ≡ (ok (t, now_utc t clock), set_time_override_db w dt db))
      × (request_now w (request (set_time w clock iso) db).1 clock' ≡ now_utc t clock')
      × ((request (get_time w clock') (request (set_time w clock iso) db).1).0
          ≡ ok (t, now_utc t clock'))
set_time_read w clock clock' iso dt db dev parsed written =
    let whole : request (set_time w clock iso) db
        ≡ (ok (instant_of dt, now_utc (instant_of dt) clock), set_time_override_db w dt db) =
      request-set_time w clock iso db ∙ rw (dev, parsed) in
    let left = ap (λ x. x.1) whole in
    (
      whole,
      ap (λ x. request_now w x clock') left ∙ request_now-set w dt db clock' dev written,
      ap (λ x. (request (get_time w clock') x).0) left ∙ get_time-set w dt db clock' dev written,
    )

-- How a request ends, as a job.
abbrev pub outcome_of {ℓ} : {A : Type ℓ} → Result A × Db → Outcome A × Db
outcome_of (ok a, db) = (done a, db)
outcome_of (err e, db) = (failed e, db)

now_same :
    (w : World) (db : Db) (clock : Instant)
    → w.settings.dev_mode ≡ true
    → request_now w db clock ≡ now_utc (get_time_override w db) clock
unfolding request_now
now_same w db clock dev = rw dev refl

nightly_same :
    (w : World) (clock : Instant) (db : Db)
    → w.settings.dev_mode ≡ true
    → outcome_of (request (run_nightly w clock) db) ≡ job_nightly w [] clock db
unfolding run_nightly job_nightly run_locked settle require_dev_mode
nightly_same w clock db dev =
    let s : Session = record { durable = db; current = db } in
    let now = now_utc (get_time_override w db) clock in
    let same = now_same w db clock dev in
    elim (Result-cases (run_nightly_resolution w now s).0) [
      | inl (stats, e) ↦ ground (arith, same)
      | inr (x, e) ↦ ground (arith, same)
    ]

idle_same :
    (w : World) (clock : Instant) (db : Db)
    → w.settings.dev_mode ≡ true
    → outcome_of (request (run_idle w clock) db) ≡ job_idle_checkout w [] clock db
unfolding run_idle job_idle_checkout run_locked settle require_dev_mode
idle_same w clock db dev = let same = now_same w db clock dev in ground (arith, same)

-- In DEV_MODE the two routes run the scheduler's jobs: their answer and what they leave of the
-- database are those of the jobs with a free lock.
pub run_jobs_same :
    (w : World) (clock : Instant) (db : Db)
    → w.settings.dev_mode ≡ true
    → (outcome_of (request (run_nightly w clock) db) ≡ job_nightly w [] clock db)
      × (outcome_of (request (run_idle w clock) db) ≡ job_idle_checkout w [] clock db)
run_jobs_same w clock db dev = (nightly_same w clock db dev, idle_same w clock db dev)
