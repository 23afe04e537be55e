-- ===== src/Scheduler.antt =====
-- app/scheduler.py and app/app_state.py: a job as one transaction under an advisory lock, and the
-- clock override that the processes share.
pub mod Idempotent
pub mod Process
use office_attendance_backen.Base.{
  ℕ, Bool, true, false, Option, none, some, List, String, str_eq, if◌then◌else◌,
}
use office_attendance_backen.Time.{Instant, now_utc}
use office_attendance_backen.Model.{Db}
use office_attendance_backen.World.{World, AwareTime, naive, aware}
use office_attendance_backen.Session.{
  HttpError, Result, ok, err, Session, Action, pure, execute, modify, commit, rollback, request,
  ◌>>=◌, ◌>>◌,
}
use office_attendance_backen.Presence.{elem_ℕ}
use office_attendance_backen.Nightly.{Stats, run_idle_checkout, run_nightly_resolution}

-- `LOCK_IDLE_CHECKOUT` and `LOCK_NIGHTLY`
abbrev pub lock_idle_checkout : ℕ
lock_idle_checkout = 911001

abbrev pub lock_nightly : ℕ
lock_nightly = 911002

-- `datetime.fromisoformat(iso) if iso else None`. The one writer of the row writes what `isoformat`
-- makes of an aware time; another text, for which the code raises, is read as no override.
abbrev pub stored_time : World → String → Option Instant
stored_time w iso = if str_eq iso "" then none else elim (w.from_iso iso) [
  | none ↦ none
  | some time ↦ elim time [ naive ↦ none | aware t ↦ some t.instant ]
]

-- app_state.py `get_time_override`: no row and a null value are no override.
unfoldable pub get_time_override : World → Db → Option Instant
get_time_override w db = elim db.time_override [
  | none ↦ none
  | some value ↦ elim value [ none ↦ none | some iso ↦ stored_time w iso ]
]

abbrev written_time : World → Option AwareTime → Option String
written_time w none = none
written_time w (some t) = some (w.isoformat t)

-- app_state.py `set_time_override_db`: an upsert of the one row.
unfoldable pub set_time_override_db : World → Option AwareTime → Db → Db
set_time_override_db w dt db = record db { time_override = some (written_time w dt) }

pub data Outcome {ℓ} (A : Type ℓ) : Type ℓ where
  skipped : Outcome A
  done : A → Outcome A
  failed : HttpError → Outcome A

-- How the `try` of `run_locked` ends.
unfoldable pub settle {ℓ} : {A : Type ℓ} → Result A × Session → Outcome A × Db
settle (ok a, s) = (done a, (commit s).1.durable)
settle (err e, s) = (failed e, (rollback s).1.durable)

-- `run_locked`, with the keys that other transactions hold and a reading of the clock. The lock
-- is let go by the end of the transaction, on every path.
unfoldable pub run_locked {ℓ} :
    {A : Type ℓ} → World → List ℕ → Instant → ℕ → (Instant → Action A) → Db → Outcome A × Db
unfolding settle get_time_override now_utc
run_locked w held clock lock_key body db =
    if elem_ℕ lock_key held
    then (skipped, db)
    else settle
        (body (now_utc (get_time_override w db) clock) (record { durable = db; current = db }))

unfoldable pub job_idle_checkout : World → List ℕ → Instant → Db → Outcome ℕ × Db
unfolding run_locked run_idle_checkout
job_idle_checkout w held clock =
    run_locked w held clock lock_idle_checkout (λ now. execute (run_idle_checkout w now))

unfoldable pub job_nightly : World → List ℕ → Instant → Db → Outcome Stats × Db
unfolding run_locked run_nightly_resolution
job_nightly w held clock = run_locked w held clock lock_nightly (run_nightly_resolution w)
