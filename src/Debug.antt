-- ===== src/Debug.antt =====
-- app/routers/debug.py, and the middleware of app/main.py that loads the clock override. Both are
-- there only in DEV_MODE; without it the routes answer 404.
pub mod Clock
use office_attendance_backen.Base.{ℕ, String, Bool, Option, none, some, if◌then◌else◌}
use office_attendance_backen.Time.{Instant, now_utc}
use office_attendance_backen.Model.{Db}
use office_attendance_backen.World.{World, AwareTime, IsoTime, naive, aware}
use office_attendance_backen.Session.{
  Action, unprocessable, pure, gets, or_raise, modify, execute, commit, ◌>>=◌, ◌>>◌,
}
use office_attendance_backen.Ip.{Request, truthy, get_client_ip}
use office_attendance_backen.Deps.{require_dev_mode}
use office_attendance_backen.Nightly.{Stats, run_idle_checkout, run_nightly_resolution}
use office_attendance_backen.Scheduler.{get_time_override, set_time_override_db}

-- `_apply_time_override`: what `now_utc` answers in a request, from the database before it and a
-- reading of the system's clock. Without DEV_MODE there is no override.
unfoldable pub request_now : World → Db → Instant → Instant
request_now w db clock =
    now_utc (if w.settings.dev_mode then get_time_override w db else none) clock

unfoldable pub my_ip : World → Request → Action String
my_ip w req = do require_dev_mode w; pure (get_client_ip w.settings.trust_proxy w.addresses req)

-- The time that `payload.iso` names: `none` where it is refused.
abbrev pub parsed_iso : World → Option String → Option (Option AwareTime)
parsed_iso w none = some none
parsed_iso w (some iso) = elim (w.from_iso iso) [
  | none ↦ none
  | some time ↦ elim time [ naive ↦ none | aware t ↦ some (some t) ]
]

abbrev pub instant_of : Option AwareTime → Option Instant
instant_of none = none
instant_of (some t) = some t.instant

-- The override and `effective_now`.
unfoldable pub set_time : World → Instant → Option String → Action (Option Instant × Instant)
unfolding now_utc
set_time w clock iso = do
  require_dev_mode w
  dt ← or_raise unprocessable (parsed_iso w (truthy iso))
  modify (set_time_override_db w dt)
  commit
  pure (instant_of dt, now_utc (instant_of dt) clock)

unfoldable pub get_time : World → Instant → Action (Option Instant × Instant)
unfolding request_now
get_time w clock = do
  require_dev_mode w
  now ← gets (λ db. request_now w db clock)
  dt ← gets (get_time_override w)
  pure (dt, now)

unfoldable pub run_nightly : World → Instant → Action Stats
unfolding request_now
run_nightly w clock = do
  require_dev_mode w
  now ← gets (λ db. request_now w db clock)
  stats ← run_nightly_resolution w now
  commit
  pure stats

unfoldable pub run_idle : World → Instant → Action ℕ
unfolding request_now
run_idle w clock = do
  require_dev_mode w
  now ← gets (λ db. request_now w db clock)
  closed ← execute (run_idle_checkout w now)
  commit
  pure closed
