-- ===== src/Tests/Debug.antt =====
-- The clock of a development server: app/routers/debug.py.
use office_attendance_backen.Base.{◌≡◌, refl, true, some, none, []}
use office_attendance_backen.Time.{now_utc}
use office_attendance_backen.World.{World, AwareTime}
use office_attendance_backen.Numerals.{pos}
use office_attendance_backen.Session.{request, ok, err, not_found}
use office_attendance_backen.Scheduler.{job_nightly, job_idle_checkout, set_time_override_db}
use office_attendance_backen.Deps.{require_dev_mode}
use office_attendance_backen.Debug.{request_now, set_time, get_time, run_nightly, run_idle}
use office_attendance_backen.Debug.Clock.{outcome_of, set_time_read, run_jobs_same}
use office_attendance_backen.Tests.Data.{world, at_minute, fresh_db}

abbrev dev_world : World
dev_world = record world { settings = record world.settings { dev_mode = true } }

set_time-production : (request (set_time world 0 none) fresh_db).0 ≡ err not_found
unfolding set_time require_dev_mode
set_time-production = refl

-- 15:00 in Karachi.
abbrev karachi_time : AwareTime
karachi_time = record { instant = at_minute 600; utc_offset = pos 18000000000 }

set_time_read_example :
    (request (set_time dev_world 0 (some "2026-03-26T15:00:00+05:00")) fresh_db ≡ (
      ok (some (at_minute 600), at_minute 600),
      set_time_override_db dev_world (some karachi_time) fresh_db,
    ))
    × (request_now dev_world
          (request (set_time dev_world 0 (some "2026-03-26T15:00:00+05:00")) fresh_db).1
          5
        ≡ at_minute 600)
    × ((request
          (get_time dev_world 5)
          (request (set_time dev_world 0 (some "2026-03-26T15:00:00+05:00")) fresh_db).1).0
        ≡ ok (some (at_minute 600), at_minute 600))
unfolding now_utc
set_time_read_example =
    set_time_read dev_world 0 5 (some "2026-03-26T15:00:00+05:00") (some karachi_time) fresh_db refl
      refl (refl, refl)

run_jobs_same_example :
    (outcome_of (request (run_nightly dev_world (at_minute 1420)) fresh_db)
      ≡ job_nightly dev_world [] (at_minute 1420) fresh_db)
    × (outcome_of (request (run_idle dev_world (at_minute 1420)) fresh_db)
        ≡ job_idle_checkout dev_world [] (at_minute 1420) fresh_db)
run_jobs_same_example = run_jobs_same dev_world (at_minute 1420) fresh_db refl
