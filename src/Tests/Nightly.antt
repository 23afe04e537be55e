-- ===== src/Tests/Nightly.antt =====
-- The nightly job: app/scheduler.py and app/nightly_service.py.
use office_attendance_backen.Base.{ℕ, ◌≡◌, refl, true, some, [], ◌∷◌}
use office_attendance_backen.Model.{AttendanceDay, Db, DayStatus, on_conflict}
use office_attendance_backen.Presence.{bare_day, upsert_day}
use office_attendance_backen.Presence.Writer.{day_of}
use office_attendance_backen.Nightly.{
  Stats, no_stats, resolve_all, resolve_employee, resolve_day, resolve_working, flag_day,
}
use office_attendance_backen.Nightly.Settled.{day_of-resolve_day}
use office_attendance_backen.Nightly.Totals.{total}
use office_attendance_backen.Nightly.Again.{has_status}
use office_attendance_backen.Scheduler.{skipped, job_nightly, lock_nightly}
use office_attendance_backen.Scheduler.Idempotent.{
  job_nightly_transaction, job_nightly_twice, total-job_nightly, job_nightly_never_absent,
}
use office_attendance_backen.Tests.Data.{
  karachi, world, today, at_minute, lahore, day_shift, office_db, fresh_db,
}

-- Twenty to midnight.
abbrev night : ℕ
night = at_minute 1420

abbrev flagged_db : Db
flagged_db = (job_nightly world [] night fresh_db).1

abbrev one_flag : Stats
one_flag = record { off_day = 0; closed = 0; flagged = 1; already = 0 }

job_nightly_transaction_example :
    job_nightly world (lock_nightly ∷ []) night fresh_db ≡ (skipped, fresh_db)
job_nightly_transaction_example = job_nightly_transaction world (lock_nightly ∷ []) night fresh_db

job_nightly_twice_example :
    (job_nightly world [] night flagged_db).1.days.rows ≡ flagged_db.days.rows
unfolding job_nightly resolve_all resolve_employee resolve_day resolve_working
job_nightly_twice_example = job_nightly_twice world [] [] night fresh_db flagged_db one_flag refl

total-job_nightly_example : total one_flag ≡ 1
unfolding job_nightly resolve_all resolve_employee resolve_day resolve_working
total-job_nightly_example = total-job_nightly world [] night fresh_db flagged_db one_flag refl

-- A day that an admin has marked absent.
abbrev absent_row : AttendanceDay
absent_row = bare_day 1 2 739699 DayStatus.absent

job_nightly_never_absent_example :
    has_status DayStatus.absent (day_of 2 739699 (office_db (absent_row ∷ []))) ≡ true
unfolding job_nightly resolve_all resolve_employee resolve_day resolve_working flag_day upsert_day
    on_conflict
job_nightly_never_absent_example =
    job_nightly_never_absent DayStatus.absent world [] night 2 739699 (office_db (absent_row ∷ []))
      refl refl

day_of-resolve_day_example :
    day_of 2 today (resolve_day karachi night 2 day_shift lahore no_stats fresh_db).1
    ≡ some (bare_day 7 2 today DayStatus.flagged)
day_of-resolve_day_example = day_of-resolve_day karachi night 2 day_shift lahore no_stats fresh_db
