-- ===== src/Tests/Seed.antt =====
-- Seeding an office that has been at work: seed.py.
use office_attendance_backen.Base.{◌≡◌, refl, length}
use office_attendance_backen.Session.{request, ok}
use office_attendance_backen.Seed.{
  seed_data, ensure_office, add_office, ensure_rosters, ensure_roster, add_roster, ensure_employees,
  ensure_employee, write_employee,
}
use office_attendance_backen.Seed.Again.{seed_data_twice}
use office_attendance_backen.Tests.Data.{world, clock_at, fresh_db}

seed_data-fresh : length (request (seed_data world (clock_at 500)) fresh_db).1.users.rows ≡ 5
unfolding seed_data ensure_office add_office ensure_rosters ensure_roster add_roster
    ensure_employees ensure_employee write_employee
seed_data-fresh = refl

seed_data_twice_example :
    request (seed_data world (clock_at 900)) (request (seed_data world (clock_at 500)) fresh_db).1
    ≡ (ok tt, (request (seed_data world (clock_at 500)) fresh_db).1)
unfolding seed_data ensure_office add_office ensure_rosters ensure_roster add_roster
    ensure_employees ensure_employee write_employee
seed_data_twice_example = seed_data_twice world (clock_at 500) (clock_at 900) fresh_db refl
