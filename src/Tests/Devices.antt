-- ===== src/Tests/Devices.antt =====
-- A second and a third device: app/device_service.py.
use office_attendance_backen.Base.{◌≡◌, refl, arith, none}
use office_attendance_backen.Session.{Session}
use office_attendance_backen.Devices.{register_device}
use office_attendance_backen.Devices.Cap.{IdsUnique, active_count, register_device-count}
use office_attendance_backen.Tests.Data.{world, clock_at, ayesha, fresh_db}

abbrev at_first : Session
at_first = record { durable = fresh_db; current = fresh_db }

-- With the laptop and a phone.
abbrev at_cap : Session
at_cap = (register_device world (clock_at 560) ayesha none "phone" at_first).1

cap_ids : IdsUnique at_cap.current
unfolding register_device
cap_ids id = ground arith

register_device-count_example :
    active_count 2 (register_device world (clock_at 570) ayesha none "tablet" at_cap).1.current ≡ 2
unfolding register_device
register_device-count_example =
    register_device-count world (clock_at 570) ayesha none "tablet" "tablet" at_cap cap_ids refl
