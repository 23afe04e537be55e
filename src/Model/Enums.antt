-- ===== src/Model/Enums.antt =====
-- app/models.py: the columns that a CHECK constraint restricts to a few words.
use office_attendance_backen.Base.{ℕ, Bool, true, false, ◌≡◌, refl, ◌==◌, arith}

pub data Role : Type 0 where
  admin employee : Role

pub data UserStatus : Type 0 where
  pending active rejected disabled : UserStatus

pub data DeviceStatus : Type 0 where
  active revoked : DeviceStatus

pub data DayStatus : Type 0 where
  present late flagged absent leave off_day : DayStatus

pub data Method : Type 0 where
  wifi gps manual : Method

pub data Verification : Type 0 where
  verified gps_pending : Verification

pub data AttemptResult : Type 0 where
  success ip_no_match outside_radius low_accuracy before_shift after_shift off_day : AttemptResult
  already_checked_in : AttemptResult

abbrev pub is_employee : Role → Bool
is_employee employee = true
is_employee admin = false

abbrev pub is_admin : Role → Bool
is_admin admin = true
is_admin employee = false

abbrev user_status_index : UserStatus → ℕ
user_status_index UserStatus.pending = 0
user_status_index UserStatus.active = 1
user_status_index UserStatus.rejected = 2
user_status_index UserStatus.disabled = 3

abbrev pub user_status_eq : UserStatus → UserStatus → Bool
user_status_eq a b = user_status_index a == user_status_index b

abbrev pub is_active_device : DeviceStatus → Bool
is_active_device DeviceStatus.active = true
is_active_device DeviceStatus.revoked = false

abbrev day_status_index : DayStatus → ℕ
day_status_index DayStatus.present = 0
day_status_index DayStatus.late = 1
day_status_index DayStatus.flagged = 2
day_status_index DayStatus.absent = 3
day_status_index DayStatus.leave = 4
day_status_index DayStatus.off_day = 5

abbrev pub day_status_eq : DayStatus → DayStatus → Bool
day_status_eq a b = day_status_index a == day_status_index b

abbrev pub is_wifi : Method → Bool
is_wifi wifi = true
is_wifi _ = false

abbrev pub is_gps : Method → Bool
is_gps gps = true
is_gps _ = false

abbrev pub is_gps_pending : Verification → Bool
is_gps_pending gps_pending = true
is_gps_pending verified = false

pub day_status_eq_refl : (a : DayStatus) → day_status_eq a a ≡ true
day_status_eq_refl DayStatus.present = refl
day_status_eq_refl _ = refl

pub eq_of_user_status_eq : (a b : UserStatus) → user_status_eq a b ≡ true → a ≡ b
eq_of_user_status_eq a b h = ground arith
