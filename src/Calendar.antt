-- ===== src/Calendar.antt =====
-- The proleptic Gregorian calendar of Python's `datetime.date` and `calendar.monthrange`, which
-- app/routers/reports.py calls.
use Prim.Native.Nat.{zero}
use office_attendance_backen.Base.{
  ℕ, ◌+◌, ◌-◌, ◌*◌, ◌/◌, ◌%◌, ◌==◌, ◌&&◌, ◌||◌, ◌≡◌, suc, not, leb, Bool, true, arith, ap, refl,
  sym, subst, ==_iff, Bool-cases, inl, inr, if◌then◌else◌,
}
use office_attendance_backen.Time.{Date}

abbrev is_leap : ℕ → Bool
is_leap y = y % 4 == 0 && (not (y % 100 == 0) || y % 400 == 0)

-- `monthrange(year, month)[1]`
unfoldable pub days_in_month : ℕ → ℕ → ℕ
days_in_month y m =
    if m == 2
    then (if is_leap y then 29 else 28)
    else if m == 4 || m == 6 || m == 9 || m == 11
    then 30
    else 31

-- The days of the months of the year before month `m + 1`.
unfoldable days_before_month : ℕ → ℕ → ℕ
unfolding days_in_month
days_before_month y zero = 0
days_before_month y (suc m) = days_before_month y m + days_in_month y (suc m)

-- The days before 1 January of year `y + 1`.
abbrev days_before_year : ℕ → ℕ
days_before_year y = y * 365 + y / 4 - y / 100 + y / 400

-- `date(year, month, 1)` of a year and a month that are there.
unfoldable pub first_of : ℕ → ℕ → Date
unfolding days_before_month
first_of y m = days_before_year (y - 1) + days_before_month y (m - 1)

-- Whether `date(year, month, 1)` raises no ValueError.
abbrev pub is_month : ℕ → ℕ → Bool
is_month y m = leb 1 y && leb y 9999 && leb 1 m && leb m 12

-- One more day in a leap year.
leap_day : ℕ → ℕ
leap_day y = if is_leap y then 1 else 0

year_step : (k : ℕ) → days_before_year (suc k) ≡ days_before_year k + 365 + leap_day (suc k)
unfolding leap_day
year_step k = ground arith

year_length : (y : ℕ) → days_before_month y 12 ≡ 365 + leap_day y
unfolding days_before_month days_in_month leap_day
year_length y = ground arith

suc_pred : (k : ℕ) → suc k - 1 ≡ k
suc_pred k = omega arith

before_first : (y m : ℕ) → first_of y (suc m) ≡ days_before_year (y - 1) + days_before_month y m
unfolding first_of
before_first y m = ap (λ k. days_before_year (y - 1) + days_before_month y k) (omega arith)

through_month :
    (y m : ℕ) → days_before_month y (suc m) ≡ days_before_month y m + days_in_month y (suc m)
unfolding days_before_month
through_month y m = refl

before_january : (y : ℕ) → first_of (suc y) 1 ≡ days_before_year y
unfolding first_of days_before_month
before_january y = ground arith

december : (k : ℕ) → first_of (suc k) 12 + days_in_month (suc k) 12 ≡ first_of (suc (suc k)) 1
december k = omega (
  arith,
  before_first (suc k) 11,
  through_month (suc k) 11,
  before_january (suc k),
  year_length (suc k),
  year_step k,
  ap days_before_year (suc_pred k),
)

-- The month after this one begins with the day after its last.
pub first_of-next :
    (y m : ℕ)
    → is_month y m ≡ true
    → first_of y m + days_in_month y m
      ≡ (if m == 12 then first_of (suc y) 1 else first_of y (suc m))
first_of-next zero m h = ground arith
first_of-next (suc k) zero h = ground arith
first_of-next (suc k) (suc j) h = elim (Bool-cases (suc j == 12)) [
  | inl last ↦ rw last (
      subst (λ m. first_of (suc k) m + days_in_month (suc k) m ≡ first_of (suc (suc k)) 1)
        (sym ((==_iff (suc j) 12).0 last)) (december k))
  | inr other ↦
      rw other (
        omega
          (arith, before_first (suc k) j, before_first (suc k) (suc j), through_month (suc k) j))
]
