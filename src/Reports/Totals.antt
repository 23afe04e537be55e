-- ===== src/Reports/Totals.antt =====
-- app/routers/reports.py: the counts of a line account for every day of the month, once.
use Prim.Native.Nat.{zero}
use office_attendance_backen.Base.{
  ℕ, suc, ◌+◌, ◌-◌, ◌==◌, ◌&&◌, ◌||◌, ◌≡◌, ◌∙◌, ◌≤◌, leb, ltb, subst, refl, ap, arith, Bool, true,
  false, List, [], ◌∷◌, All, map, count_where, String, if◌then◌else◌, inl, inr, some, Option-cases,
}
use office_attendance_backen.Time.{Date}
use office_attendance_backen.Calendar.{first_of, days_in_month, is_month, first_of-next}
use office_attendance_backen.Numerals.{ℤ, pos, negsuc, int_of}
use office_attendance_backen.Model.{User, AttendanceDay, Db, DayStatus, day_status_eq, is_day}
use office_attendance_backen.World.{World}
use office_attendance_backen.Session.{Result-cases, request, ok}
use office_attendance_backen.Reports.{
  MonthlyReportRow, within, two, split_dash, month_span, month_bounds, build_report, bounds_at,
  employees_by_name,
}
use office_attendance_backen.Reports.Counts.{counted, direct_row, build_report_lem}

-- `uq_attendance_days_user_date`
abbrev pub DaysUnique : Db → Type 0
DaysUnique db = (u : ℕ) (d : Date) → count_where (is_day u d) db.days.rows ≤ 1

module _ {ℓ} {A : Type ℓ} where
  -- Rows that pass one of two tests.
  count_where-either :
      (p q r : A → Bool) (xs : List A)
      → ((x : A) → p x ≡ true → (q x || r x) ≡ true)
      → count_where p xs ≤ count_where q xs + count_where r xs
  count_where-either p q r [] h = omega arith
  count_where-either p q r (x ∷ xs) h = ground (arith, h x, count_where-either p q r xs h)

  count_where-less :
      (p q : A → Bool) (xs : List A)
      → ((x : A) → p x ≡ true → q x ≡ true)
      → count_where p xs ≤ count_where q xs
  count_where-less p q [] h = omega arith
  count_where-less p q (x ∷ xs) h = ground (arith, h x, count_where-less p q xs h)

no_rows :
    (p : AttendanceDay → Bool) (xs : List AttendanceDay)
    → ((x : AttendanceDay) → p x ≡ false)
    → count_where p xs ≡ 0
no_rows p [] h = refl
no_rows p (x ∷ xs) h = ground (arith, h x, no_rows p xs h)

-- A day of the user among `n` dates.
abbrev among : ℕ → Date → ℕ → AttendanceDay → Bool
among u start n d = d.user_id == u && (leb start d.date && ltb d.date (start + n))

days_among :
    (db : Db) (u : ℕ) (start : Date) (n : ℕ)
    → DaysUnique db
    → count_where (among u start n) db.days.rows ≤ n
days_among db u start zero unique =
    omega (arith, no_rows (among u start zero) db.days.rows (λ x. ground arith))
days_among db u start (suc n) unique =
    let last = is_day u (start + n) in
    omega (
      arith,
      days_among db u start n unique,
      unique u (start + n),
      count_where-either (among u start (suc n)) (among u start n) last db.days.rows
          (λ x h. ground arith),
    )

-- The six statuses of a line.
abbrev pub total : MonthlyReportRow → ℕ
total r = r.present_days + r.late_days + r.flagged_days + r.absent_days + r.leave_days + r.off_days

abbrev is_one : DayStatus → DayStatus → ℕ
is_one s t = if day_status_eq s t then 1 else 0

one_status :
    (s : DayStatus)
    → is_one s DayStatus.present
        + is_one s DayStatus.late
        + is_one s DayStatus.flagged
        + is_one s DayStatus.absent
        + is_one s DayStatus.leave
        + is_one s DayStatus.off_day
      ≡ 1
one_status s = ground arith

abbrev any_status : AttendanceDay → Bool
any_status d = true

module _ (q r : AttendanceDay → Bool) where
  -- How many of the rows that pass two tests have the status.
  abbrev with_status : DayStatus → List AttendanceDay → ℕ
  with_status s rows = count_where (λ d. q d && (r d && day_status_eq d.status s)) rows

  all_statuses :
      (rows : List AttendanceDay)
      → with_status DayStatus.present rows
          + with_status DayStatus.late rows
          + with_status DayStatus.flagged rows
          + with_status DayStatus.absent rows
          + with_status DayStatus.leave rows
          + with_status DayStatus.off_day rows
        ≡ count_where (λ d. q d && (r d && any_status d)) rows
  all_statuses [] = omega arith
  all_statuses (d ∷ rows) = ground (arith, one_status d.status, all_statuses rows)

total-direct_row :
    (db : Db) (span : Date × Date) (emp : User)
    → total (direct_row db span emp) ≡ counted db span emp.id any_status
total-direct_row db span emp = all_statuses (within span) (λ d. d.user_id == emp.id) db.days.rows

bounds_at-month :
    (a b : ℤ) (span : Date × Date)
    → bounds_at a b ≡ some span
    → (y : ℕ) × (m : ℕ) × (a ≡ pos y)
      × (b ≡ pos m)
      × (is_month y m ≡ true)
      × (month_span y m ≡ span)
unfolding bounds_at
bounds_at-month (pos y) (pos m) span h = (y, m, refl, refl, ground arith, ground arith)
bounds_at-month (pos y) (negsuc m) span h = cc
bounds_at-month (negsuc y) (pos m) span h = cc
bounds_at-month (negsuc y) (negsuc m) span h = cc

-- The text names a month: two numbers with a dash between them, a year from 1 to 9999 and a month of it.
abbrev pub Names : String → ℕ → ℕ → Type 0
Names month y m =
    (ys : String) × (ms : String) × (split_dash month ≡ ys ∷ ms ∷ [])
    × (int_of ys ≡ some (pos y))
    × (int_of ms ≡ some (pos m))
    × (is_month y m ≡ true)

two-some : (parts : List String) (a b : String) → two parts ≡ some (a, b) → parts ≡ a ∷ b ∷ []
two-some [] a b h = cc
two-some (x ∷ []) a b h = cc
two-some (x ∷ y ∷ []) a b h = ground arith
two-some (x ∷ y ∷ z ∷ zs) a b h = cc

-- The bounds are those of the month that the text names.
month_bounds-month :
    (month : String) (db : Db) (span : Date × Date)
    → (request (month_bounds month) db).0 ≡ ok span
    → (y : ℕ) × (m : ℕ) × Names month y m × (month_span y m ≡ span)
unfolding month_bounds
month_bounds-month month db span h = elim (Option-cases (two (split_dash month))) [
  | inl unsplit ↦ ground arith
  | inr ((ys, ms), parts) ↦ elim (Option-cases (int_of ys)) [
    | inl bad ↦ ground arith
    | inr (y, year) ↦ elim (Option-cases (int_of ms)) [
      | inl bad ↦ ground arith
      | inr (m, mon) ↦ elim (Option-cases (bounds_at y m)) [
        | inl gone ↦ ground arith
        | inr (found, e) ↦
            let (y', m', ey, em, there, same) = bounds_at-month y m span (e ∙ ground arith) in
            (
              y',
              m',
              (
                ys,
                ms,
                two-some (split_dash month) ys ms parts,
                year ∙ ap some ey,
                mon ∙ ap some em,
                there,
              ),
              same,
            )
      ]
    ]
  ]
]

days_in_month_range : (y m : ℕ) → (28 ≤ days_in_month y m) × (days_in_month y m ≤ 31)
unfolding days_in_month
days_in_month_range y m = (ground arith, ground arith)

counted-month :
    (db : Db) (y m : ℕ) (u : ℕ)
    → DaysUnique db
    → counted db (month_span y m) u any_status ≤ days_in_month y m
counted-month db y m u unique =
    let start = first_of y m in
    let n = days_in_month y m in
    let some_days = (days_in_month_range y m).0 in
    omega (
      arith,
      days_among db u start n unique,
      count_where-less (λ d. within (start, start + (n - 1)) d && (d.user_id == u && any_status d))
          (among u start n) db.days.rows (λ x h. ground arith),
    )

-- A line of the report of a month: its six statuses account for the user's days in the month,
-- which are at most the days that the month has.
abbrev pub IsComplete : Db → Date × Date → ℕ → MonthlyReportRow → Type 0
IsComplete db span days r = (total r ≡ counted db span r.user_id any_status) × (total r ≤ days)

direct_rows-IsComplete :
    (db : Db) (y m : ℕ) (emps : List User)
    → DaysUnique db
    → All
        (IsComplete db (month_span y m) (days_in_month y m))
        (map (direct_row db (month_span y m)) emps)
direct_rows-IsComplete db y m [] unique = tt
direct_rows-IsComplete db y m (emp ∷ emps) unique =
    let sum = total-direct_row db (month_span y m) emp in
    (
      (sum, omega (arith, sum, counted-month db y m emp.id unique)),
      direct_rows-IsComplete db y m emps unique,
    )

-- If there is a report for a text, the text names a month of a year from 1 to 9999. If the table has at
-- most one row for a user and date, the six statuses of each line add up to the number of the user's
-- rows in the month that is named, which is at most the number of its days.
pub build_report_totals :
    (w : World) (month : String) (db : Db) (rows : List MonthlyReportRow)
    → DaysUnique db
    → (request (build_report w month) db).0 ≡ ok rows
    → (y : ℕ) × (m : ℕ) × Names month y m
      × All (IsComplete db (month_span y m) (days_in_month y m)) rows
build_report_totals w month db rows unique h =
    let spec = (build_report_lem w month db).0 in
    elim (Result-cases (request (month_bounds month) db).0) [
      | inr (x, e) ↦ ground arith
      | inl (span, e) ↦
          let (y, m, there, same) = month_bounds-month month db span e in
          let emps = employees_by_name w db in
          let listed : map (direct_row db (month_span y m)) emps ≡ rows = ground arith in
          (
            y,
            m,
            there,
            subst (All (IsComplete db (month_span y m) (days_in_month y m))) listed
                (direct_rows-IsComplete db y m emps unique),
          )
    ]

-- The reports of consecutive months meet: the month after one that has bounds begins with the day
-- after its last, so that no day is left out or reported twice.
pub bounds_at_next :
    (y m : ℕ) (this next : Date × Date)
    → bounds_at (pos y) (pos m) ≡ some this
    → (if m == 12 then bounds_at (pos (suc y)) (pos 1) else bounds_at (pos y) (pos (suc m)))
      ≡ some next
    → next.0 ≡ suc this.1
unfolding bounds_at
bounds_at_next y m this next h k = ground (arith, first_of-next y m, (days_in_month_range y m).0)
