-- ===== src/Presence/Shift.antt =====
-- app/presence.py `evaluate_shift` and `_classify`: the phases of a shift, and lateness.
use office_attendance_backen.Base.{◌+◌, ◌≤◌, ◌<◌, ◌≡◌, ◌↔◌, ◌⊎◌, true, false, arith}
use office_attendance_backen.Time.{Instant, Zones, minutes, combine}
use office_attendance_backen.Model.{Office, Roster, DayStatus}
use office_attendance_backen.Presence.{
  Phase, off_day, before_shift, in_shift, after_shift, ShiftEval, evaluate_shift, phase_at,
  classify,
}

-- What each phase says of the instant, apart from the ladder that computes it.
abbrev pub PhaseHolds : ShiftEval → Instant → Phase → Type 0
PhaseHolds ev now off_day = ev.is_working_day ≡ false
PhaseHolds ev now before_shift = (ev.is_working_day ≡ true) × (now < ev.shift_start)
PhaseHolds ev now in_shift =
    (ev.is_working_day ≡ true) × (ev.shift_start ≤ now) × (now ≤ ev.shift_end)
PhaseHolds ev now after_shift =
    (ev.is_working_day ≡ true) × (ev.shift_start ≤ now) × (ev.shift_end < now)

module _ (z : Zones) (office : Office) (roster : Roster) (now : Instant) where
  -- The phase is p exactly when p's own condition holds: a day off; a working day and before the
  -- start; between start and end, both included; from the start on and after the end.
  pub phase-evaluate_shift :
      (p : Phase)
      → let ev = evaluate_shift z office roster now in (ev.phase ≡ p) ↔ PhaseHolds ev now p
  unfolding evaluate_shift phase_at
  phase-evaluate_shift off_day = (λ h. ground arith, λ h. ground arith)
  phase-evaluate_shift before_shift = (λ h. ground arith, λ h. ground arith)
  phase-evaluate_shift in_shift = (λ h. ground arith, λ h. ground arith)
  phase-evaluate_shift after_shift = (λ h. ground arith, λ h. ground arith)

-- A check-in that is classified at or after the start of the shift, in a zone whose clock does not
-- change within the grace period: it is present, with no late minutes, exactly up to the end of the
-- grace period, both included; after it, it is late, by the whole minutes since the start, which are at least the grace.
pub classify_lateness :
    (z : Zones) (office : Office) (roster : Roster) (now at : Instant)
    → let ev = evaluate_shift z office roster now in
      let start = combine ev.local_date roster.start_time in
      z.to_instant office.timezone (start + minutes roster.grace_minutes)
        ≡ z.to_instant office.timezone start + minutes roster.grace_minutes
      → ev.shift_start ≤ at
      → let late = (classify ev at).1 in
        ((classify ev at).0 ≡ DayStatus.present)
          × (late ≡ 0)
          × (at ≤ ev.shift_start + minutes roster.grace_minutes)
        ⊎ ((classify ev at).0 ≡ DayStatus.late)
          × (ev.shift_start + minutes roster.grace_minutes < at)
          × (roster.grace_minutes ≤ late)
          × (ev.shift_start + minutes late ≤ at)
          × (at < ev.shift_start + minutes (late + 1))
unfolding classify evaluate_shift
classify_lateness z office roster now at steady started = ground arith
