-- ===== src/Acquisition/Cadence/Plans.antt =====
-- packages/core-acquisition/src/cadence.ts: the plan of an attempt, and of the whole sequence.
use ai_client_acquisition_os.Common.{
  ℕ, zero, suc, ◌+◌, ◌-◌, ◌*◌, ◌≤◌, ◌≡◌, refl, ap, ◌∙◌, true, false, List, [], ◌∷◌, some, get_elem?,
  arith,
}
use ai_client_acquisition_os.Acquisition.Cadence.{
  day_ms, is_weekend, FollowUpPlan, plan_follow_up, next_business_day, spaced,
  follow_up_spacing_days, max_follow_ups, full_sequence, sequence_from, after_plan,
}
use ai_client_acquisition_os.Acquisition.Cadence.Days.{business_days, add_business_days_counts}

-- The touch of an attempt: on a business day, `spacing` business days after the one before.
abbrev pub DueAfter : ℕ → ℕ → FollowUpPlan → Type 0
DueAfter touch attempt plan =
    (spacing n : ℕ) × (get_elem? follow_up_spacing_days (attempt - 1) ≡ some spacing)
    × (plan.attempt ≡ attempt)
    × (plan.should_send ≡ true)
    × (plan.due_at ≡ touch + n * day_ms)
    × (business_days touch n ≡ spacing)
    × (is_weekend plan.due_at ≡ false)

next_business_day_kept : (time : ℕ) → is_weekend time ≡ false → next_business_day time ≡ time
unfolding next_business_day
next_business_day_kept time h = ground arith

spaced_due :
    (touch attempt spacing : ℕ)
    → 1 ≤ spacing
    → get_elem? follow_up_spacing_days (attempt - 1) ≡ some spacing
    → (plan : FollowUpPlan) × (spaced touch attempt (some spacing) ≡ some plan)
      × DueAfter touch attempt plan
unfolding spaced
spaced_due touch attempt spacing h found =
    let (end, n, e, there, counted, few, ends) = add_business_days_counts touch spacing in
    let kept = next_business_day_kept end (ends h) in
    (
      record { attempt = attempt; due_at = next_business_day end; should_send = true },
      rw e refl,
      (spacing, n, found, refl, refl, kept ∙ there, counted, rw kept (ends h)),
    )

pub plan_follow_up_due :
    (touch attempt : ℕ)
    → 1 ≤ attempt
    → attempt ≤ 4
    → (plan : FollowUpPlan) × (plan_follow_up touch attempt ≡ some plan)
      × DueAfter touch attempt plan
unfolding plan_follow_up
plan_follow_up_due touch zero l h = absurd (omega arith)
plan_follow_up_due touch (suc zero) l h = spaced_due touch 1 3 (omega arith) refl
plan_follow_up_due touch (suc (suc zero)) l h = spaced_due touch 2 5 (omega arith) refl
plan_follow_up_due touch (suc (suc (suc zero))) l h = spaced_due touch 3 8 (omega arith) refl
plan_follow_up_due touch (suc (suc (suc (suc zero)))) l h = spaced_due touch 4 13 (omega arith) refl
plan_follow_up_due touch (suc (suc (suc (suc (suc n))))) l h = absurd (omega arith)

-- The plans that follow from a touch, up to the last attempt.
abbrev pub Chained : ℕ → ℕ → List FollowUpPlan → Type 0
Chained attempt touch [] = attempt ≡ max_follow_ups + 1
Chained attempt touch (plan ∷ plans) =
    DueAfter touch attempt plan × Chained (attempt + 1) plan.due_at plans

sequence_from-Chained :
    (left attempt touch : ℕ)
    → 1 ≤ attempt
    → attempt + left ≡ 5
    → (plans : List FollowUpPlan) × (sequence_from left attempt touch ≡ some plans)
      × Chained attempt touch plans
unfolding sequence_from
sequence_from-Chained zero attempt touch l e = ([], refl, omega arith)
sequence_from-Chained (suc left) attempt touch l e =
    let (plan, planned, due) = plan_follow_up_due touch attempt l (omega arith) in
    let (plans, rest, chained) =
      sequence_from-Chained left (attempt + 1) plan.due_at (omega arith) (omega arith) in
    (
      plan ∷ plans,
      ap (after_plan (sequence_from left (attempt + 1))) planned ∙ rw rest refl,
      (due, chained),
    )

-- Whenever the opening message was sent, the whole sequence can be planned: one touch for each
-- attempt from 1 to 4, the first after the message and each next one after the touch before, each on
-- a business day and exactly 3, 5, 8 and 13 business days later.
pub full_sequence-Chained :
    (first_touch_at : ℕ)
    → (plans : List FollowUpPlan) × (full_sequence first_touch_at ≡ some plans)
      × Chained 1 first_touch_at plans
unfolding full_sequence
full_sequence-Chained first_touch_at =
    sequence_from-Chained 4 1 first_touch_at (omega arith) (omega arith)
