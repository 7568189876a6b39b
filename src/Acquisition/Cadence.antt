-- ===== src/Acquisition/Cadence.antt =====
-- packages/core-acquisition/src/cadence.ts: when the next touch is due.
pub mod Days
pub mod Plans
use ai_client_acquisition_os.Common.{
  ℕ, zero, suc, ◌+◌, ◌-◌, ◌*◌, ◌/◌, ◌%◌, Bool, true, false, not, ◌||◌, List, [], ◌∷◌, Option, none,
  some, ltb, leb, ◌==◌, if◌then◌else◌, get_elem?, length,
}

abbrev pub follow_up_spacing_days : List ℕ
follow_up_spacing_days = 3 ∷ 5 ∷ 8 ∷ 13 ∷ []

abbrev pub max_follow_ups : ℕ
max_follow_ups = length follow_up_spacing_days

abbrev pub day_ms : ℕ
day_ms = 24 * 60 * 60 * 1000

-- `getUTCDay`: the first day of the epoch was a Thursday.
abbrev pub utc_day : ℕ → ℕ
utc_day time = (time / day_ms + 4) % 7

abbrev pub is_weekend : ℕ → Bool
is_weekend time = (utc_day time == 0) || (utc_day time == 6)

unfoldable pub next_business_day : ℕ → ℕ
next_business_day date =
    if utc_day date == 6
    then date + 2 * day_ms
    else if utc_day date == 0
    then date + day_ms
    else date

-- The loop of `addBusinessDays`; `none` means that the fuel ran out.
unfoldable pub add_business_days_loop : ℕ → ℕ → ℕ → Option ℕ
add_business_days_loop zero time remaining = none
add_business_days_loop (suc fuel) time remaining =
    let rest =
      add_business_days_loop fuel (time + day_ms)
        (if is_weekend (time + day_ms) then remaining else remaining - 1) in
    if ltb 0 remaining then rest else some time

-- No weekend is longer than two days, so three rounds a day are enough.
unfoldable pub add_business_days : ℕ → ℕ → Option ℕ
unfolding add_business_days_loop
add_business_days from days = add_business_days_loop (3 * days + 1) from days

pub record FollowUpPlan : Type 0 where
  pub attempt : ℕ
  pub due_at : ℕ
  pub should_send : Bool

abbrev scheduled : ℕ → Option ℕ → Option FollowUpPlan
scheduled attempt none = none
scheduled attempt (some time) =
    some (record { attempt = attempt; due_at = next_business_day time; should_send = true })

abbrev spaced : ℕ → ℕ → Option ℕ → Option FollowUpPlan
unfolding next_business_day add_business_days
spaced last_touch_at attempt none = none
spaced last_touch_at attempt (some spacing) =
    scheduled attempt (add_business_days last_touch_at spacing)

-- `none` where the source throws: attempts count from 1.
unfoldable pub plan_follow_up : ℕ → ℕ → Option FollowUpPlan
unfolding spaced
plan_follow_up last_touch_at attempt =
    if ltb attempt 1
    then none
    else if ltb max_follow_ups attempt
    then some (record { attempt = attempt; due_at = last_touch_at; should_send = false })
    else spaced last_touch_at attempt (get_elem? follow_up_spacing_days (attempt - 1))

abbrev pub cons_plan : FollowUpPlan → Option (List FollowUpPlan) → Option (List FollowUpPlan)
cons_plan plan none = none
cons_plan plan (some plans) = some (plan ∷ plans)

abbrev pub after_plan :
    (ℕ → Option (List FollowUpPlan)) → Option FollowUpPlan → Option (List FollowUpPlan)
after_plan rest none = none
after_plan rest (some plan) = cons_plan plan (rest plan.due_at)

-- The rounds of `fullSequence`: how many are left, the attempt and the cursor.
unfoldable pub sequence_from : ℕ → ℕ → ℕ → Option (List FollowUpPlan)
unfolding plan_follow_up
sequence_from zero attempt cursor = some []
sequence_from (suc n) attempt cursor =
    after_plan (sequence_from n (attempt + 1)) (plan_follow_up cursor attempt)

unfoldable pub full_sequence : ℕ → Option (List FollowUpPlan)
unfolding sequence_from
full_sequence first_touch_at = sequence_from max_follow_ups 1 first_touch_at

pub data FollowUpStatus : Type 0 where
  scheduled_touch sent cancelled superseded : FollowUpStatus

abbrev pub should_cancel_on_reply : FollowUpStatus → Bool
should_cancel_on_reply scheduled_touch = true
should_cancel_on_reply sent = false
should_cancel_on_reply cancelled = false
should_cancel_on_reply superseded = false
