-- ===== src/Acquisition/Tests.antt =====
-- An opportunity that is paused on its way to WON, leads in contact, and the theorems at them.
use ai_client_acquisition_os.Common.{
  ℕ, ◌+◌, ◌*◌, ◌≤◌, ◌↔◌, true, false, Bool, not, ◌||◌, ◌=ˢ◌, String, Memᴰ, arith,
}
use ai_client_acquisition_os.Common.Sort.{IsSortedBy}
use ai_client_acquisition_os.Acquisition.Cadence.{
  day_ms, is_weekend, add_business_days, FollowUpPlan, full_sequence,
}
use ai_client_acquisition_os.Acquisition.Cadence.Days.{business_days, add_business_days_counts}
use ai_client_acquisition_os.Acquisition.Cadence.Plans.{Chained, full_sequence-Chained}
use ai_client_acquisition_os.Acquisition.FollowUp.{
  FollowUpContext, FollowUpProposal, due_follow_ups, due_no_later, plan_next_follow_up,
  choose_channel, email, linkedin,
}
use ai_client_acquisition_os.Acquisition.FollowUp.Proposed.{Due}
use ai_client_acquisition_os.Acquisition.FollowUp.Queue.{due_follow_ups-queue}
use ai_client_acquisition_os.Acquisition.NextAction.{
  OpportunitySnapshot, NextAction, next_action_for, build_queue, ranks_before,
}
use ai_client_acquisition_os.Acquisition.NextAction.Ranks.{Ranked, Calls, build_queue-Ranked}
use ai_client_acquisition_os.Acquisition.NextAction.Replies.{HasReply, HasWork, reply_outranked}
use ai_client_acquisition_os.Common.{◌≡◌, refl, inr, inl, List, [], ◌∷◌, some, none}
use ai_client_acquisition_os.Common.Text.{trim}
use ai_client_acquisition_os.Acquisition.Stages.{
  OpportunityStage, researched, contacted, replied, qualified, proposal_sent, won, paused, new,
  is_terminal, move_all, can_transition, allowed_transitions, pause, invalid_stage_transition,
  missing_reason,
}

abbrev moves : List OpportunityStage
moves = researched ∷ contacted ∷ paused ∷ replied ∷ qualified ∷ proposal_sent ∷ won ∷ []

moves_win : move_all new moves ≡ some won
unfolding move_all can_transition allowed_transitions
moves_win = refl

skipped : move_all qualified (won ∷ []) ≡ none
unfolding move_all can_transition allowed_transitions
skipped = refl

pausing :
    pause contacted "after funding" none
    ≡ inr (record { paused_from = contacted; reason = "after funding"; resume_at = none })
unfolding pause can_transition allowed_transitions trim
pausing = refl

pausing_again : pause paused "after funding" none ≡ inl (invalid_stage_transition paused paused)
unfolding pause can_transition allowed_transitions
pausing_again = refl

blank : pause new "  " none ≡ inl missing_reason
unfolding pause can_transition allowed_transitions trim
blank = refl

-- A Friday: three business days later it is Wednesday.
friday : add_business_days 100000000 3 ≡ some 532000000
unfolding add_business_days
friday = refl

add_business_days_counts_example :
    (end n : ℕ) × (add_business_days 100000000 3 ≡ some end)
    × (end ≡ 100000000 + n * day_ms)
    × (business_days 100000000 n ≡ 3)
    × (n ≤ 9)
    × (1 ≤ 3 → is_weekend end ≡ false)
add_business_days_counts_example = add_business_days_counts 100000000 3

full_sequence-Chained_example :
    (plans : List FollowUpPlan) × (full_sequence 100000000 ≡ some plans) × Chained 1 100000000 plans
full_sequence-Chained_example = full_sequence-Chained 100000000

abbrev lead : FollowUpContext
lead = record {
  opportunity_id = "o1";
  lead_name = "Asha";
  stage = contacted;
  last_touch_at = some 100000000;
  last_reply_at = none;
  follow_ups_sent = 0;
  channels = record { email = true; linked_in = true; whats_app = false; instagram = false };
  last_channel = some email;
  unsubscribed = false;
  paused_until = none;
}

abbrev answered : FollowUpContext
answered = record lead { last_reply_at = some 200000000 }

another_channel : choose_channel lead.channels 1 lead.last_channel ≡ some linkedin
unfolding choose_channel
another_channel = refl

due_follow_ups-queue_example :
    (queue : List FollowUpProposal) × (due_follow_ups (lead ∷ answered ∷ []) 600000000 ≡ some queue)
    × IsSortedBy due_no_later queue
    × ((p : FollowUpProposal)
        → Memᴰ p queue ↔ (
            (context : FollowUpContext) × Memᴰ context (lead ∷ answered ∷ [])
            × (plan_next_follow_up context 600000000 ≡ some p)
            × Due context 600000000))
due_follow_ups-queue_example = due_follow_ups-queue (lead ∷ answered ∷ []) 600000000

abbrev with_reply : OpportunitySnapshot
with_reply = record {
  opportunity_id = "o1";
  lead_name = "Asha";
  stage = replied;
  stage_changed_at = 8640000000;
  has_unread_reply = true;
  follow_ups_sent = 1;
  next_follow_up_due_at = none;
  estimated_value_paise = none;
}

abbrev long_stalled : OpportunitySnapshot
long_stalled = record with_reply {
  opportunity_id = "o2";
  lead_name = "Ravi";
  stage = proposal_sent;
  stage_changed_at = 0;
  has_unread_reply = false;
}

-- Ravi before everybody else.
abbrev ravi_first : String → String → Bool
ravi_first a b = (a =ˢ "Ravi") || not (b =ˢ "Ravi")

ravi_first_trans :
    (a b c : String) → ravi_first a b ≡ true → ravi_first b c ≡ true → ravi_first a c ≡ true
ravi_first_trans a b c h k = ground (arith, h, k)

ravi_first_total : (a b : String) → ravi_first a b ≡ false → ravi_first b a ≡ true
ravi_first_total a b h = ground (arith, h)

build_queue-Ranked_example :
    Ranked ravi_first (build_queue ravi_first (with_reply ∷ long_stalled ∷ []) 8640000000)
    × ((a : NextAction)
        → Memᴰ a (build_queue ravi_first (with_reply ∷ long_stalled ∷ []) 8640000000) ↔ (
            (s : OpportunitySnapshot) × Memᴰ s (with_reply ∷ long_stalled ∷ [])
            × (a ≡ next_action_for s 8640000000)
            × Calls s 8640000000))
build_queue-Ranked_example =
    build_queue-Ranked ravi_first ravi_first_trans ravi_first_total (with_reply ∷ long_stalled ∷ [])
      8640000000

has_reply : HasReply with_reply
unfolding is_terminal
has_reply = (refl, refl)

has_work : HasWork long_stalled 8640000000
unfolding is_terminal
has_work = (refl, refl, refl, refl)

reply_outranked_example :
    ranks_before ravi_first
      (next_action_for long_stalled 8640000000)
      (next_action_for with_reply 8640000000)
    ≡ true
reply_outranked_example =
    reply_outranked ravi_first with_reply long_stalled 8640000000 has_reply has_work (omega arith)
