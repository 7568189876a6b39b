-- ===== src/Acquisition/NextAction.antt =====
-- packages/core-acquisition/src/nextAction.ts: the one next action of an opportunity, and the queue.
pub mod Ranks
pub mod Replies
use ai_client_acquisition_os.Common.{
  ℕ, ◌+◌, ◌-◌, ◌*◌, ◌/◌, min, Bool, true, false, not, ◌&&◌, ◌||◌, List, [], ◌∷◌, map, Option, none,
  some, String, ltb, leb, if◌then◌else◌, keep, or_else,
}
use ai_client_acquisition_os.Common.Int.{
  ℤ, pos, negsuc, ◌+ℤ◌, sub_ℕ, ltb_ℤ, leb_ℤ, floor_div, clamp_zero,
}
use ai_client_acquisition_os.Common.Sort.{sort_by}
use ai_client_acquisition_os.Acquisition.Cadence.{max_follow_ups, day_ms}
use ai_client_acquisition_os.Acquisition.Stages.{
  OpportunityStage, new, researched, contacted, replied, qualified, proposal_sent, won, lost,
  paused, same_stage, is_terminal,
}

pub data ActionKind : Type 0 where
  research_lead choose_offer draft_message send_message send_follow_up : ActionKind
  review_reply send_proposal chase_proposal close_or_drop nothing : ActionKind

-- Dates are times; `undefined` and `null` are `none`.
pub record OpportunitySnapshot : Type 0 where
  pub opportunity_id : String
  pub lead_name : String
  pub stage : OpportunityStage
  pub stage_changed_at : ℕ
  pub has_unread_reply : Bool
  pub follow_ups_sent : ℕ
  pub next_follow_up_due_at : Option ℕ
  pub estimated_value_paise : Option ℕ

-- The sentences of the source, with the values they show.
pub data Label : Type 0 where
  stage_label : OpportunityStage → Label
  reply_to close_or_drop_lead : String → Label
  waiting_until : ℕ → Label
  stage_action : OpportunityStage → String → Label

pub record NextAction : Type 0 where
  pub opportunity_id : String
  pub lead_name : String
  pub kind : ActionKind
  pub label : Label
  pub priority : ℤ
  pub due_at : Option ℕ
  pub stalled_days : ℤ

-- `none` is the infinity of the closed stages.
abbrev pub stale_after_days : OpportunityStage → Option ℕ
stale_after_days new = some 7
stale_after_days researched = some 3
stale_after_days contacted = some 4
stale_after_days replied = some 1
stale_after_days qualified = some 3
stale_after_days proposal_sent = some 5
stale_after_days won = none
stale_after_days lost = none
stale_after_days paused = none

abbrev pub stage_kind : OpportunityStage → ActionKind
stage_kind new = research_lead
stage_kind researched = draft_message
stage_kind contacted = send_follow_up
stage_kind replied = review_reply
stage_kind qualified = send_proposal
stage_kind proposal_sent = chase_proposal
stage_kind won = nothing
stage_kind lost = nothing
stage_kind paused = nothing

-- `Math.max(0, stalledDays - threshold)`.
abbrev pub overdue_days : ℤ → Option ℕ → ℕ
overdue_days stalled none = 0
overdue_days stalled (some threshold) = clamp_zero stalled - threshold

abbrev pub value_bonus : Option ℕ → ℕ
value_bonus value = min 50 (or_else value 0 / 1000000)

abbrev pub stalled : OpportunitySnapshot → ℕ → ℤ
stalled snapshot now = floor_div (sub_ℕ now snapshot.stage_changed_at) day_ms

-- `dueAt && dueAt > now`.
abbrev pub is_later : Option ℕ → ℕ → Bool
is_later none now = false
is_later (some time) now = ltb now time

abbrev pub action_of : OpportunitySnapshot → ℕ → ActionKind → Label → ℤ → Option ℕ → NextAction
action_of snapshot now kind label priority due_at = record {
  opportunity_id = snapshot.opportunity_id;
  lead_name = snapshot.lead_name;
  kind = kind;
  label = label;
  priority = priority;
  due_at = due_at;
  stalled_days = stalled snapshot now;
}

unfoldable pub next_action_for : OpportunitySnapshot → ℕ → NextAction
unfolding is_terminal ◌+ℤ◌
next_action_for snapshot now =
    if is_terminal snapshot.stage || same_stage snapshot.stage paused
    then action_of snapshot now nothing (stage_label snapshot.stage) (pos 0) none
    else if snapshot.has_unread_reply
    then action_of snapshot now review_reply (reply_to snapshot.lead_name)
        (pos 1000 +ℤ stalled snapshot now) none
    else if same_stage snapshot.stage contacted && leb max_follow_ups snapshot.follow_ups_sent
    then action_of snapshot now close_or_drop (close_or_drop_lead snapshot.lead_name)
        (pos 300 +ℤ stalled snapshot now) none
    else if is_later snapshot.next_follow_up_due_at now
    then action_of snapshot now nothing (waiting_until (or_else snapshot.next_follow_up_due_at 0))
        (pos 0) snapshot.next_follow_up_due_at
    else action_of snapshot now (stage_kind snapshot.stage)
        (stage_action snapshot.stage snapshot.lead_name)
        (pos (
          100
          + overdue_days (stalled snapshot now) (stale_after_days snapshot.stage) * 10
          + value_bonus snapshot.estimated_value_paise))
        none

abbrev pub is_nothing : ActionKind → Bool
is_nothing nothing = true
is_nothing research_lead = false
is_nothing choose_offer = false
is_nothing draft_message = false
is_nothing send_message = false
is_nothing send_follow_up = false
is_nothing review_reply = false
is_nothing send_proposal = false
is_nothing chase_proposal = false
is_nothing close_or_drop = false

-- `name_le a b` is `a.localeCompare(b) <= 0`.
module _ (name_le : String → String → Bool) where
  abbrev pub ranks_before : NextAction → NextAction → Bool
  ranks_before a b =
      ltb_ℤ b.priority a.priority
      || (leb_ℤ b.priority a.priority && name_le a.lead_name b.lead_name)

  unfoldable pub build_queue : List OpportunitySnapshot → ℕ → List NextAction
  unfolding next_action_for sort_by
  build_queue snapshots now = sort_by ranks_before (
      keep (λ (a : NextAction). not (is_nothing a.kind))
        (map (λ (s : OpportunitySnapshot). next_action_for s now) snapshots))
