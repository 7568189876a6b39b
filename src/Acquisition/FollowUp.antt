-- ===== src/Acquisition/FollowUp.antt =====
-- packages/core-acquisition/src/followUp.ts: which touch comes next, on which channel, and why.
pub mod Channels
pub mod Proposed
pub mod Decisions
pub mod Queue
use ai_client_acquisition_os.Common.{
  ℕ, ◌+◌, ◌-◌, min, Bool, true, false, not, ◌&&◌, ◌||◌, List, [], ◌∷◌, map, Option, none, some,
  String, ltb, leb, ◌==◌, if◌then◌else◌, get_elem?, length, keep, find, is_some, or_else,
}
use ai_client_acquisition_os.Common.Sort.{sort_by}
use ai_client_acquisition_os.Acquisition.Cadence.{FollowUpPlan, plan_follow_up, max_follow_ups}
use ai_client_acquisition_os.Acquisition.Stages.{
  OpportunityStage, contacted, replied, paused, same_stage, is_active,
}

pub data FollowUpChannel : Type 0 where
  email linkedin whatsapp instagram_dm : FollowUpChannel

abbrev channel_number : FollowUpChannel → ℕ
channel_number email = 0
channel_number linkedin = 1
channel_number whatsapp = 2
channel_number instagram_dm = 3

abbrev pub same_channel : FollowUpChannel → FollowUpChannel → Bool
same_channel a b = channel_number a == channel_number b

pub record ContactChannels : Type 0 where
  pub email : Bool
  pub linked_in : Bool
  pub whats_app : Bool
  pub instagram : Bool

-- Dates are times; `null` is `none`.
pub record FollowUpContext : Type 0 where
  pub opportunity_id : String
  pub lead_name : String
  pub stage : OpportunityStage
  pub last_touch_at : Option ℕ
  pub last_reply_at : Option ℕ
  pub follow_ups_sent : ℕ
  pub channels : ContactChannels
  pub last_channel : Option FollowUpChannel
  pub unsubscribed : Bool
  pub paused_until : Option ℕ

pub data FollowUpDecision : Type 0 where
  schedule wait : FollowUpDecision
  stop_replied stop_exhausted stop_unsubscribed stop_paused : FollowUpDecision
  stop_closed stop_not_contacted stop_no_channel : FollowUpDecision

-- The sentences of the source, with the values they show.
pub data Reason : Type 0 where
  has_unsubscribed has_replied no_channel_available : String → Reason
  paused_until_date : ℕ → Reason
  paused_indefinitely nothing_sent : Reason
  stage_is_closed : OpportunityStage → Reason
  follow_ups_exhausted : ℕ → Reason
  not_due_until : ℕ → ℕ → Reason
  is_due : ℕ → ℕ → FollowUpChannel → Option FollowUpChannel → Option String → Reason

pub record FollowUpProposal : Type 0 where
  pub opportunity_id : String
  pub decision : FollowUpDecision
  pub due_at : Option ℕ
  pub channel : Option FollowUpChannel
  pub attempt : ℕ
  pub message_angle : Option String
  pub reason : Reason
  pub requires_authorization : Bool

abbrev pub channel_escalation : List FollowUpChannel
channel_escalation = email ∷ linkedin ∷ whatsapp ∷ instagram_dm ∷ []

abbrev pub has_channel : ContactChannels → FollowUpChannel → Bool
has_channel channels email = channels.email
has_channel channels linkedin = channels.linked_in
has_channel channels whatsapp = channels.whats_app
has_channel channels instagram_dm = channels.instagram

unfoldable pub available_channels : ContactChannels → List FollowUpChannel
available_channels channels = keep (has_channel channels) channel_escalation

-- `channel !== lastChannel`.
abbrev pub differs : Option FollowUpChannel → FollowUpChannel → Bool
differs none channel = true
differs (some last) channel = not (same_channel last channel)

-- `available[Math.min(attempt - 1, available.length - 1)] ?? null`: attempt 0 asks for index -1.
abbrev pub preferred : List FollowUpChannel → ℕ → Option FollowUpChannel
preferred available attempt =
    if attempt == 0 then none else get_elem? available (min (attempt - 1) (length available - 1))

abbrev alternative :
    List FollowUpChannel → Option FollowUpChannel → Option FollowUpChannel → Option FollowUpChannel
alternative available last none = find (differs last) available
alternative available last (some channel) =
    if differs last channel
    then some channel
    else some (or_else (find (differs last) available) channel)

unfoldable pub choose_channel :
    ContactChannels → ℕ → Option FollowUpChannel → Option FollowUpChannel
unfolding available_channels
choose_channel channels attempt last_channel =
    let available = available_channels channels in
    if length available == 0
    then none
    else alternative available last_channel (preferred available attempt)

abbrev pub angle_by_attempt : List String
angle_by_attempt =
    "restate the observation briefly and make the ask smaller"
    ∷ "add a second observed detail they may not have connected to the first"
    ∷ "offer something concrete and free — a teardown, a specific example"
    ∷ "acknowledge the silence plainly and ask whether to close the file" ∷ []

unfoldable pub angle_for : ℕ → Option String
angle_for attempt =
    if attempt == 0
    then none
    else get_elem? angle_by_attempt (min attempt (length angle_by_attempt) - 1)

abbrev pub stop : FollowUpContext → FollowUpDecision → Reason → FollowUpProposal
stop context decision reason = record {
  opportunity_id = context.opportunity_id;
  decision = decision;
  due_at = none;
  channel = none;
  attempt = context.follow_ups_sent;
  message_angle = none;
  reason = reason;
  requires_authorization = true;
}

abbrev pause_reason : Option ℕ → Reason
pause_reason none = paused_indefinitely
pause_reason (some time) = paused_until_date time

unfoldable pub propose :
    FollowUpContext → ℕ → ℕ → ℕ → FollowUpChannel → FollowUpPlan → FollowUpProposal
unfolding angle_for
propose context now touch attempt channel plan =
    if ltb now plan.due_at
    then record {
      opportunity_id = context.opportunity_id;
      decision = wait;
      due_at = some plan.due_at;
      channel = some channel;
      attempt = attempt;
      message_angle = none;
      reason = not_due_until attempt plan.due_at;
      requires_authorization = true;
    }
    else record {
      opportunity_id = context.opportunity_id;
      decision = schedule;
      due_at = some plan.due_at;
      channel = some channel;
      attempt = attempt;
      message_angle = angle_for attempt;
      reason = is_due attempt touch channel context.last_channel (angle_for attempt);
      requires_authorization = true;
    }

-- `none` where `planFollowUp` throws.
abbrev pub propose_on :
    FollowUpContext → ℕ → ℕ → ℕ → FollowUpChannel → Option FollowUpPlan → Option FollowUpProposal
unfolding propose
propose_on context now touch attempt channel none = none
propose_on context now touch attempt channel (some plan) =
    some (propose context now touch attempt channel plan)

unfoldable pub touch_on :
    FollowUpContext → ℕ → ℕ → ℕ → Option FollowUpChannel → Option FollowUpProposal
unfolding propose_on plan_follow_up
touch_on context now touch attempt none =
    some (stop context stop_no_channel (no_channel_available context.lead_name))
touch_on context now touch attempt (some channel) =
    propose_on context now touch attempt channel (plan_follow_up touch attempt)

-- The steps after a message was sent at `touch`.
unfoldable pub touch_again : FollowUpContext → ℕ → Option ℕ → Option FollowUpProposal
unfolding touch_on choose_channel
touch_again context now none = some (stop context stop_not_contacted nothing_sent)
touch_again context now (some touch) =
    let attempt = context.follow_ups_sent + 1 in
    if ltb max_follow_ups attempt
    then some (stop context stop_exhausted (follow_ups_exhausted max_follow_ups))
    else touch_on context now touch attempt
        (choose_channel context.channels attempt context.last_channel)

unfoldable pub inactive : FollowUpContext → Option FollowUpProposal
inactive context =
    if same_stage context.stage paused
    then some (stop context stop_paused (pause_reason context.paused_until))
    else some (stop context stop_closed (stage_is_closed context.stage))

unfoldable pub plan_next_follow_up : FollowUpContext → ℕ → Option FollowUpProposal
unfolding touch_again is_active inactive
plan_next_follow_up context now =
    if context.unsubscribed
    then some (stop context stop_unsubscribed (has_unsubscribed context.lead_name))
    else if same_stage context.stage replied || is_some context.last_reply_at
    then some (stop context stop_replied (has_replied context.lead_name))
    else if not (is_active context.stage)
    then inactive context
    else if not (same_stage context.stage contacted)
    then some (stop context stop_not_contacted nothing_sent)
    else touch_again context now context.last_touch_at

abbrev pub is_schedule : FollowUpDecision → Bool
is_schedule schedule = true
is_schedule wait = false
is_schedule stop_replied = false
is_schedule stop_exhausted = false
is_schedule stop_unsubscribed = false
is_schedule stop_paused = false
is_schedule stop_closed = false
is_schedule stop_not_contacted = false
is_schedule stop_no_channel = false

abbrev pub is_scheduled : FollowUpProposal → Bool
is_scheduled p = is_schedule p.decision

abbrev pub cons_proposal :
    Option FollowUpProposal → Option (List FollowUpProposal) → Option (List FollowUpProposal)
cons_proposal none rest = none
cons_proposal (some p) none = none
cons_proposal (some p) (some rest) = some (p ∷ rest)

unfoldable pub plan_all : List FollowUpContext → ℕ → Option (List FollowUpProposal)
unfolding plan_next_follow_up
plan_all [] now = some []
plan_all (context ∷ contexts) now =
    cons_proposal (plan_next_follow_up context now) (plan_all contexts now)

abbrev pub due_no_later : FollowUpProposal → FollowUpProposal → Bool
due_no_later a b = leb (or_else a.due_at 0) (or_else b.due_at 0)

abbrev pub queue_of : Option (List FollowUpProposal) → Option (List FollowUpProposal)
unfolding sort_by
queue_of none = none
queue_of (some proposals) = some (sort_by due_no_later (keep is_scheduled proposals))

unfoldable pub due_follow_ups : List FollowUpContext → ℕ → Option (List FollowUpProposal)
unfolding plan_all queue_of
due_follow_ups contexts now = queue_of (plan_all contexts now)
