-- ===== src/Acquisition/FollowUp/Proposed.antt =====
-- packages/core-acquisition/src/followUp.ts: what a proposed touch says, and a touch in its turn.
use ai_client_acquisition_os.Common.{
  ℕ, ◌+◌, ◌≤◌, ◌<◌, ◌≡◌, ◌≢◌, ◌↔◌, refl, sym, ◌∙◌, true, false, Option, none, some, ltb, arith,
  Bool-cases, inl, inr, ltb→lt,
}
use ai_client_acquisition_os.Acquisition.Stages.{contacted}
use ai_client_acquisition_os.Acquisition.Cadence.{FollowUpPlan, plan_follow_up}
use ai_client_acquisition_os.Acquisition.Cadence.Plans.{DueAfter}
use ai_client_acquisition_os.Acquisition.FollowUp.{
  FollowUpChannel, FollowUpContext, FollowUpProposal, FollowUpDecision, Reason, schedule, wait,
  propose, has_channel, stop,
}
use ai_client_acquisition_os.Acquisition.FollowUp.Channels.{Fits}

-- The touch that follows the message at `touch`, on a channel of the lead, is due at `now`.
abbrev pub DueOn : FollowUpContext → ℕ → ℕ → FollowUpChannel → FollowUpPlan → Type 0
DueOn context now touch channel plan =
    (context.unsubscribed ≡ false)
    × (context.last_reply_at ≡ none)
    × (context.stage ≡ contacted)
    × (context.last_touch_at ≡ some touch)
    × (context.follow_ups_sent < 4)
    × (has_channel context.channels channel ≡ true)
    × (plan_follow_up touch (context.follow_ups_sent + 1) ≡ some plan)
    × (plan.due_at ≤ now)

abbrev pub Due : FollowUpContext → ℕ → Type 0
Due context now =
    (touch : ℕ) × (channel : FollowUpChannel) × (plan : FollowUpPlan) × DueOn context now touch
      channel plan

-- What a proposal to send says.
abbrev pub Announced : FollowUpContext → FollowUpProposal → Type 0
Announced context p =
    (touch : ℕ) × (channel : FollowUpChannel) × (plan : FollowUpPlan) × (context.last_touch_at
      ≡ some touch)
    × (p.channel ≡ some channel)
    × Fits context channel
    × (p.attempt ≡ context.follow_ups_sent + 1)
    × (p.due_at ≡ some plan.due_at)
    × DueAfter touch p.attempt plan

abbrev pub Decided : FollowUpContext → ℕ → Option FollowUpProposal → Type 0
Decided context now result =
    (p : FollowUpProposal) × (result ≡ some p)
    × (p.requires_authorization ≡ true)
    × ((p.decision ≡ schedule) ↔ Due context now)
    × (p.decision ≡ schedule → Announced context p)

pub stopped :
    (context : FollowUpContext) (now : ℕ) (decision : FollowUpDecision) (reason : Reason)
    → decision ≢ schedule
    → (Due context now → ⊥)
    → Decided context now (some (stop context decision reason))
stopped context now decision reason other undue = (
  stop context decision reason,
  refl,
  refl,
  (λ e. absurd (other e), λ d. absurd (undue d)),
  λ e. absurd (other e),
)

wait-ne-schedule : wait ≢ schedule
wait-ne-schedule e = cc

-- A lead in contact whose plan is `plan` and whose channel is `channel`.
module _ (context : FollowUpContext) (now touch : ℕ) (channel : FollowUpChannel)
    (plan : FollowUpPlan) (subscribed : context.unsubscribed ≡ false)
    (unanswered : context.last_reply_at ≡ none) (in_contact : context.stage ≡ contacted)
    (last : context.last_touch_at ≡ some touch) (few : context.follow_ups_sent < 4)
    (fits : Fits context channel)
    (planned : plan_follow_up touch (context.follow_ups_sent + 1) ≡ some plan)
    (after : DueAfter touch (context.follow_ups_sent + 1) plan) where
  abbrev pub proposal : FollowUpProposal
  unfolding propose
  proposal = propose context now touch (context.follow_ups_sent + 1) channel plan

  Due-plan : Due context now → plan.due_at ≤ now
  Due-plan (touch', channel', plan', (_, _, _, last', _, _, planned', due')) =
      let same_touch : touch' ≡ touch = cc in let same : plan' ≡ plan = cc in rw same at due'

  proposed_early : ltb now plan.due_at ≡ true → Decided context now (some proposal)
  unfolding propose
  proposed_early early =
      let waits : proposal.decision ≡ wait = rw early refl in
      let other : proposal.decision ≢ schedule = λ e. wait-ne-schedule (sym waits ∙ e) in
      (
        proposal,
        refl,
        rw early refl,
        (
          λ e. absurd (other e),
          λ d. absurd (omega (arith, Due-plan d, ltb→lt now plan.due_at early)),
        ),
        λ e. absurd (other e),
      )

  proposed_late : ltb now plan.due_at ≡ false → Decided context now (some proposal)
  unfolding propose
  proposed_late late =
      let in_time : plan.due_at ≤ now = ground arith in
      (
        proposal,
        refl,
        rw late refl,
        (
          λ e. (
            touch,
            channel,
            plan,
            (subscribed, unanswered, in_contact, last, few, fits.0, planned, in_time),
          ),
          λ d. rw late refl,
        ),
        λ e. (
          touch,
          channel,
          plan,
          last,
          rw late refl,
          fits,
          rw late refl,
          rw late refl,
          rw late after,
        ),
      )

  pub proposed : Decided context now (some proposal)
  proposed = elim (Bool-cases (ltb now plan.due_at)) [
    | inl early ↦ proposed_early early
    | inr late ↦ proposed_late late
  ]
