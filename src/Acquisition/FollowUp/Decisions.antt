-- ===== src/Acquisition/FollowUp/Decisions.antt =====
-- packages/core-acquisition/src/followUp.ts: exactly when a touch is proposed.
use ai_client_acquisition_os.Common.{
  ℕ, ◌+◌, ◌<◌, ◌≡◌, refl, true, false, not, ◌||◌, Option, none, some, ltb, is_some, arith, if_both,
  inl, inr,
}
use ai_client_acquisition_os.Acquisition.Stages.{
  OpportunityStage, contacted, replied, paused, same_stage, same_stage-eq, is_active, is_terminal,
}
use ai_client_acquisition_os.Acquisition.Cadence.{max_follow_ups}
use ai_client_acquisition_os.Acquisition.Cadence.Plans.{plan_follow_up_due}
use ai_client_acquisition_os.Acquisition.FollowUp.{
  FollowUpChannel, FollowUpContext, stop_replied, stop_exhausted, stop_unsubscribed, stop_paused,
  stop_closed, stop_not_contacted, stop_no_channel, plan_next_follow_up, touch_again, touch_on,
  inactive, propose_on, has_channel,
}
use ai_client_acquisition_os.Acquisition.FollowUp.Channels.{Chosen, choose_channel-Chosen}
use ai_client_acquisition_os.Acquisition.FollowUp.Proposed.{Due, Decided, stopped, proposed}

module _ (context : FollowUpContext) (now : ℕ) (subscribed : context.unsubscribed ≡ false)
    (unanswered : context.last_reply_at ≡ none) (in_contact : context.stage ≡ contacted) where
  no_channel-not-Due :
      ((c : FollowUpChannel) → has_channel context.channels c ≡ false) → Due context now → ⊥
  no_channel-not-Due nothing (_, c, _, due) = let a = nothing c in let b = due.5 in cc

  touch_on-Decided :
      (touch : ℕ) (chosen : Option FollowUpChannel)
      → context.last_touch_at ≡ some touch
      → context.follow_ups_sent < 4
      → Chosen context chosen
      → Decided context now (touch_on context now touch (context.follow_ups_sent + 1) chosen)
  unfolding touch_on propose_on
  touch_on-Decided touch chosen last few (inl (channel, e, fits)) =
      let (plan, planned, after) =
        plan_follow_up_due touch (context.follow_ups_sent + 1) (omega arith) (omega arith) in
      rw (e, planned)
        (proposed context now touch channel plan subscribed unanswered in_contact last few fits
          planned after)
  touch_on-Decided touch chosen last few (inr (e, nothing)) =
      rw e (stopped context now stop_no_channel _ (λ p. cc) (no_channel-not-Due nothing))

  touch_again-Decided :
      (last : Option ℕ)
      → context.last_touch_at ≡ last
      → Decided context now (touch_again context now last)
  unfolding touch_again
  touch_again-Decided none e =
      stopped context now stop_not_contacted _ (λ p. cc) (λ (_, _, _, due). let f = due.3 in cc)
  touch_again-Decided (some touch) e =
      if_both (Decided context now) (ltb max_follow_ups (context.follow_ups_sent + 1)) _ _
        (λ many.
          stopped context now stop_exhausted _ (λ p. cc)
            (λ (_, _, _, due). let f = due.4 in ground arith))
        (λ few.
          touch_on-Decided touch _ e (ground arith)
            (choose_channel-Chosen context context.follow_ups_sent))

  contacted-Decided : Decided context now (touch_again context now context.last_touch_at)
  contacted-Decided = touch_again-Decided context.last_touch_at refl

-- What the tests before rule out, for a lead in contact that has not replied.
module _ (stage : OpportunityStage) (reply : Option ℕ) (here : stage ≡ contacted)
    (silent : reply ≡ none) where
  not_replied : (same_stage stage replied || is_some reply) ≡ true → ⊥
  not_replied e =
      let f : (same_stage contacted replied || is_some {A = ℕ} none) ≡ true =
        rw (here, silent) at e in
      cc

  not_inactive : not (is_active stage) ≡ true → ⊥
  unfolding is_active is_terminal
  not_inactive e = let f : not (is_active contacted) ≡ true = rw here at e in cc

  not_elsewhere : not (same_stage stage contacted) ≡ true → ⊥
  not_elsewhere e = let f : not (same_stage contacted contacted) ≡ true = rw here at e in cc

unanswered_none :
    (stage : OpportunityStage) (reply : Option ℕ)
    → (same_stage stage replied || is_some reply) ≡ false
    → reply ≡ none
unanswered_none stage none e = refl
unanswered_none stage (some time) e = ground arith

inactive-Decided :
    (context : FollowUpContext) (now : ℕ)
    → not (is_active context.stage) ≡ true
    → Decided context now (inactive context)
unfolding inactive
inactive-Decided context now e =
    if_both (Decided context now) (same_stage context.stage paused) _ _
      (λ _.
        stopped context now stop_paused _ (λ p. cc)
          (λ (_, _, _, due). not_inactive _ _ due.2 due.1 e))
      λ _.
        stopped context now stop_closed _ (λ p. cc)
          (λ (_, _, _, due). not_inactive _ _ due.2 due.1 e)

-- A touch is proposed for sending exactly if the lead has not unsubscribed, has never replied, is in
-- the stage CONTACTED, was written to, has had fewer than four follow-ups, has some channel, and
-- the planned time has come. What is proposed is then the next attempt on a channel of the lead,
-- another one than last time if there is any other, due at its business day; and every
-- outcome requires authorization. The decision is always reached.
pub plan_next_follow_up-Decided :
    (context : FollowUpContext) (now : ℕ) → Decided context now (plan_next_follow_up context now)
unfolding plan_next_follow_up
plan_next_follow_up-Decided context now =
    if_both (Decided context now) context.unsubscribed _ _
      (λ e.
        stopped context now stop_unsubscribed _ (λ p. cc) (λ (_, _, _, due). let f = due.0 in cc))
      λ subscribed.
        if_both (Decided context now)
          (same_stage context.stage replied || is_some context.last_reply_at) _ _
          (λ e.
            stopped context now stop_replied _ (λ p. cc)
              (λ (_, _, _, due). not_replied _ _ due.2 due.1 e))
          λ unanswered.
            if_both (Decided context now) (not (is_active context.stage)) _ _
              (inactive-Decided context now)
              λ active.
                if_both (Decided context now) (not (same_stage context.stage contacted)) _ _
                  (λ e.
                    stopped context now stop_not_contacted _ (λ p. cc)
                      (λ (_, _, _, due). not_elsewhere _ _ due.2 due.1 e))
                  λ e.
                    contacted-Decided context now subscribed
                      (unanswered_none context.stage context.last_reply_at unanswered)
                      (same_stage-eq context.stage contacted (ground arith))
