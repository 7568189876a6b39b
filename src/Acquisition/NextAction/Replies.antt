-- ===== src/Acquisition/NextAction/Replies.antt =====
-- packages/core-acquisition/src/nextAction.ts: where an unread reply ranks.
use ai_client_acquisition_os.Common.{
  ℕ, ◌+◌, ◌*◌, ◌≤◌, ◌<◌, ◌≡◌, refl, Bool, true, false, ◌&&◌, ◌||◌, Option, none, some, String, leb,
  if_both, arith,
}
use ai_client_acquisition_os.Common.Int.{ℤ, pos, pos_part, neg_part, ◌+ℤ◌, +ℤ_parts}
use ai_client_acquisition_os.Acquisition.Cadence.{max_follow_ups}
use ai_client_acquisition_os.Acquisition.Stages.{contacted, paused, same_stage, is_terminal}
use ai_client_acquisition_os.Acquisition.NextAction.{
  OpportunitySnapshot, NextAction, next_action_for, ranks_before, stalled, overdue_days,
  stale_after_days, value_bonus, is_later,
}

+ℤ_pos : (n : ℕ) (a : ℤ) → pos_part (pos n +ℤ a) ≤ n + pos_part a
unfolding ◌+ℤ◌
+ℤ_pos n a = ground arith

overdue_le : (a : ℤ) (threshold : Option ℕ) → overdue_days a threshold ≤ pos_part a
overdue_le a none = omega arith
overdue_le a (some t) = omega arith

-- What an opportunity without an unread reply ranks at most, in its first twelve weeks in a stage.
other_rank :
    (s : OpportunitySnapshot) (now : ℕ)
    → s.has_unread_reply ≡ false
    → pos_part (stalled s now) ≤ 84
    → pos_part (next_action_for s now).priority ≤ 990
unfolding next_action_for
other_rank s now unread recent =
    let P = λ (a : NextAction). pos_part a.priority ≤ 990 in
    if_both P (is_terminal s.stage || same_stage s.stage paused) _ _ (λ _. omega arith)
      λ _.
        if_both P s.has_unread_reply _ _ (λ e. absurd (unread_now e))
          λ _.
            if_both P (same_stage s.stage contacted && leb max_follow_ups s.follow_ups_sent) _ _
              (λ _. omega (arith, +ℤ_pos 300 (stalled s now)))
              λ _.
                if_both P (is_later s.next_follow_up_due_at now) _ _ (λ _. omega arith)
                  λ _. omega (arith, overdue_le (stalled s now) (stale_after_days s.stage))
  where
    unread_now : s.has_unread_reply ≡ true → ⊥
    unread_now e = cc

-- A live opportunity whose lead has an unread reply.
abbrev pub HasReply : OpportunitySnapshot → Type 0
HasReply s =
    ((is_terminal s.stage || same_stage s.stage paused) ≡ false) × (s.has_unread_reply ≡ true)

reply_rank :
    (s : OpportunitySnapshot) (now : ℕ)
    → HasReply s
    → (next_action_for s now).priority ≡ pos 1000 +ℤ stalled s now
unfolding next_action_for
reply_rank s now (live, unread) = rw (live, unread) refl

-- A live opportunity for which the work of its stage is due.
abbrev pub HasWork : OpportunitySnapshot → ℕ → Type 0
HasWork s now =
    ((is_terminal s.stage || same_stage s.stage paused) ≡ false)
    × (s.has_unread_reply ≡ false)
    × ((same_stage s.stage contacted && leb max_follow_ups s.follow_ups_sent) ≡ false)
    × (is_later s.next_follow_up_due_at now ≡ false)

work_rank :
    (s : OpportunitySnapshot) (now : ℕ)
    → HasWork s now
    → (next_action_for s now).priority
      ≡ pos (
          100
          + overdue_days (stalled s now) (stale_after_days s.stage) * 10
          + value_bonus s.estimated_value_paise)
unfolding next_action_for
work_rank s now (live, unread, few, due) = rw (live, unread, few, due) refl

-- An opportunity with an unread reply ranks before every opportunity without one that has been in
-- its stage for at most 84 days.
pub reply_first :
    (name_le : String → String → Bool) (replied_one other : OpportunitySnapshot) (now : ℕ)
    → HasReply replied_one
    → neg_part (stalled replied_one now) ≡ 0
    → other.has_unread_reply ≡ false
    → pos_part (stalled other now) ≤ 84
    → ranks_before name_le (next_action_for replied_one now) (next_action_for other now) ≡ true
reply_first name_le replied_one other now has past unread recent =
    let low = other_rank other now unread recent in
    let high = reply_rank replied_one now has in
    let sum = +ℤ_parts (pos 1000) (stalled replied_one now) in ground (arith, low, high, sum)

-- It does not outrank everything: an opportunity with work to do, overdue by so many days that ten
-- times their number exceeds 900 and the days that the reply has waited, ranks before it.
pub reply_outranked :
    (name_le : String → String → Bool) (replied_one other : OpportunitySnapshot) (now : ℕ)
    → HasReply replied_one
    → HasWork other now
    → 900 + pos_part (stalled replied_one now)
      < overdue_days (stalled other now) (stale_after_days other.stage) * 10
    → ranks_before name_le (next_action_for other now) (next_action_for replied_one now) ≡ true
reply_outranked name_le replied_one other now has work late =
    let low = reply_rank replied_one now has in
    let high = work_rank other now work in
    let sum = +ℤ_pos 1000 (stalled replied_one now) in ground (arith, low, high, sum)
