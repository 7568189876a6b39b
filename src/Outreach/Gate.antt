-- ===== src/Outreach/Gate.antt =====
-- packages/core-outreach/src/approval.ts: nothing goes out that a person did not approve.
use ai_client_acquisition_os.Common.{
  ℕ, ◌≡◌, refl, ap, ◌∙◌, Bool, true, false, List, some, String, if_both, arith, inl, inr, ◌⊎◌,
}
use ai_client_acquisition_os.Common.Text.{trim, is_blank}
use ai_client_acquisition_os.Common.Runs.{run, run-GrantedIn, GrantedIn}
use ai_client_acquisition_os.Outreach.{
  StoredMessage, ApprovalState, draft, approved, rejected, sent, MessageAction, approve_by,
  reject_for, edit, send_at, settle, try_action, approve, reject, apply_human_edit, mark_sent,
  can_transition, Changed, same_state,
}

-- Approved, or sent already.
abbrev pub is_cleared : ApprovalState → Bool
is_cleared approved = true
is_cleared sent = true
is_cleared draft = false
is_cleared rejected = false

-- The words and the approver are those of the message before.
abbrev pub SameWords : StoredMessage → StoredMessage → Type 0
SameWords m after =
    (after.subject ≡ m.subject) × (after.body ≡ m.body) × (after.approved_by ≡ m.approved_by)

-- The action is the approval of the draft `m` by a named person, and `after` has that approver and
-- these words.
abbrev pub ApprovedFrom : StoredMessage → MessageAction → StoredMessage → Type 0
ApprovedFrom m action after =
    (who : String) × (at : ℕ) × (action ≡ approve_by who at)
    × (m.approval_state ≡ draft)
    × (is_blank (trim who) ≡ false)
    × (after.subject ≡ m.subject)
    × (after.body ≡ m.body)
    × (after.approved_by ≡ some who)

abbrev pub is_cleared_message : StoredMessage → Bool
is_cleared_message m = is_cleared m.approval_state

abbrev Cleared : StoredMessage → MessageAction → StoredMessage → Type 0
Cleared m action after =
    is_cleared after.approval_state ≡ true
    → ((is_cleared m.approval_state ≡ true) × SameWords m after) ⊎ ApprovedFrom m action after

unchanged : (m : StoredMessage) (action : MessageAction) → Cleared m action m
unchanged m action c = inl (c, (refl, refl, refl))

from_draft : (from : ApprovalState) → can_transition from approved ≡ true → from ≡ draft
unfolding can_transition
from_draft draft h = refl
from_draft approved h = ground arith
from_draft rejected h = ground arith
from_draft sent h = ground arith

from_approved : (from : ApprovalState) → can_transition from sent ≡ true → is_cleared from ≡ true
unfolding can_transition
from_approved draft h = ground arith
from_approved approved h = refl
from_approved rejected h = ground arith
from_approved sent h = ground arith

try_action-Cleared :
    (m : StoredMessage) (action : MessageAction) → Cleared m action (try_action m action)
unfolding try_action approve reject apply_human_edit mark_sent
try_action-Cleared m (approve_by who at) =
    if_both (λ (c : Changed). Cleared m (approve_by who at) (settle m c))
      (can_transition m.approval_state approved) _ _
      (λ may.
        if_both (λ (c : Changed). Cleared m (approve_by who at) (settle m c)) (is_blank (trim who))
          _ _ (λ _. unchanged m (approve_by who at))
          λ named _. inr (who, at, refl, from_draft m.approval_state may, named, refl, refl, refl))
      λ _. unchanged m (approve_by who at)
try_action-Cleared m (reject_for reason at) =
    if_both (λ (c : Changed). Cleared m (reject_for reason at) (settle m c))
      (can_transition m.approval_state rejected) _ _ (λ _ c. cc)
      λ _. unchanged m (reject_for reason at)
try_action-Cleared m (edit subject body) =
    if_both (λ (c : Changed). Cleared m (edit subject body) (settle m c))
      (same_state m.approval_state sent) _ _ (λ _. unchanged m (edit subject body)) λ _ c. cc
try_action-Cleared m (send_at at) =
    if_both (λ (c : Changed). Cleared m (send_at at) (settle m c))
      (can_transition m.approval_state sent) _ _
      (λ may _. inl (from_approved m.approval_state may, (refl, refl, refl)))
      λ _. unchanged m (send_at at)

SameWords-refl : (m : StoredMessage) → SameWords m m
SameWords-refl m = (refl, refl, refl)

SameWords-trans : (m n o : StoredMessage) → SameWords m n → SameWords n o → SameWords m o
SameWords-trans m n o (s, b, a) (s', b', a') = (s' ∙ s, b' ∙ b, a' ∙ a)

approved_same :
    (m : StoredMessage) (action : MessageAction) (n o : StoredMessage)
    → ApprovedFrom m action n
    → SameWords n o
    → ApprovedFrom m action o
approved_same m action n o (who, at, e, from, named, s, b, a) (s', b', a') =
    (who, at, e, from, named, s' ∙ s, b' ∙ b, a' ∙ a)

-- Whatever is tried with a message that is a draft or rejected, failed attempts included, if it ends
-- as sent then one of the attempts is an approval, by a person who is named, of the draft that the
-- attempts before it left, and what is sent has the subject, the body and the approver of that
-- approval.
pub run-sent :
    (m : StoredMessage) (actions : List MessageAction)
    → is_cleared m.approval_state ≡ false
    → (run try_action m actions).approval_state ≡ sent
    → GrantedIn try_action is_cleared_message SameWords ApprovedFrom m actions
        (run try_action m actions)
run-sent m actions fresh e =
    let c : is_cleared (run try_action m actions).approval_state ≡ true = ap is_cleared e in
    elim (run-GrantedIn try_action is_cleared_message SameWords ApprovedFrom SameWords-refl
      SameWords-trans approved_same try_action-Cleared m actions c) [
        | inl (before, _) ↦ cc
        | inr found ↦ found
      ]
