-- ===== src/Proposals/Gate.antt =====
-- packages/core-proposal/src/versions.ts: no version goes out that a person did not approve.
use ai_client_acquisition_os.Common.{
  ◌≡◌, refl, sym, ap, ◌∙◌, Bool, true, false, ◌||◌, List, Option, none, some, String, if_both,
  arith, inl, inr, ◌⊎◌,
}
use ai_client_acquisition_os.Common.Runs.{run, run-GrantedIn, GrantedIn}
use ai_client_acquisition_os.Common.Text.{trim, is_blank}
use ai_client_acquisition_os.Proposals.Schema.{
  ProposalVersion, proposal_version_schema, ProposalState, draft, approved, sent, accepted,
  declined, Proposal,
}
use ai_client_acquisition_os.Proposals.Versions.{
  Changed, EditInput, append_edit, edit_current, append_version, next_version, approve, mark_sent,
  record_answer, Answer, accept, decline, answer_state, ProposalAction, edit_with, approve_by,
  send_at, answer_at, settle, try_action, current_version_of, can_transition, same_state,
}

-- Approved, sent or answered.
abbrev pub is_cleared : ProposalState → Bool
is_cleared draft = false
is_cleared approved = true
is_cleared sent = true
is_cleared accepted = true
is_cleared declined = true

abbrev pub is_cleared_proposal : Proposal → Bool
is_cleared_proposal p = is_cleared p.state

-- The versions, the current one and the approver are those of the proposal before.
abbrev pub SameOffer : Proposal → Proposal → Type 0
SameOffer p after =
    (after.versions ≡ p.versions)
    × (after.current_version ≡ p.current_version)
    × (after.approved_by ≡ p.approved_by)

-- The action is the approval of the draft `p` by a named person, and `after` has that approver and
-- these versions.
abbrev pub ApprovedFrom : Proposal → ProposalAction → Proposal → Type 0
ApprovedFrom p action after =
    (who : String) × (action ≡ approve_by who)
    × (p.state ≡ draft)
    × (is_blank (trim who) ≡ false)
    × (after.versions ≡ p.versions)
    × (after.current_version ≡ p.current_version)
    × (after.approved_by ≡ some who)

abbrev Cleared : Proposal → ProposalAction → Proposal → Type 0
Cleared p action after =
    is_cleared after.state ≡ true
    → ((is_cleared p.state ≡ true) × SameOffer p after) ⊎ ApprovedFrom p action after

unchanged : (p : Proposal) (action : ProposalAction) → Cleared p action p
unchanged p action c = inl (c, (refl, refl, refl))

from_draft : (from : ProposalState) → can_transition from approved ≡ true → from ≡ draft
unfolding can_transition
from_draft draft h = refl
from_draft approved h = ground arith
from_draft sent h = ground arith
from_draft accepted h = ground arith
from_draft declined h = ground arith

from_sendable : (from : ProposalState) → can_transition from sent ≡ true → is_cleared from ≡ true
unfolding can_transition
from_sendable draft h = ground arith
from_sendable approved h = refl
from_sendable sent h = refl
from_sendable accepted h = refl
from_sendable declined h = refl

from_answerable :
    (answer : Answer) (from : ProposalState)
    → can_transition from (answer_state answer) ≡ true
    → is_cleared from ≡ true
unfolding can_transition
from_answerable accept draft h = ground arith
from_answerable decline draft h = ground arith
from_answerable answer approved h = refl
from_answerable answer sent h = refl
from_answerable answer accepted h = refl
from_answerable answer declined h = refl

append_version-Cleared :
    (p : Proposal) (edit : EditInput) (next : Option ProposalVersion)
    → Cleared p (edit_with edit) (settle p (append_version p next))
append_version-Cleared p edit none c = unchanged p (edit_with edit) c
append_version-Cleared p edit (some next) c = cc

edit_current-Cleared :
    (p : Proposal) (edit : EditInput) (previous : Option ProposalVersion)
    → Cleared p (edit_with edit) (settle p (edit_current p edit previous))
unfolding edit_current
edit_current-Cleared p edit none = unchanged p (edit_with edit)
edit_current-Cleared p edit (some previous) =
    append_version-Cleared p edit (proposal_version_schema (next_version previous edit))

try_action-Cleared :
    (p : Proposal) (action : ProposalAction) → Cleared p action (try_action p action)
unfolding try_action append_edit approve mark_sent record_answer
try_action-Cleared p (edit_with edit) =
    let P = λ (c : Changed). Cleared p (edit_with edit) (settle p c) in
    if_both P (same_state p.state sent || same_state p.state accepted) _ _
      (λ _. unchanged p (edit_with edit))
      λ _.
        if_both P (is_blank (trim edit.edited_by)) _ _ (λ _. unchanged p (edit_with edit))
          λ _.
            if_both P (is_blank (trim edit.edit_summary)) _ _ (λ _. unchanged p (edit_with edit))
              λ _. edit_current-Cleared p edit (current_version_of p)
try_action-Cleared p (approve_by who) =
    let P = λ (c : Changed). Cleared p (approve_by who) (settle p c) in
    if_both P (can_transition p.state approved) _ _
      (λ may.
        if_both P (is_blank (trim who)) _ _ (λ _. unchanged p (approve_by who))
          λ named _. inr (who, refl, from_draft p.state may, named, refl, refl, refl))
      λ _. unchanged p (approve_by who)
try_action-Cleared p (send_at at) =
    if_both (λ (c : Changed). Cleared p (send_at at) (settle p c)) (can_transition p.state sent) _ _
      (λ may _. inl (from_sendable p.state may, (refl, refl, refl))) λ _. unchanged p (send_at at)
try_action-Cleared p (answer_at answer at) =
    if_both (λ (c : Changed). Cleared p (answer_at answer at) (settle p c))
      (can_transition p.state (answer_state answer)) _ _
      (λ may _. inl (from_answerable answer p.state may, (refl, refl, refl)))
      λ _. unchanged p (answer_at answer at)

SameOffer-trans : (p q r : Proposal) → SameOffer p q → SameOffer q r → SameOffer p r
SameOffer-trans p q r (v, c, a) (v', c', a') = (v' ∙ v, c' ∙ c, a' ∙ a)

approved_same :
    (p : Proposal) (action : ProposalAction) (q r : Proposal)
    → ApprovedFrom p action q
    → SameOffer q r
    → ApprovedFrom p action r
approved_same p action q r (who, e, from, named, v, c, a) (v', c', a') =
    (who, e, from, named, v' ∙ v, c' ∙ c, a' ∙ a)

-- Whatever is tried with a draft, failed attempts included, if it ends as approved, sent, accepted or
-- declined then one of the attempts is an approval, by a person who is named, of the draft that the
-- attempts before it left, and the versions, the current version and the approver are still those of
-- that approval.
pub run-cleared :
    (p : Proposal) (actions : List ProposalAction)
    → p.state ≡ draft
    → is_cleared (run try_action p actions).state ≡ true
    → GrantedIn try_action is_cleared_proposal SameOffer ApprovedFrom p actions
        (run try_action p actions)
run-cleared p actions fresh c =
    elim (run-GrantedIn try_action is_cleared_proposal SameOffer ApprovedFrom
      (λ p. (refl, refl, refl)) SameOffer-trans approved_same try_action-Cleared p actions c) [
        | inl (before, _) ↦
            let e : is_cleared draft ≡ true = sym (ap is_cleared fresh) ∙ before in cc
        | inr found ↦ found
      ]
