-- ===== src/Outreach.antt =====
-- packages/core-outreach/src: approval.ts, with channels.ts and the stored record of schema.ts.
pub mod Gate
mod Tests
use ai_client_acquisition_os.Common.{
  ℕ, Bool, true, false, not, List, [], ◌∷◌, Option, none, some, String, ◌==◌, any, if◌then◌else◌,
  inl, inr, ◌⊎◌, or_else,
}
use ai_client_acquisition_os.Common.Text.{trim, is_blank}

pub data OutreachChannel : Type 0 where
  email instagram_dm linkedin whatsapp : OutreachChannel

pub data ApprovalState : Type 0 where
  draft approved rejected sent : ApprovalState

abbrev state_number : ApprovalState → ℕ
state_number draft = 0
state_number approved = 1
state_number rejected = 2
state_number sent = 3

abbrev pub same_state : ApprovalState → ApprovalState → Bool
same_state a b = state_number a == state_number b

pub record StoredMessage : Type 0 where
  pub id : String
  pub opportunity_id : String
  pub lead_id : String
  pub channel : OutreachChannel
  pub subject : Option String
  pub body : String
  pub model : String
  pub prompt_version : String
  pub generated_at : ℕ
  pub research_version : String
  pub evidence_used : List String
  pub impact_claim : String
  pub call_to_action : String
  pub approval_state : ApprovalState
  pub approved_by : Option String
  pub approved_at : Option ℕ
  pub rejected_reason : Option String
  pub sent_at : Option ℕ
  pub edited_by_human : Bool

unfoldable pub transitions : ApprovalState → List ApprovalState
transitions draft = approved ∷ rejected ∷ []
transitions approved = sent ∷ rejected ∷ draft ∷ []
transitions rejected = draft ∷ []
transitions sent = []

unfoldable pub can_transition : ApprovalState → ApprovalState → Bool
unfolding transitions
can_transition from to = any (same_state to) (transitions from)

pub data ApprovalError : Type 0 where
  approval_transition : ApprovalState → ApprovalState → ApprovalError
  missing_approver : ApprovalError

abbrev pub Changed : Type 0
Changed = ApprovalError ⊎ StoredMessage

abbrev pub is_sendable : StoredMessage → Bool
is_sendable message = same_state message.approval_state approved

-- `assertTransition`, and what follows it.
abbrev pub guarded : StoredMessage → ApprovalState → Changed → Changed
unfolding can_transition
guarded message to next =
    if can_transition message.approval_state to
    then next
    else inl (approval_transition message.approval_state to)

unfoldable pub approve : StoredMessage → String → ℕ → Changed
unfolding guarded trim
approve message approved_by at = guarded message approved (
    if is_blank (trim approved_by)
    then inl missing_approver
    else inr (record message {
      approval_state = approved;
      approved_by = some approved_by;
      approved_at = some at;
      rejected_reason = none;
    }))

unfoldable pub reject : StoredMessage → String → ℕ → Changed
unfolding guarded
reject message reason at = guarded message rejected (
    inr (record message {
      approval_state = rejected;
      rejected_reason = some reason;
      approved_by = none;
      approved_at = some at;
    }))

-- The subject of an edit; `keep` is an absent one.
pub data SubjectEdit : Type 0 where
  keep : SubjectEdit
  change_to : Option String → SubjectEdit

abbrev edited_subject : SubjectEdit → Option String → Option String
edited_subject keep old = old
edited_subject (change_to new) old = new

unfoldable pub apply_human_edit : StoredMessage → SubjectEdit → String → Changed
apply_human_edit message subject body =
    if same_state message.approval_state sent
    then inl (approval_transition sent draft)
    else inr (record message {
      subject = edited_subject subject message.subject;
      body = body;
      edited_by_human = true;
      approval_state = draft;
      approved_by = none;
      approved_at = none;
    })

unfoldable pub mark_sent : StoredMessage → ℕ → Changed
unfolding guarded
mark_sent message at =
    guarded message sent (inr (record message { approval_state = sent; sent_at = some at }))

-- What happens to a message, and what becomes of it; a call that throws leaves it as it is.
pub data MessageAction : Type 0 where
  approve_by : String → ℕ → MessageAction
  reject_for : String → ℕ → MessageAction
  edit : SubjectEdit → String → MessageAction
  send_at : ℕ → MessageAction

abbrev pub attempt : StoredMessage → MessageAction → Changed
unfolding approve reject apply_human_edit mark_sent
attempt message (approve_by user at) = approve message user at
attempt message (reject_for reason at) = reject message reason at
attempt message (edit subject body) = apply_human_edit message subject body
attempt message (send_at at) = mark_sent message at

abbrev pub settle : StoredMessage → Changed → StoredMessage
settle message (inl error) = message
settle message (inr changed) = changed

unfoldable pub try_action : StoredMessage → MessageAction → StoredMessage
unfolding attempt
try_action message action = settle message (attempt message action)
