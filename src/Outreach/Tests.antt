-- ===== src/Outreach/Tests.antt =====
-- A message that is approved, edited and approved again, and the theorem at it.
use ai_client_acquisition_os.Common.{◌≡◌, refl, List, [], ◌∷◌, some, none, false}
use ai_client_acquisition_os.Common.Runs.{run, GrantedIn}
use ai_client_acquisition_os.Common.Text.{trim}
use ai_client_acquisition_os.Outreach.{
  StoredMessage, email, draft, sent, MessageAction, approve_by, edit, send_at, keep, try_action,
}
use ai_client_acquisition_os.Outreach.Gate.{run-sent, is_cleared_message, SameWords, ApprovedFrom}

abbrev message : StoredMessage
message = record {
  id = "m1";
  opportunity_id = "o1";
  lead_id = "l1";
  channel = email;
  subject = some "Your booking page";
  body = "first words";
  model = "m";
  prompt_version = "1";
  generated_at = 1;
  research_version = "1";
  evidence_used = [];
  impact_claim = "c";
  call_to_action = "a";
  approval_state = draft;
  approved_by = none;
  approved_at = none;
  rejected_reason = none;
  sent_at = none;
  edited_by_human = false;
}

-- The send after the edit fails: the edit took the approval back.
abbrev actions : List MessageAction
actions =
    approve_by "asha" 2 ∷ edit keep "other words" ∷ send_at 3 ∷ approve_by "asha" 4 ∷ send_at 5 ∷ []

goes_out : (run try_action message actions).approval_state ≡ sent
unfolding run try_action trim
goes_out = refl

not_straight : (try_action message (send_at 2)).approval_state ≡ draft
unfolding try_action
not_straight = refl

run-sent_example :
    GrantedIn try_action is_cleared_message SameWords ApprovedFrom message actions
      (run try_action message actions)
run-sent_example = run-sent message actions refl goes_out
