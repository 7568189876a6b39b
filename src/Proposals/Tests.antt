-- ===== src/Proposals/Tests.antt =====
-- A proposal that is edited, approved, sent and declined, and the theorems at it.
use ai_client_acquisition_os.Common.{◌≡◌, refl, List, [], ◌∷◌, none, true, length, arith}
use ai_client_acquisition_os.Common.Runs.{run, GrantedIn}
use ai_client_acquisition_os.Common.Text.{trim, utf16_length}
use ai_client_acquisition_os.Proposals.Schema.{
  GeneratedProposal, ProposalVersion, Proposal, draft, declined, generated_proposal_schema,
  has_provenance,
}
use ai_client_acquisition_os.Proposals.Versions.{
  ProposalAction, edit_with, approve_by, send_at, answer_at, decline, try_action, EditInput,
}
use ai_client_acquisition_os.Proposals.Record.{IsRecorded}
use ai_client_acquisition_os.Proposals.History.{Continues, run-Continues}
use ai_client_acquisition_os.Proposals.Gate.{
  is_cleared, is_cleared_proposal, SameOffer, ApprovedFrom, run-cleared,
}

abbrev words : GeneratedProposal
words = record {
  problem = "p";
  current_situation = "s";
  recommended_solution = "r";
  deliverables = "d" ∷ [];
  timeline = record { phase = "one"; duration_weeks = 2; outcome = "o" } ∷ [];
  pricing = "₹1,000";
  assumptions = "a" ∷ [];
  next_step = "n";
}

abbrev first : ProposalVersion
first = record {
  proposal_id = "p1";
  version = 1;
  template_id = "t1";
  content = words;
  amount_paise = 100000;
  currency = "INR";
  model = "m";
  prompt_version = "1";
  research_version = "1";
  created_at = 1;
  created_by = "SYSTEM";
  edit_summary = none;
}

abbrev proposal : Proposal
proposal = record {
  id = "p1";
  opportunity_id = "o1";
  lead_id = "l1";
  state = draft;
  current_version = 1;
  versions = first ∷ [];
  approved_by = none;
  sent_at = none;
  answered_at = none;
}

abbrev edit : EditInput
edit = record {
  content = record words { problem = " q " };
  edited_by = "asha";
  edit_summary = "tone";
  at = 2;
}

abbrev actions : List ProposalAction
actions = send_at 1 ∷ edit_with edit ∷ approve_by "asha" ∷ send_at 3 ∷ answer_at decline 4 ∷ []

ended : (run try_action proposal actions).state ≡ declined
unfolding run try_action trim utf16_length generated_proposal_schema has_provenance
ended = refl

grown : length (run try_action proposal actions).versions ≡ 2
unfolding run try_action trim utf16_length generated_proposal_schema has_provenance
grown = refl

recorded : IsRecorded 100000 "INR" "t1" proposal
recorded = record {
  numbered = (refl, tt);
  counted = refl;
  some_version = omega arith;
  terms = ((refl, refl, refl), tt);
}

run-Continues_example : Continues 100000 "INR" "t1" proposal (run try_action proposal actions)
run-Continues_example = run-Continues 100000 "INR" "t1" proposal actions recorded

cleared : is_cleared (run try_action proposal actions).state ≡ true
unfolding run try_action trim utf16_length generated_proposal_schema has_provenance
cleared = refl

run-cleared_example :
    GrantedIn try_action is_cleared_proposal SameOffer ApprovedFrom proposal actions
      (run try_action proposal actions)
run-cleared_example = run-cleared proposal actions refl cleared
