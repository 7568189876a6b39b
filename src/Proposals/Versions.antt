-- ===== src/Proposals/Versions.antt =====
-- packages/core-proposal/src/versions.ts: the states of a proposal and the history of its versions.
use ai_client_acquisition_os.Common.{
  ℕ, ◌+◌, Bool, ◌||◌, List, [], ◌∷◌, ◌++◌, Option, none, some, String, leb, ◌==◌, any, find, keep,
  if◌then◌else◌, inl, inr, ◌⊎◌,
}
use ai_client_acquisition_os.Common.Text.{trim, is_blank}
use ai_client_acquisition_os.Common.Sort.{sort_by}
use ai_client_acquisition_os.Proposals.Schema.{
  GeneratedProposal, ProposalVersion, proposal_version_schema, ProposalState, draft, approved, sent,
  accepted, declined, Proposal,
}

abbrev state_number : ProposalState → ℕ
state_number draft = 0
state_number approved = 1
state_number sent = 2
state_number accepted = 3
state_number declined = 4

abbrev pub same_state : ProposalState → ProposalState → Bool
same_state a b = state_number a == state_number b

unfoldable pub transitions : ProposalState → List ProposalState
transitions draft = approved ∷ []
transitions approved = sent ∷ draft ∷ []
transitions sent = accepted ∷ declined ∷ []
transitions accepted = []
transitions declined = draft ∷ []

unfoldable pub can_transition : ProposalState → ProposalState → Bool
unfolding transitions
can_transition from to = any (same_state to) (transitions from)

pub data ProposalError : Type 0 where
  state_error : ProposalState → ProposalState → ProposalError
  missing_editor missing_summary missing_approver invalid_version : ProposalError
  missing_version : ℕ → ProposalError

abbrev pub Changed : Type 0
Changed = ProposalError ⊎ Proposal

abbrev pub guarded : Proposal → ProposalState → Changed → Changed
unfolding can_transition
guarded proposal to next =
    if can_transition proposal.state to then next else inl (state_error proposal.state to)

abbrev pub has_number : ℕ → ProposalVersion → Bool
has_number n v = v.version == n

-- `none` where the source throws.
abbrev pub current_version_of : Proposal → Option ProposalVersion
current_version_of proposal = find (has_number proposal.current_version) proposal.versions

pub record EditInput : Type 0 where
  pub content : GeneratedProposal
  pub edited_by : String
  pub edit_summary : String
  pub at : ℕ

abbrev pub next_version : ProposalVersion → EditInput → ProposalVersion
next_version previous edit = record previous {
  version = previous.version + 1;
  content = edit.content;
  created_at = edit.at;
  created_by = edit.edited_by;
  edit_summary = some edit.edit_summary;
}

abbrev pub append_version : Proposal → Option ProposalVersion → Changed
append_version proposal none = inl invalid_version
append_version proposal (some next) = inr (record proposal {
  state = draft;
  approved_by = none;
  current_version = next.version;
  versions = proposal.versions ++ (next ∷ []);
})

unfoldable pub edit_current : Proposal → EditInput → Option ProposalVersion → Changed
unfolding proposal_version_schema
edit_current proposal edit none = inl (missing_version proposal.current_version)
edit_current proposal edit (some previous) =
    append_version proposal (proposal_version_schema (next_version previous edit))

unfoldable pub append_edit : Proposal → EditInput → Changed
unfolding edit_current trim
append_edit proposal edit =
    if same_state proposal.state sent || same_state proposal.state accepted
    then inl (state_error proposal.state draft)
    else if is_blank (trim edit.edited_by)
    then inl missing_editor
    else if is_blank (trim edit.edit_summary)
    then inl missing_summary
    else edit_current proposal edit (current_version_of proposal)

unfoldable pub approve : Proposal → String → Changed
unfolding guarded trim
approve proposal approved_by = guarded proposal approved (
    if is_blank (trim approved_by)
    then inl missing_approver
    else inr (record proposal { state = approved; approved_by = some approved_by }))

unfoldable pub mark_sent : Proposal → ℕ → Changed
unfolding guarded
mark_sent proposal at =
    guarded proposal sent (inr (record proposal { state = sent; sent_at = some at }))

pub data Answer : Type 0 where
  accept decline : Answer

abbrev pub answer_state : Answer → ProposalState
answer_state accept = accepted
answer_state decline = declined

unfoldable pub record_answer : Proposal → Answer → ℕ → Changed
unfolding guarded
record_answer proposal answer at =
    guarded proposal (answer_state answer)
      (inr (record proposal { state = answer_state answer; answered_at = some at }))

abbrev last_of : List ProposalVersion → Option ProposalVersion
last_of [] = none
last_of (v ∷ []) = some v
last_of (v ∷ (w ∷ vs)) = last_of (w ∷ vs)

abbrev sent_among : Option ℕ → List ProposalVersion → Option ProposalVersion
sent_among none versions = none
sent_among (some at) versions =
    last_of (keep (λ (v : ProposalVersion). leb v.created_at at) versions)

unfoldable pub sent_version : Proposal → Option ProposalVersion
sent_version proposal = sent_among proposal.sent_at proposal.versions

unfoldable pub history : Proposal → List ProposalVersion
unfolding sort_by
history proposal =
    sort_by (λ (a : ProposalVersion) (b : ProposalVersion). leb b.version a.version)
      proposal.versions

-- What happens to a proposal; a call that throws leaves it as it is.
pub data ProposalAction : Type 0 where
  edit_with : EditInput → ProposalAction
  approve_by : String → ProposalAction
  send_at : ℕ → ProposalAction
  answer_at : Answer → ℕ → ProposalAction

unfoldable pub attempt : Proposal → ProposalAction → Changed
unfolding append_edit approve mark_sent record_answer
attempt proposal (edit_with edit) = append_edit proposal edit
attempt proposal (approve_by who) = approve proposal who
attempt proposal (send_at at) = mark_sent proposal at
attempt proposal (answer_at answer at) = record_answer proposal answer at

abbrev pub settle : Proposal → Changed → Proposal
settle proposal (inl error) = proposal
settle proposal (inr changed) = changed

unfoldable pub try_action : Proposal → ProposalAction → Proposal
unfolding attempt
try_action proposal action = settle proposal (attempt proposal action)
