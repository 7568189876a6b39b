-- ===== src/Proposals/Schema.antt =====
-- packages/core-proposal/src/schema.ts: a version of a proposal, and what its schema lets through.
use ai_client_acquisition_os.Common.{
  ℕ, Bool, not, ◌&&◌, List, [], ◌∷◌, Option, none, some, String, leb, ◌==◌, if◌then◌else◌, length,
}
use ai_client_acquisition_os.Common.Text.{trim, is_blank, utf16_length}

infixl 5 ◌>>=◌
abbrev ◌>>=◌ {ℓ κ} : {A : Type ℓ} {B : Type κ} → Option A → (A → Option B) → Option B
none >>= f = none
some a >>= f = f a

pub record Phase : Type 0 where
  pub phase : String
  pub duration_weeks : ℕ
  pub outcome : String

pub record GeneratedProposal : Type 0 where
  pub problem : String
  pub current_situation : String
  pub recommended_solution : String
  pub deliverables : List String
  pub timeline : List Phase
  pub pricing : String
  pub assumptions : List String
  pub next_step : String

-- `z.string().trim().min(1).max(limit)`.
bounded_text : ℕ → String → Option String
unfolding trim utf16_length
bounded_text limit s =
    if leb 1 (utf16_length (trim s)) && leb (utf16_length (trim s)) limit
    then some (trim s)
    else none

section_text : String → Option String
unfolding bounded_text
section_text s = bounded_text 4000 s

texts : ℕ → List String → Option (List String)
unfolding bounded_text
texts limit [] = some []
texts limit (s ∷ rest) = do t ← bounded_text limit s; ts ← texts limit rest; some (t ∷ ts)

-- `.min(1).max(count)` of an array.
abbrev sized {ℓ} : {A : Type ℓ} → ℕ → List A → Option (List A)
sized count xs = if leb 1 (length xs) && leb (length xs) count then some xs else none

phase_of : Phase → Option Phase
unfolding bounded_text
phase_of p = do
  name ← bounded_text 120 p.phase
  outcome ← bounded_text 300 p.outcome
  if leb 1 p.duration_weeks && leb p.duration_weeks 52
      then some (record { phase = name; duration_weeks = p.duration_weeks; outcome = outcome })
      else none

phases : List Phase → Option (List Phase)
unfolding phase_of
phases [] = some []
phases (p ∷ rest) = do q ← phase_of p; qs ← phases rest; some (q ∷ qs)

unfoldable pub generated_proposal_schema : GeneratedProposal → Option GeneratedProposal
unfolding section_text texts phases
generated_proposal_schema g = do
  problem ← section_text g.problem
  current_situation ← section_text g.current_situation
  recommended_solution ← section_text g.recommended_solution
  sized_deliverables ← sized 12 g.deliverables
  deliverables ← texts 300 sized_deliverables
  sized_timeline ← sized 8 g.timeline
  timeline ← phases sized_timeline
  pricing ← section_text g.pricing
  sized_assumptions ← sized 10 g.assumptions
  assumptions ← texts 300 sized_assumptions
  next_step ← section_text g.next_step
  some (record {
    problem = problem;
    current_situation = current_situation;
    recommended_solution = recommended_solution;
    deliverables = deliverables;
    timeline = timeline;
    pricing = pricing;
    assumptions = assumptions;
    next_step = next_step;
  })

pub record ProposalVersion : Type 0 where
  pub proposal_id : String
  pub version : ℕ
  pub template_id : String
  pub content : GeneratedProposal
  pub amount_paise : ℕ
  pub currency : String
  pub model : String
  pub prompt_version : String
  pub research_version : String
  pub created_at : ℕ
  pub created_by : String
  pub edit_summary : Option String

-- The fields beside the content.
unfoldable pub has_provenance : ProposalVersion → Bool
unfolding utf16_length
has_provenance v =
    not (is_blank v.proposal_id)
    && leb 1 v.version
    && not (is_blank v.template_id)
    && leb 1 v.amount_paise
    && (utf16_length v.currency == 3)
    && not (is_blank v.model)
    && not (is_blank v.prompt_version)
    && not (is_blank v.research_version)
    && not (is_blank v.created_by)

abbrev pub with_content : ProposalVersion → Option GeneratedProposal → Option ProposalVersion
with_content v none = none
with_content v (some content) = some (record v { content = content })

-- `proposalVersionSchema.parse`; `none` where it throws.
unfoldable pub proposal_version_schema : ProposalVersion → Option ProposalVersion
unfolding has_provenance generated_proposal_schema
proposal_version_schema v =
    if has_provenance v then with_content v (generated_proposal_schema v.content) else none

pub data ProposalState : Type 0 where
  draft approved sent accepted declined : ProposalState

pub record Proposal : Type 0 where
  pub id : String
  pub opportunity_id : String
  pub lead_id : String
  pub state : ProposalState
  pub current_version : ℕ
  pub versions : List ProposalVersion
  pub approved_by : Option String
  pub sent_at : Option ℕ
  pub answered_at : Option ℕ
