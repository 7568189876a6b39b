-- ===== src/Qualification.antt =====
-- packages/core-qualification/src: rules.ts, evaluator.ts, the statements of pgRepository.ts and
-- evaluateQualificationForOwner of service.ts.
pub mod Evaluated
pub mod Recorded
mod Tests
use ai_client_acquisition_os.Common.{
  ℕ, Bool, true, false, not, ◌&&◌, List, [], ◌∷◌, ◌++◌, map, Option, none, some, String, ◌=ˢ◌, any,
  find, keep, length, if◌then◌else◌, is_some,
}
use ai_client_acquisition_os.Common.Rows.{update_where}

pub data Classification : Type 0 where
  observed inferred unknown : Classification

-- The columns of a signal that the rules read.
pub record StoredResearchSignal : Type 0 where
  pub id : String
  pub prospect_id : String
  pub classification : Classification
  pub superseded_at : Option ℕ

pub data QualificationState : Type 0 where
  qualified not_qualified insufficient_evidence : QualificationState

pub data QualificationCriterionId : Type 0 where
  need_detected evidence_present : QualificationCriterionId

-- The reason is a sentence over `satisfied` and the number of ids, and is left out.
pub record QualificationCriterionResult : Type 0 where
  pub criterion : QualificationCriterionId
  pub satisfied : Bool
  pub evidence_signal_ids : List String

pub record QualificationEvaluation : Type 0 where
  pub state : QualificationState
  pub criteria : List QualificationCriterionResult
  pub evidence_signal_ids : List String

abbrev pub is_known : Classification → Bool
is_known observed = true
is_known inferred = true
is_known unknown = false

abbrev pub is_evidentiary : StoredResearchSignal → Bool
is_evidentiary signal = not (is_some signal.superseded_at) && is_known signal.classification

unfoldable pub evaluate_need_detected : Bool → QualificationCriterionResult
evaluate_need_detected detected = record {
  criterion = need_detected;
  satisfied = detected;
  evidence_signal_ids = [];
}

unfoldable pub evaluate_evidence_present : List StoredResearchSignal → QualificationCriterionResult
evaluate_evidence_present signals = record {
  criterion = evidence_present;
  satisfied = any is_evidentiary signals;
  evidence_signal_ids = map (λ (s : StoredResearchSignal). s.id) (keep is_evidentiary signals);
}

-- `Array.from(new Set(ids))`: each id where it stands first; `seen` are those before.
unfoldable pub unique_ids : List String → List String → List String
unique_ids seen [] = []
unique_ids seen (id ∷ ids) =
    let rest = unique_ids seen ids in
    let first = unique_ids (id ∷ seen) ids in if any (λ j. id =ˢ j) seen then rest else id ∷ first

abbrev pub state_of : Bool → QualificationState
state_of true = qualified
state_of false = insufficient_evidence

unfoldable pub evaluate_qualification : Bool → List StoredResearchSignal → QualificationEvaluation
unfolding evaluate_need_detected evaluate_evidence_present unique_ids
evaluate_qualification detected signals =
    let need = evaluate_need_detected detected in
    let evidence = evaluate_evidence_present signals in
    if not need.satisfied
    then record { state = not_qualified; criteria = need ∷ []; evidence_signal_ids = [] }
    else record {
      state = state_of evidence.satisfied;
      criteria = need ∷ evidence ∷ [];
      evidence_signal_ids =
          unique_ids [] (need.evidence_signal_ids ++ evidence.evidence_signal_ids);
    }

pub record StoredQualification : Type 0 where
  pub id : String
  pub opportunity_id : String
  pub prospect_id : String
  pub evaluation : QualificationEvaluation
  pub evaluator_version : String
  pub evaluated_at : ℕ
  pub created_at : ℕ
  pub updated_at : ℕ

-- What the service reads of an opportunity.
pub record Opportunity : Type 0 where
  pub id : String
  pub user_id : String
  pub prospect_id : String
  pub need_detected : Bool

abbrev pub evaluator_version_now : String
evaluator_version_now = "qualification-v1"

abbrev pub is_for : String → StoredQualification → Bool
is_for opportunity_id row = row.opportunity_id =ˢ opportunity_id

-- `INSERT … ON CONFLICT (opportunity_id) DO UPDATE`; `row_id` and `db_now` are the database's.
unfoldable pub upsert :
    String → ℕ → StoredQualification → List StoredQualification → List StoredQualification
unfolding update_where
upsert row_id db_now input table =
    if any (is_for input.opportunity_id) table
    then update_where (is_for input.opportunity_id)
        (λ old. record input { id = old.id; created_at = old.created_at; updated_at = db_now })
        table
    else table ++ (record input { id = row_id; created_at = db_now; updated_at = db_now } ∷ [])

abbrev pub is_own : String → String → Opportunity → Bool
is_own user_id id o = (o.id =ˢ id) && (o.user_id =ˢ user_id)

abbrev pub new_row : Opportunity → QualificationEvaluation → ℕ → StoredQualification
new_row o evaluation now = record {
  id = "";
  opportunity_id = o.id;
  prospect_id = o.prospect_id;
  evaluation = evaluation;
  evaluator_version = evaluator_version_now;
  evaluated_at = now;
  created_at = now;
  updated_at = now;
}

-- `signals_of` is `listByProspect`, of a user and a prospect.
module _ (signals_of : String → String → List StoredResearchSignal) (row_id : String)
    (db_now : ℕ) where
  abbrev pub evaluate_found :
      String
      → ℕ
      → List StoredQualification
      → Option Opportunity
      → List StoredQualification × Option StoredQualification
  unfolding upsert evaluate_qualification
  evaluate_found user_id now table none = (table, none)
  evaluate_found user_id now table (some o) =
      let evaluation = evaluate_qualification o.need_detected (signals_of user_id o.prospect_id) in
      let after = upsert row_id db_now (new_row o evaluation now) table in
      (after, find (is_for o.id) after)

  -- `none` is OpportunityNotFoundError.
  unfoldable pub evaluate_qualification_for_owner :
      String
      → String
      → ℕ
      → List Opportunity
      → List StoredQualification
      → List StoredQualification × Option StoredQualification
  unfolding evaluate_found
  evaluate_qualification_for_owner user_id opportunity_id now opportunities table =
      evaluate_found user_id now table (find (is_own user_id opportunity_id) opportunities)
