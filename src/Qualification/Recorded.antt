-- ===== src/Qualification/Recorded.antt =====
-- packages/core-qualification/src/service.ts: what a run leaves in the table.
use ai_client_acquisition_os.Common.{
  ℕ, Bool, false, not, List, Option, none, some, any, find, keep, count_by, String, ◌=ˢ◌, ◌≡◌, max,
  ◌⊎◌, Memᴰ, ◌&&◌,
}
use ai_client_acquisition_os.Qualification.{
  StoredResearchSignal, StoredQualification, Opportunity, is_for,
}
use ai_client_acquisition_os.Qualification.Evaluated.{Evaluated}

-- The rows of the other opportunities.
abbrev pub others : String → List StoredQualification → List StoredQualification
others opportunity_id table =
    keep (λ (r : StoredQualification). not (is_for opportunity_id r)) table

abbrev pub rows_for : String → List StoredQualification → ℕ
rows_for opportunity_id table = count_by (is_for opportunity_id) table

-- The first row of an opportunity carries what was written.
abbrev pub Carries : StoredQualification → List StoredQualification → Type 0
Carries input table =
    (r : StoredQualification) × (find (is_for input.opportunity_id) table ≡ some r)
    × (r.evaluation ≡ input.evaluation)
    × (r.prospect_id ≡ input.prospect_id)

module _ (row_id : String) (db_now : ℕ) (input : StoredQualification) where
  abbrev for_it : StoredQualification → Bool
  for_it = is_for input.opportunity_id

  abbrev rewritten : StoredQualification → StoredQualification
  rewritten old = record input { id = old.id; created_at = old.created_at; updated_at = db_now }

  abbrev inserted : StoredQualification
  inserted = record input { id = row_id; created_at = db_now; updated_at = db_now }

  -- One row for the opportunity, with what was written, and the rest as it was.
  abbrev Written : List StoredQualification → List StoredQualification → Type 0
  Written table after =
      Carries input after
      × (others input.opportunity_id after ≡ others input.opportunity_id table)
      × (rows_for input.opportunity_id after ≡ max 1 (rows_for input.opportunity_id table))

module _ (signals_of : String → String → List StoredResearchSignal) (row_id : String) (db_now : ℕ)
    (user_id opportunity_id : String) (now : ℕ) (table : List StoredQualification) where
  -- The caller's own opportunity was found, and its one row carries the evaluation of its need and
  -- of the signals of its prospect.
  abbrev pub OwnEvaluated :
      Opportunity → List StoredQualification × Option StoredQualification → Type 0
  OwnEvaluated o (after, answer) =
      (row : StoredQualification) × (o.id ≡ opportunity_id)
      × (o.user_id ≡ user_id)
      × (answer ≡ some row)
      × Evaluated o.need_detected (signals_of user_id o.prospect_id) row.evaluation
      × (others o.id after ≡ others o.id table)
      × (rows_for o.id after ≡ max 1 (rows_for o.id table))

  abbrev pub Outcome :
      List Opportunity → List StoredQualification × Option StoredQualification → Type 0
  Outcome opportunities result =
      ((any (λ (o : Opportunity). (o.id =ˢ opportunity_id) && (o.user_id =ˢ user_id)) opportunities
          ≡ false)
        × (result ≡ (table, none)))
      ⊎ ((o : Opportunity) × Memᴰ o opportunities × OwnEvaluated o result)
