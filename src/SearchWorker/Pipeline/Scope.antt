-- ===== src/SearchWorker/Pipeline/Scope.antt =====
-- apps/worker/src/searchWorker/worker.ts: for whom the pipeline calls, and what it has done when it
-- answers.
use ai_client_acquisition_os.Common.{
  List, [], ◌∷◌, Option, none, some, String, length, ◌⊎◌, inl, inr,
}
use ai_client_acquisition_os.Search.Repository.{StoredSearch}
use ai_client_acquisition_os.SearchWorker.Pipeline.{
  Call, after, ◌>>=◌, pure, SearchWorkerDeps, nested, opportunity_or_new,
  find_or_create_opportunity, prepare, process_prospect, process_prospects, run_canonical_pipeline,
}

-- What a call relates: the tables before it and after it, whatever it answers.
abbrev pub Within : {S A : Type 0} → (S → S → Type 0) → Call S A → Type 0
Within {S} R call = (s : S) → R s (call s).0

abbrev pub WithinIf :
    {S : Type 0} → (S → S → Type 0) → Option (String → String → Call S Unit) → String → Type 0
WithinIf R none user_id = Unit
WithinIf R (some call) user_id = (id : String) → Within R (call user_id id)

-- Every call that is made for one user stays within a relation on the tables.
pub record CallsWithin {S : Type 0} (deps : SearchWorkerDeps S) (R : S → S → Type 0)
    (user_id : String) : Type 0 where
  pub discovery : (id : String) → Within R (deps.run_discovery_for_owner user_id id)
  pub research : (id : String) → Within R (deps.run_research_for_owner user_id id)
  pub lookup : (id : String) → Within R (deps.find_by_prospect_id user_id id)
  pub creation : (id : String) → Within R (deps.create_opportunity_for_owner user_id id)
  pub qualification : WithinIf R deps.evaluate_qualification_for_owner user_id
  pub personalization : WithinIf R deps.evaluate_personalization_for_owner user_id
  pub outreach : WithinIf R deps.prepare_outreach_for_owner user_id
  pub follow_up : WithinIf R deps.prepare_follow_up_for_owner user_id

module _ {S : Type 0} (R : S → S → Type 0) (same : (s : S) → R s s)
    (trans : (s t u : S) → R s t → R t u → R s u) where
  after-Within :
      {A B : Type 0} (next : A → Call S B) (s : S) (result : S × (String ⊎ A))
      → R s result.0
      → ((a : A) → Within R (next a))
      → R s (after next result).0
  after-Within next s (t, inl error) p q = p
  after-Within next s (t, inr a) p q = trans s t (next a t).0 p (q a t)

  then_within :
      {A B : Type 0} (call : Call S A) (next : A → Call S B)
      → Within R call
      → ((a : A) → Within R (next a))
      → Within R (call >>= next)
  then_within call next p q s = after-Within next s (call s) (p s) q

  nested-Within :
      (call : Option (String → String → Call S Unit)) (user_id id : String) (inside : Call S Unit)
      → WithinIf R call user_id
      → Within R inside
      → Within R (nested call user_id id inside)
  nested-Within none user_id id inside p q = same
  nested-Within (some call) user_id id inside p q =
      then_within (call user_id id) (λ _. inside) (p id) (λ _. q)

  module _ (deps : SearchWorkerDeps S) (user_id : String) (calls : CallsWithin deps R user_id) where
    opportunity-Within :
        (prospect : String) (existing : Option String)
        → Within R (opportunity_or_new deps user_id prospect existing)
    opportunity-Within prospect none = calls.creation prospect
    opportunity-Within prospect (some existing) = same

    prepare-Within : (opportunity : String) → Within R (prepare deps user_id opportunity)
    unfolding prepare
    prepare-Within opportunity =
        nested-Within deps.evaluate_qualification_for_owner user_id opportunity _
          calls.qualification
          (nested-Within deps.evaluate_personalization_for_owner user_id opportunity _
            calls.personalization
            (nested-Within deps.prepare_outreach_for_owner user_id opportunity _ calls.outreach (
              nested-Within deps.prepare_follow_up_for_owner user_id opportunity (pure tt)
                calls.follow_up same)))

    find_or_create_opportunity-Within :
        (prospect : String) → Within R (find_or_create_opportunity deps user_id prospect)
    unfolding find_or_create_opportunity
    find_or_create_opportunity-Within prospect =
        then_within (deps.find_by_prospect_id user_id prospect)
          (opportunity_or_new deps user_id prospect) (calls.lookup prospect)
          (opportunity-Within prospect)

    process_prospect-Within :
        (prospect : String) → Within R (process_prospect deps user_id prospect)
    unfolding process_prospect
    process_prospect-Within prospect =
        then_within (deps.run_research_for_owner user_id prospect)
          (λ _. find_or_create_opportunity deps user_id prospect >>= prepare deps user_id)
          (calls.research prospect)
          λ _.
            then_within (find_or_create_opportunity deps user_id prospect) (prepare deps user_id)
              (find_or_create_opportunity-Within prospect) prepare-Within

    process_prospects-Within :
        (prospects : List String) → Within R (process_prospects deps user_id prospects)
    unfolding process_prospects
    process_prospects-Within [] = same
    process_prospects-Within (prospect ∷ prospects) =
        then_within (process_prospect deps user_id prospect)
          (λ _. process_prospects deps user_id prospects) (process_prospect-Within prospect)
          λ _. process_prospects-Within prospects

  -- The pipeline of a search calls for the owner of the search alone: what every call for that user
  -- keeps between the tables before and after it, the whole run keeps, also a run that fails on
  -- the way, whatever the calls for other users would do.
  pub run_canonical_pipeline-Within :
      (deps : SearchWorkerDeps S) (search : StoredSearch)
      → CallsWithin deps R search.user_id
      → (s : S) → R s (run_canonical_pipeline deps search s).0
  unfolding run_canonical_pipeline
  run_canonical_pipeline-Within deps search calls =
      then_within (deps.run_discovery_for_owner search.user_id search.id)
        (λ prospects.
          process_prospects deps search.user_id prospects >>= λ _. pure (length prospects))
        (calls.discovery search.id)
        λ prospects.
          then_within (process_prospects deps search.user_id prospects)
            (λ _. pure (length prospects))
            (process_prospects-Within deps search.user_id calls prospects) λ _. same
