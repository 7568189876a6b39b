-- ===== src/SearchWorker/Pipeline.antt =====
-- apps/worker/src/searchWorker/worker.ts: runCanonicalPipeline, over the calls of the domain packages.
pub mod Scope
pub mod Done
use ai_client_acquisition_os.Common.{
  ℕ, Bool, List, [], ◌∷◌, Option, none, some, String, length, ◌⊎◌, inl, inr,
}
use ai_client_acquisition_os.Search.Repository.{StoredSearch}

-- A call over the tables `S` that the domain packages write: it answers or throws an error's text.
abbrev pub Call : Type 0 → Type 0 → Type 0
Call S A = S → S × (String ⊎ A)

infixl 5 ◌>>=◌
abbrev pub after : {S A B : Type 0} → (A → Call S B) → S × (String ⊎ A) → S × (String ⊎ B)
after next (s, inl error) = (s, inl error)
after next (s, inr a) = next a s

abbrev pub ◌>>=◌ : {S A B : Type 0} → Call S A → (A → Call S B) → Call S B
(call >>= next) s = after next (call s)

abbrev pub pure : {S A : Type 0} → A → Call S A
pure a s = (s, inr a)

-- The ForOwner functions and the lookup that the worker calls. The first argument is the user's id,
-- the second that of the search, the prospect or the opportunity; the last four have no call where
-- the worker runs without their repository.
pub record SearchWorkerDeps (S : Type 0) : Type 0 where
  pub run_discovery_for_owner : String → String → Call S (List String)
  pub run_research_for_owner : String → String → Call S Unit
  pub find_by_prospect_id : String → String → Call S (Option String)
  pub create_opportunity_for_owner : String → String → Call S String
  pub evaluate_qualification_for_owner : Option (String → String → Call S Unit)
  pub evaluate_personalization_for_owner : Option (String → String → Call S Unit)
  pub prepare_outreach_for_owner : Option (String → String → Call S Unit)
  pub prepare_follow_up_for_owner : Option (String → String → Call S Unit)

-- `if (repository) { await call; … }`: what is inside runs after the call.
abbrev pub nested :
    {S : Type 0}
    → Option (String → String → Call S Unit)
    → String
    → String
    → Call S Unit
    → Call S Unit
nested none user_id id inside = pure tt
nested (some call) user_id id inside = call user_id id >>= λ _. inside

module _ {S : Type 0} (deps : SearchWorkerDeps S) where
  -- `existingOpportunity ?? (await createOpportunityForOwner(…))`.
  abbrev pub opportunity_or_new : String → String → Option String → Call S String
  opportunity_or_new user_id prospect (some existing) = pure existing
  opportunity_or_new user_id prospect none = deps.create_opportunity_for_owner user_id prospect

  unfoldable pub prepare : String → String → Call S Unit
  prepare user_id opportunity = nested deps.evaluate_qualification_for_owner user_id opportunity (
      nested deps.evaluate_personalization_for_owner user_id opportunity (
        nested deps.prepare_outreach_for_owner user_id opportunity
          (nested deps.prepare_follow_up_for_owner user_id opportunity (pure tt))))

  unfoldable pub find_or_create_opportunity : String → String → Call S String
  find_or_create_opportunity user_id prospect = do
    existing ← deps.find_by_prospect_id user_id prospect
    opportunity_or_new user_id prospect existing

  unfoldable pub process_prospect : String → String → Call S Unit
  unfolding prepare find_or_create_opportunity
  process_prospect user_id prospect = do
    _ ← deps.run_research_for_owner user_id prospect
    opportunity ← find_or_create_opportunity user_id prospect
    prepare user_id opportunity

  unfoldable pub process_prospects : String → List String → Call S Unit
  unfolding process_prospect
  process_prospects user_id [] = pure tt
  process_prospects user_id (prospect ∷ prospects) = do
    _ ← process_prospect user_id prospect
    process_prospects user_id prospects

  unfoldable pub run_canonical_pipeline : StoredSearch → Call S ℕ
  unfolding process_prospects
  run_canonical_pipeline search = do
    prospects ← deps.run_discovery_for_owner search.user_id search.id
    _ ← process_prospects search.user_id prospects
    pure (length prospects)
