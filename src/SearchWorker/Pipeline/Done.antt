-- ===== src/SearchWorker/Pipeline/Done.antt =====
-- apps/worker/src/searchWorker/worker.ts: what the pipeline has done when it answers.
use ai_client_acquisition_os.Common.{
  ℕ, List, [], ◌∷◌, String, length, ◌⊎◌, inl, inr, ◌≡◌, refl, ap, subst,
}
use ai_client_acquisition_os.Search.Repository.{StoredSearch}
use ai_client_acquisition_os.SearchWorker.Pipeline.{
  Call, after, ◌>>=◌, pure, SearchWorkerDeps, find_or_create_opportunity, prepare, process_prospect,
  process_prospects, run_canonical_pipeline,
}

-- A call has answered only if the calls that it is made of have.
after_answered :
    {S A B : Type 0} (next : A → Call S B) (result : S × (String ⊎ A)) (t : S) (b : B)
    → after next result ≡ (t, inr b)
    → (s : S) × (a : A) × (result ≡ (s, inr a)) × (next a s ≡ (t, inr b))
after_answered next (s, inl error) t b e = absurd cc
after_answered next (s, inr a) t b e = (s, a, refl, e)

module _ {S : Type 0} (deps : SearchWorkerDeps S) where
  -- The research ran, an opportunity was found or created after it, and every preparation that the
  -- worker is configured for ran for that opportunity.
  abbrev pub Processed : String → String → S → S → Type 0
  Processed user_id prospect s t =
      (researched : S) × (named : S) × (opportunity : String) × (deps.run_research_for_owner user_id
          prospect s
        ≡ (researched, inr tt))
      × (find_or_create_opportunity deps user_id prospect researched ≡ (named, inr opportunity))
      × (prepare deps user_id opportunity named ≡ (t, inr tt))

  process_prospect-Processed :
      (user_id prospect : String) (s t : S)
      → process_prospect deps user_id prospect s ≡ (t, inr tt)
      → Processed user_id prospect s t
  unfolding process_prospect
  process_prospect-Processed user_id prospect s t e =
      let (researched, _, r, later) =
        after_answered
          (λ _. find_or_create_opportunity deps user_id prospect >>= prepare deps user_id)
          (deps.run_research_for_owner user_id prospect s) t tt e in
      let (named, opportunity, f, p) =
        after_answered (prepare deps user_id)
          (find_or_create_opportunity deps user_id prospect researched) t tt later in
      (researched, named, opportunity, r, f, p)

  -- The prospects one after the other, from the tables `s` to the tables `t`.
  abbrev pub AllProcessed : String → List String → S → S → Type 0
  AllProcessed user_id [] s t = s ≡ t
  AllProcessed user_id (prospect ∷ prospects) s t =
      (between : S) × Processed user_id prospect s between
      × AllProcessed user_id prospects between t

  process_prospects-AllProcessed :
      (user_id : String) (prospects : List String) (s t : S)
      → process_prospects deps user_id prospects s ≡ (t, inr tt)
      → AllProcessed user_id prospects s t
  unfolding process_prospects
  process_prospects-AllProcessed user_id [] s t e = ap (λ r. r.0) e
  process_prospects-AllProcessed user_id (prospect ∷ prospects) s t e =
      let (between, _, first, later) =
        after_answered (λ _. process_prospects deps user_id prospects)
          (process_prospect deps user_id prospect s) t tt e in
      (
        between,
        process_prospect-Processed user_id prospect s between first,
        process_prospects-AllProcessed user_id prospects between t later,
      )

  -- Discovery ran for the owner of the search, and each of its `n` prospects was processed in turn.
  abbrev pub Complete : StoredSearch → S → ℕ → S → Type 0
  Complete claimed s n t =
      (discovered : S) × (prospects : List String) × (deps.run_discovery_for_owner claimed.user_id
          claimed.id s
        ≡ (discovered, inr prospects))
      × (n ≡ length prospects)
      × AllProcessed claimed.user_id prospects discovered t

  pub run_canonical_pipeline-Complete :
      (claimed : StoredSearch) (s t : S) (n : ℕ)
      → run_canonical_pipeline deps claimed s ≡ (t, inr n)
      → Complete claimed s n t
  unfolding run_canonical_pipeline
  run_canonical_pipeline-Complete claimed s t n e =
      let (discovered, prospects, d, later) =
        after_answered
          (λ prospects.
            process_prospects deps claimed.user_id prospects >>= λ _. pure (length prospects))
          (deps.run_discovery_for_owner claimed.user_id claimed.id s) t n e in
      let (end, _, all, answer) =
        after_answered (λ _. pure (length prospects))
          (process_prospects deps claimed.user_id prospects discovered) t n later in
      let ends : end ≡ t = ap (λ r. r.0) answer in
      let counts : n ≡ length prospects = cc in
      (
        discovered,
        prospects,
        d,
        counts,
        subst (λ u. AllProcessed claimed.user_id prospects discovered u) ends
            (process_prospects-AllProcessed claimed.user_id prospects discovered end all),
      )
