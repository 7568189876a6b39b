-- ===== src/SearchWorker/Answers.antt =====
-- apps/worker/src/searchWorker/worker.ts: what a run of the worker answers.
use ai_client_acquisition_os.Common.{
  ℕ, ◌+◌, Bool, false, not, ◌&&◌, List, [], ◌∷◌, Option, none, some, String, or_else, ◌⊎◌, inl, inr,
  ◌≡◌, refl, any, Bool-cases, arith,
}
use ai_client_acquisition_os.Search.Repository.{
  pending, StoredSearch, same_status, claim_next_pending, claim_picked, lease_to, next_pending,
  earlier,
}
use ai_client_acquisition_os.SearchWorker.Pipeline.{SearchWorkerDeps, run_canonical_pipeline}
use ai_client_acquisition_os.SearchWorker.Pipeline.Done.{Complete, run_canonical_pipeline-Complete}
use ai_client_acquisition_os.SearchWorker.{
  empty, SearchWorld, Settlement, settle, process_claimed, claim_and_process_next_search,
  default_search_lease_duration_ms,
}
use ai_client_acquisition_os.SearchWorker.Settled.{Told, settle_failure-Told, settle_success-Told}

-- No row waits that another statement does not hold.
abbrev pub is_waiting : (String → Bool) → StoredSearch → Bool
is_waiting locked r = same_status r.status pending && not (locked r.id)

earlier-none : (r : StoredSearch) (rest : Option StoredSearch) → earlier r rest ≡ none → ⊥
earlier-none r none e = cc
earlier-none r (some s) e = ground (arith, e)

next_pending-none :
    (locked : String → Bool) (rows : List StoredSearch)
    → next_pending locked rows ≡ none
    → any (is_waiting locked) rows ≡ false
unfolding next_pending
next_pending-none locked [] e = refl
next_pending-none locked (r ∷ rows) e = elim (Bool-cases (is_waiting locked r)) [
  | inl waits ↦ absurd (earlier-none r (next_pending locked rows) (rw waits at e))
  | inr not_waiting ↦ rw not_waiting (next_pending-none locked rows (rw not_waiting at e))
]

module _ {S : Type 0} (deps : SearchWorkerDeps S) (w : SearchWorld) where
  settle-Told :
      (claimed : StoredSearch) (s : S) (rows : List StoredSearch) (result : S × (String ⊎ ℕ))
      → run_canonical_pipeline deps claimed s ≡ result
      → Told w claimed
          (λ n. Complete deps claimed s n (settle deps w claimed rows result).0)
          rows
          (settle deps w claimed rows result).1
  unfolding settle
  settle-Told claimed s rows (t, inl error) e =
      settle_failure-Told w claimed (λ n. Complete deps claimed s n t) error rows
  settle-Told claimed s rows (t, inr n) e =
      settle_success-Told w claimed (λ n. Complete deps claimed s n t) n rows w.complete_error
        (run_canonical_pipeline-Complete deps claimed s t n e)

  -- The search that a run claims, and the table that its claim leaves.
  abbrev pub claim_of : List StoredSearch → List StoredSearch × Option StoredSearch
  claim_of rows =
      claim_next_pending w.locked w.worker_id w.claim_now
        (w.claim_now + or_else w.lease_duration_ms default_search_lease_duration_ms) rows

  -- What the run answers for a claim.
  abbrev pub Answered :
      S → List StoredSearch → List StoredSearch × Option StoredSearch → S × Settlement → Type 0
  Answered s rows (leased, none) result =
      (any (is_waiting w.locked) rows ≡ false) × (result ≡ (s, (rows, empty)))
  Answered s rows (leased, some claimed) result =
      Told w claimed (λ n. Complete deps claimed s n result.0) (w.meanwhile leased) result.1

  process_claimed-Answered :
      (s : S) (rows : List StoredSearch) (lease_end : ℕ) (picked : Option StoredSearch)
      → next_pending w.locked rows ≡ picked
      → let claim = claim_picked w.worker_id w.claim_now lease_end rows picked in
        Answered s rows claim (process_claimed deps w s claim)
  unfolding process_claimed
  process_claimed-Answered s rows lease_end none e = (next_pending-none w.locked rows e, refl)
  process_claimed-Answered s rows lease_end (some picked) e =
      let claim = claim_picked w.worker_id w.claim_now lease_end rows (some picked) in
      settle-Told (lease_to w.worker_id w.claim_now lease_end picked) s (w.meanwhile claim.0)
        (run_canonical_pipeline deps (lease_to w.worker_id w.claim_now lease_end picked) s) refl

  -- Whatever the domain calls answer or throw, and whatever other workers do to the table while they
  -- run, the outcome of a run tells what it did. `empty`: nothing waited that was not locked, and
  -- nothing changed. `completed` with `n`: discovery ran for the owner of the claimed search, each of
  -- its `n` prospects was processed in turn, and the search is COMPLETE without a lease. `retry` and
  -- `failed`: the search, held under the worker's own lease, has no lease any more and carries the
  -- error, with the attempts counted as they were; it waits again, or has failed for good just if they
  -- are used up. `fenced`: the lease was lost, and the worker changed nothing of what the others left.
  -- No other row is touched by the settlement.
  pub claim_and_process_next_search-Answered :
      (s : S) (rows : List StoredSearch)
      → Answered s rows (claim_of rows) (claim_and_process_next_search deps w s rows)
  unfolding claim_and_process_next_search claim_next_pending
  claim_and_process_next_search-Answered s rows =
      process_claimed-Answered s rows
        (w.claim_now + or_else w.lease_duration_ms default_search_lease_duration_ms)
        (next_pending w.locked rows) refl
