-- ===== src/SearchWorker.antt =====
-- apps/worker/src/searchWorker/worker.ts.
pub mod Pipeline
pub mod Settled
pub mod Answers
pub mod PollLoop
mod Tests
use ai_client_acquisition_os.Common.{
  ℕ, ◌+◌, ◌*◌, Bool, true, false, List, [], ◌∷◌, Option, none, some, String, or_else, ◌⊎◌, inl, inr,
}
use ai_client_acquisition_os.Search.Repository.{
  SearchStatus, pending, running, complete, cancelled, StoredSearch, claim_next_pending,
  complete_claimed, record_attempt_failure, max_search_attempts,
}
use ai_client_acquisition_os.Search.Repository as Repository
use ai_client_acquisition_os.SearchWorker.Pipeline.{SearchWorkerDeps, run_canonical_pipeline}

pub data SearchAttemptOutcome : Type 0 where
  empty : SearchAttemptOutcome
  completed : String → ℕ → SearchAttemptOutcome
  retry failed : String → ℕ → String → SearchAttemptOutcome
  fenced : String → String → SearchAttemptOutcome

abbrev pub default_search_lease_duration_ms : ℕ
default_search_lease_duration_ms = 10 * 60 * 1000

-- The worker's configuration, what the clock shows, the rows that other statements hold at the claim,
-- what other workers and requests do to the table while the pipeline runs, and the error of the
-- completing statement, which then changes nothing.
pub record SearchWorld : Type 0 where
  pub worker_id : String
  pub lease_duration_ms : Option ℕ
  pub claim_now : ℕ
  pub settle_now : ℕ
  pub locked : String → Bool
  pub meanwhile : List StoredSearch → List StoredSearch
  pub complete_error : Option String

abbrev pub Settlement : Type 0
Settlement = List StoredSearch × SearchAttemptOutcome

abbrev pub completion_outcome : StoredSearch → ℕ → List StoredSearch × Bool → Settlement
completion_outcome claimed prospects_processed (rows, true) =
    (rows, completed claimed.id prospects_processed)
completion_outcome claimed prospects_processed (rows, false) =
    (rows, fenced claimed.id "lease lost before completion")

abbrev pub failure_outcome :
    StoredSearch → String → List StoredSearch × Option SearchStatus → Settlement
failure_outcome claimed error (rows, none) = (rows, fenced claimed.id "lease lost before failure")
failure_outcome claimed error (rows, some Repository.failed) =
    (rows, failed claimed.id claimed.attempts error)
failure_outcome claimed error (rows, some pending) = (rows, retry claimed.id claimed.attempts error)
failure_outcome claimed error (rows, some running) = (rows, retry claimed.id claimed.attempts error)
failure_outcome claimed error (rows, some complete) =
    (rows, retry claimed.id claimed.attempts error)
failure_outcome claimed error (rows, some cancelled) =
    (rows, retry claimed.id claimed.attempts error)

-- The `catch`.
unfoldable pub settle_failure : SearchWorld → StoredSearch → String → List StoredSearch → Settlement
unfolding record_attempt_failure
settle_failure w claimed error rows =
    failure_outcome claimed error
      (record_attempt_failure claimed.id w.worker_id w.settle_now error max_search_attempts rows)

unfoldable pub settle_success :
    SearchWorld → StoredSearch → ℕ → List StoredSearch → Option String → Settlement
unfolding complete_claimed settle_failure
settle_success w claimed prospects_processed rows none =
    completion_outcome claimed prospects_processed
      (complete_claimed claimed.id w.worker_id w.settle_now rows)
settle_success w claimed prospects_processed rows (some error) = settle_failure w claimed error rows

module _ {S : Type 0} (deps : SearchWorkerDeps S) where
  -- After the pipeline, over the table as it stands then.
  unfoldable pub settle :
      SearchWorld → StoredSearch → List StoredSearch → S × (String ⊎ ℕ) → S × Settlement
  unfolding settle_success settle_failure
  settle w claimed rows (s, inl error) = (s, settle_failure w claimed error rows)
  settle w claimed rows (s, inr prospects_processed) =
      (s, settle_success w claimed prospects_processed rows w.complete_error)

  unfoldable pub process_claimed :
      SearchWorld → S → List StoredSearch × Option StoredSearch → S × Settlement
  unfolding settle run_canonical_pipeline
  process_claimed w s (rows, none) = (s, (rows, empty))
  process_claimed w s (rows, some claimed) =
      settle w claimed (w.meanwhile rows) (run_canonical_pipeline deps claimed s)

  unfoldable pub claim_and_process_next_search :
      SearchWorld → S → List StoredSearch → S × Settlement
  unfolding process_claimed claim_next_pending
  claim_and_process_next_search w s rows = process_claimed w s (
      claim_next_pending w.locked w.worker_id w.claim_now
        (w.claim_now + or_else w.lease_duration_ms default_search_lease_duration_ms) rows)
