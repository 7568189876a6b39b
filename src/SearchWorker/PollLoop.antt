-- ===== src/SearchWorker/PollLoop.antt =====
-- apps/worker/src/searchWorker/pollLoop.ts.
pub mod Backlog
pub mod Paid
pub mod Attempts
use ai_client_acquisition_os.Common.{ℕ, Bool, List, [], ◌∷◌, if◌then◌else◌}
use ai_client_acquisition_os.Search.Repository.{StoredSearch, release_expired_leases}
use ai_client_acquisition_os.SearchWorker.{
  SearchAttemptOutcome, SearchWorld, Settlement, claim_and_process_next_search,
}
use ai_client_acquisition_os.SearchWorker.Pipeline.{SearchWorkerDeps}

-- What a round of the loop meets: the three readings of the signal, the clock at the release and the
-- world of the run.
pub record PollRound : Type 0 where
  pub aborted_before : Bool
  pub aborted_released : Bool
  pub aborted_after : Bool
  pub release_now : ℕ
  pub world : SearchWorld

-- The tables of the domain packages, the searches, and the outcomes of the runs; the loop sleeps
-- after each that is `empty`.
pub record Polled (S : Type 0) : Type 0 where
  pub tables : S
  pub rows : List StoredSearch
  pub outcomes : List SearchAttemptOutcome

abbrev pub outcome_first : {S : Type 0} → SearchAttemptOutcome → Polled S → Polled S
outcome_first outcome polled = record polled { outcomes = outcome ∷ polled.outcomes }

abbrev pub stopped : {S : Type 0} → S → List StoredSearch → Polled S
stopped s rows = record { tables = s; rows = rows; outcomes = [] }

module _ {S : Type 0} (deps : SearchWorkerDeps S) where
  -- The rest of a round, after the run; `next` is the rest of the loop.
  abbrev pub after_run : Bool → (S → List StoredSearch → Polled S) → S × Settlement → Polled S
  after_run aborted next (s, (rows, outcome)) =
      outcome_first outcome (if aborted then stopped s rows else next s rows)

  abbrev pub after_release :
      PollRound → (S → List StoredSearch → Polled S) → S → List StoredSearch → Polled S
  unfolding claim_and_process_next_search
  after_release round next s rows =
      if round.aborted_released
      then stopped s rows
      else after_run round.aborted_after next
          (claim_and_process_next_search deps round.world s rows)

  -- The rounds that have passed; the loop runs on after the last.
  unfoldable pub run_search_worker_poll_loop : List PollRound → S → List StoredSearch → Polled S
  unfolding after_release release_expired_leases
  run_search_worker_poll_loop [] s rows = stopped s rows
  run_search_worker_poll_loop (round ∷ rounds) s rows =
      if round.aborted_before
      then stopped s rows
      else after_release round (run_search_worker_poll_loop rounds) s
          (release_expired_leases round.release_now rows).0
