-- ===== src/SearchWorker/PollLoop/Attempts.antt =====
-- apps/worker/src/searchWorker/pollLoop.ts: how often the loop claims.
use ai_client_acquisition_os.Common.{
  ℕ, ◌+◌, ◌≤◌, Bool, true, false, List, [], ◌∷◌, ◌≡◌, refl, ◌∙◌, Memᴰ, arith, if_both,
}
use ai_client_acquisition_os.Search.Repository.{StoredSearch, release_expired_leases, is_abandoned}
use ai_client_acquisition_os.SearchWorker.{Settlement, claim_and_process_next_search}
use ai_client_acquisition_os.SearchWorker.Pipeline.{SearchWorkerDeps}
use ai_client_acquisition_os.SearchWorker.PollLoop.{
  PollRound, Polled, after_run, run_search_worker_poll_loop,
}
use ai_client_acquisition_os.SearchWorker.PollLoop.Backlog.{
  backlog, has_distinct_ids, has_distinct_ids-update_where, backlog-update_where,
}
use ai_client_acquisition_os.SearchWorker.PollLoop.Paid.{
  attempts_of, attempts_of_cons, Paid, IsAlone, claim_and_process_next_search-Paid,
}

module _ {S : Type 0} (deps : SearchWorkerDeps S) where
  -- What the loop does to the table.
  abbrev Spent : List StoredSearch → Polled S → Type 0
  Spent rows polled = attempts_of polled.outcomes + backlog polled.rows ≤ backlog rows

  released-Spent :
      (now : ℕ) (rows : List StoredSearch)
      → (has_distinct_ids (release_expired_leases now rows).0 ≡ has_distinct_ids rows)
        × (backlog (release_expired_leases now rows).0 ≤ backlog rows)
  unfolding release_expired_leases
  released-Spent now rows = (
    has_distinct_ids-update_where (is_abandoned now) _ (λ r. refl) rows,
    backlog-update_where (is_abandoned now) _ (λ r abandoned. ground (arith, abandoned)) rows,
  )

  after_run-Spent :
      (aborted : Bool) (next : S → List StoredSearch → Polled S) (rows : List StoredSearch)
      (result : S × Settlement)
      → Paid rows result.1
      → Spent result.1.0 (next result.0 result.1.0)
      → Spent rows (after_run deps aborted next result)
  after_run-Spent true next rows (s, (after, outcome)) (d, paid) spent = paid
  after_run-Spent false next rows (s, (after, outcome)) (d, paid) spent =
      omega (arith, attempts_of_cons outcome (next s after).outcomes, paid, spent)

  -- A worker that is alone with the table stops claiming: however long its loop runs, wherever the
  -- signal stops it, whatever its calls answer or throw, also where leases run out and searches are
  -- tried again, its runs that claim a search are never more than the attempts that the searches had
  -- left at the start, of which those that are left at the end remain. Searches have distinct ids.
  pub run_search_worker_poll_loop-attempts :
      (rounds : List PollRound) (s : S) (rows : List StoredSearch)
      → ((round : PollRound) → Memᴰ round rounds → IsAlone deps round.world)
      → has_distinct_ids rows ≡ true
      → let polled = run_search_worker_poll_loop deps rounds s rows in
        attempts_of polled.outcomes + backlog polled.rows ≤ backlog rows
  unfolding run_search_worker_poll_loop
  run_search_worker_poll_loop-attempts [] s rows alone distinct = omega arith
  run_search_worker_poll_loop-attempts (round ∷ rounds) s rows alone distinct =
      let released = (release_expired_leases round.release_now rows).0 in
      let (same, less) = released-Spent round.release_now rows in
      let result = claim_and_process_next_search deps round.world s released in
      let (kept, paid) =
        claim_and_process_next_search-Paid deps round.world s released
          (alone round (Memᴰ.head refl)) (same ∙ distinct) in
      let rest =
        run_search_worker_poll_loop-attempts rounds result.0 result.1.0
          (λ later m. alone later (Memᴰ.tail m)) (kept ∙ same ∙ distinct) in
      let after =
        after_run-Spent round.aborted_after (run_search_worker_poll_loop deps rounds) released
          result (kept, paid) rest in
      if_both (Spent rows) round.aborted_before _ _ (λ _. omega arith)
        λ _.
          if_both (Spent rows) round.aborted_released _ _ (λ _. omega (arith, less))
            λ _. omega (arith, less, after)
