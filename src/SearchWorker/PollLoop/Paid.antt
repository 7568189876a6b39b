-- ===== src/SearchWorker/PollLoop/Paid.antt =====
-- apps/worker/src/searchWorker/worker.ts: what a run costs the backlog of a worker alone with the table.
use ai_client_acquisition_os.Common.{
  ℕ, ◌+◌, ◌≤◌, ◌<◌, Bool, true, false, List, [], ◌∷◌, Option, none, some, String, ◌≡◌, refl, ap,
  ◌∙◌, subst, Bool-cases, Memᴰ, arith, inl, inr, ◌=ˢ◌, =ˢ_iff, count_by, ◌⊎◌,
}
use ai_client_acquisition_os.Common.Rows.{update_where}
use ai_client_acquisition_os.Search.Repository.{
  SearchStatus, pending, running, complete, cancelled, StoredSearch, same_status,
  max_search_attempts, next_pending, lease_to, status_after_failure, claim_picked,
  claim_next_pending, owns, complete_claimed, record_attempt_failure, release_expired_leases,
  is_abandoned, failed_row, completed_row,
}
use ai_client_acquisition_os.Search.Repository as Repository
use ai_client_acquisition_os.SearchWorker.{
  SearchAttemptOutcome, empty, completed, retry, failed, fenced, SearchWorld, Settlement,
  completion_outcome, failure_outcome, settle_failure, settle_success, settle, process_claimed,
  claim_and_process_next_search,
}
use ai_client_acquisition_os.SearchWorker.Pipeline.{SearchWorkerDeps, run_canonical_pipeline}
use ai_client_acquisition_os.Search.Repository.Budget.{next_pending-mem}
use ai_client_acquisition_os.SearchWorker.PollLoop.Backlog.{
  attempts_left, backlog, has_distinct_ids, has_distinct_ids-update_where, backlog-update_where_one,
}
use ai_client_acquisition_os.Search.Repository.Budget.{next_pending-mem}

abbrev pub is_attempt : SearchAttemptOutcome → Bool
is_attempt empty = false
is_attempt (completed id n) = true
is_attempt (retry id attempts error) = true
is_attempt (failed id attempts error) = true
is_attempt (fenced id reason) = true

abbrev pub attempts_of : List SearchAttemptOutcome → ℕ
attempts_of outcomes = count_by is_attempt outcomes

-- A statement on the rows that another has just changed is one statement.
update_where-update_where :
    (q t : StoredSearch → Bool) (g f : StoredSearch → StoredSearch)
    → ((r : StoredSearch) → t r ≡ true → q (f r) ≡ true)
    → ((r : StoredSearch) → t r ≡ false → q r ≡ false)
    → (rows : List StoredSearch)
    → update_where q g (update_where t f rows) ≡ update_where t (λ r. g (f r)) rows
unfolding update_where
update_where-update_where q t g f hit miss [] = refl
update_where-update_where q t g f hit miss (r ∷ rows) = elim (Bool-cases (t r)) [
  | inl chosen ↦ rw (chosen, hit r chosen, update_where-update_where q t g f hit miss rows) refl
  | inr other ↦ rw (other, miss r other, update_where-update_where q t g f hit miss rows) refl
]

-- What a run does to the table: the key stays, and an attempt is paid from the backlog.
abbrev pub Paid : List StoredSearch → Settlement → Type 0
Paid rows (after, outcome) =
    (has_distinct_ids after ≡ has_distinct_ids rows)
    × (attempts_of (outcome ∷ []) + backlog after ≤ backlog rows)

-- A settlement changes the rows that the worker owns, and takes from what the claimed search had left.
record Closing (change : StoredSearch → StoredSearch) : Type 0 where
  same_id : (r : StoredSearch) → (change r).id ≡ r.id
  lowers :
      (worker_id : String) (now lease_end : ℕ) (p : StoredSearch)
      → same_status p.status pending ≡ true
      → attempts_left (change (lease_to worker_id now lease_end p)) < attempts_left p

abbrev Closes : SearchWorld → StoredSearch → List StoredSearch → Settlement → Type 0
Closes w claimed rows (after, outcome) =
    (change : StoredSearch → StoredSearch) × Closing change
    × (after ≡ update_where (owns claimed.id w.worker_id) change rows)

failure_outcome-rows :
    (claimed : StoredSearch) (error : String) (rows : List StoredSearch)
    (status : Option SearchStatus)
    → (failure_outcome claimed error (rows, status)).0 ≡ rows
failure_outcome-rows claimed error rows none = refl
failure_outcome-rows claimed error rows (some Repository.failed) = refl
failure_outcome-rows claimed error rows (some pending) = refl
failure_outcome-rows claimed error rows (some running) = refl
failure_outcome-rows claimed error rows (some complete) = refl
failure_outcome-rows claimed error rows (some cancelled) = refl

completion_outcome-rows :
    (claimed : StoredSearch) (n : ℕ) (rows : List StoredSearch) (owned : Bool)
    → (completion_outcome claimed n (rows, owned)).0 ≡ rows
completion_outcome-rows claimed n rows true = refl
completion_outcome-rows claimed n rows false = refl

settle_failure-Closes :
    (w : SearchWorld) (claimed : StoredSearch) (error : String) (rows : List StoredSearch)
    → Closes w claimed rows (settle_failure w claimed error rows)
unfolding settle_failure record_attempt_failure
settle_failure-Closes w claimed error rows = (
  failed_row w.settle_now error max_search_attempts,
  record { same_id = λ r. refl; lowers = λ worker_id now lease_end p waits. ground (arith, waits) },
  failure_outcome-rows claimed error _
      (record_attempt_failure claimed.id w.worker_id w.settle_now error max_search_attempts rows).1,
)

settle_success-Closes :
    (w : SearchWorld) (claimed : StoredSearch) (n : ℕ) (rows : List StoredSearch)
    (error : Option String)
    → Closes w claimed rows (settle_success w claimed n rows error)
unfolding settle_success complete_claimed
settle_success-Closes w claimed n rows (some error) = settle_failure-Closes w claimed error rows
settle_success-Closes w claimed n rows none = (
  completed_row w.settle_now,
  record { same_id = λ r. refl; lowers = λ worker_id now lease_end p waits. ground (arith, waits) },
  completion_outcome-rows claimed n _ (complete_claimed claimed.id w.worker_id w.settle_now rows).1,
)

one_attempt : (outcome : SearchAttemptOutcome) → attempts_of (outcome ∷ []) ≤ 1
one_attempt outcome = elim (Bool-cases (is_attempt outcome)) [
  | inl spent ↦ rw spent (omega arith)
  | inr free ↦ rw free (omega arith)
]

pub attempts_of_cons :
    (outcome : SearchAttemptOutcome) (outcomes : List SearchAttemptOutcome)
    → attempts_of (outcome ∷ outcomes) ≡ attempts_of (outcome ∷ []) + attempts_of outcomes
attempts_of_cons outcome outcomes = elim (Bool-cases (is_attempt outcome)) [
  | inl spent ↦ rw spent (omega arith)
  | inr free ↦ rw free (omega arith)
]

-- The statements of the claim and of the settlement are one on the claimed row.
claim_and_close :
    (w : SearchWorld) (lease_end : ℕ) (change : StoredSearch → StoredSearch) (p : StoredSearch)
    (rows : List StoredSearch)
    → update_where (owns p.id w.worker_id) change (
        update_where
          (λ (r : StoredSearch). r.id =ˢ p.id)
          (lease_to w.worker_id w.claim_now lease_end)
          rows)
      ≡ update_where
          (λ (r : StoredSearch). r.id =ˢ p.id)
          (λ r. change (lease_to w.worker_id w.claim_now lease_end r))
          rows
claim_and_close w lease_end change p rows =
    update_where-update_where (owns p.id w.worker_id) (λ (r : StoredSearch). r.id =ˢ p.id) change
      (lease_to w.worker_id w.claim_now lease_end)
      (λ r same. ground (arith, same, =ˢ_iff w.worker_id w.worker_id))
      (λ r other. ground (arith, other)) rows

closed-Paid :
    (w : SearchWorld) (lease_end : ℕ) (p : StoredSearch) (rows : List StoredSearch)
    (settlement : Settlement)
    → has_distinct_ids rows ≡ true
    → Memᴰ p rows
    → same_status p.status pending ≡ true
    → Closes w
        (lease_to w.worker_id w.claim_now lease_end p)
        (update_where
          (λ (r : StoredSearch). r.id =ˢ p.id)
          (lease_to w.worker_id w.claim_now lease_end)
          rows)
        settlement
    → Paid rows settlement
closed-Paid w lease_end p rows (after, outcome) distinct m waits (change, closing, e) =
    let lease = lease_to w.worker_id w.claim_now lease_end in
    let once : after
        ≡ update_where (λ (r : StoredSearch). r.id =ˢ p.id) (λ r. change (lease r)) rows =
      e ∙ claim_and_close w lease_end change p rows in
    let less =
      backlog-update_where_one (λ r. change (lease r)) p rows distinct m
        (closing.lowers w.worker_id w.claim_now lease_end p waits) in
    let few = one_attempt outcome in
    (
      ap has_distinct_ids once
          ∙ has_distinct_ids-update_where (λ (r : StoredSearch). r.id =ˢ p.id)
              (λ r. change (lease r)) (λ r. closing.same_id (lease r)) rows,
      rw once (omega (arith, less, few)),
    )

module _ {S : Type 0} (deps : SearchWorkerDeps S) where
  settle-Closes :
      (w : SearchWorld) (claimed : StoredSearch) (rows : List StoredSearch)
      (result : S × (String ⊎ ℕ))
      → Closes w claimed rows (settle deps w claimed rows result).1
  unfolding settle
  settle-Closes w claimed rows (s, inl error) = settle_failure-Closes w claimed error rows
  settle-Closes w claimed rows (s, inr n) = settle_success-Closes w claimed n rows w.complete_error

  -- The worker is the only one that changes the table while its calls run.
  abbrev pub IsAlone : SearchWorld → Type 0
  IsAlone w = (rows : List StoredSearch) → w.meanwhile rows ≡ rows

  process_claimed-Paid :
      (w : SearchWorld) (s : S) (rows : List StoredSearch) (lease_end : ℕ)
      (picked : Option StoredSearch)
      → IsAlone w
      → has_distinct_ids rows ≡ true
      → next_pending w.locked rows ≡ picked
      → Paid rows
          (process_claimed deps w s (claim_picked w.worker_id w.claim_now lease_end rows picked)).1
  unfolding process_claimed
  process_claimed-Paid w s rows lease_end none alone distinct e = (refl, omega arith)
  process_claimed-Paid w s rows lease_end (some p) alone distinct e =
      let (m, waits) = next_pending-mem w.locked rows p e in
      let claim = claim_picked w.worker_id w.claim_now lease_end rows (some p) in
      let claimed = lease_to w.worker_id w.claim_now lease_end p in
      closed-Paid w lease_end p rows _ distinct m waits (
        subst
          (λ after.
            Closes w claimed after
              (settle deps w claimed (w.meanwhile claim.0)
                (run_canonical_pipeline deps claimed s)).1)
          (alone claim.0)
          (settle-Closes w claimed (w.meanwhile claim.0) (run_canonical_pipeline deps claimed s)))

  pub claim_and_process_next_search-Paid :
      (w : SearchWorld) (s : S) (rows : List StoredSearch)
      → IsAlone w
      → has_distinct_ids rows ≡ true
      → Paid rows (claim_and_process_next_search deps w s rows).1
  unfolding claim_and_process_next_search claim_next_pending
  claim_and_process_next_search-Paid w s rows alone distinct =
      process_claimed-Paid w s rows _ (next_pending w.locked rows) alone distinct refl
