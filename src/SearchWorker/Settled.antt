-- ===== src/SearchWorker/Settled.antt =====
-- apps/worker/src/searchWorker/worker.ts: what an outcome tells of the table of searches.
use ai_client_acquisition_os.Common.{
  ℕ, ◌≤◌, ◌<◌, Bool, true, false, List, [], ◌∷◌, Option, none, some, String, ◌⊎◌, inl, inr, ◌≡◌,
  refl, sym, subst, any, find, leb, Bool-cases, arith,
}
use ai_client_acquisition_os.Common.Rows.{Pairs, Pairs-update_where, update_where_none}
use ai_client_acquisition_os.Search.Repository.{
  SearchStatus, complete, StoredSearch, complete_claimed, record_attempt_failure,
  max_search_attempts, owns, status_after_failure,
}
use ai_client_acquisition_os.Search.Repository.Budget.{Failed, record_attempt_failure-Failed}
use ai_client_acquisition_os.SearchWorker.{
  empty, completed, retry, failed, fenced, SearchWorld, Settlement, completion_outcome,
  failure_outcome, settle_failure, settle_success,
}

module _ (w : SearchWorld) (claimed : StoredSearch) where
  abbrev pub own : StoredSearch → Bool
  own r = owns claimed.id w.worker_id r

  -- The row was another's and is as it was, or was the worker's own and is complete without a lease.
  abbrev pub Closed : StoredSearch → StoredSearch → Type 0
  Closed r s =
      ((own r ≡ false) × (s ≡ r))
      ⊎ ((own r ≡ true)
          × (s.status ≡ complete)
          × (s.lease_owner ≡ none)
          × (s.attempts ≡ r.attempts))

  -- The row was another's and is as it was, or was the worker's own and its failure is counted, with
  -- the error.
  abbrev pub Charged : String → StoredSearch → StoredSearch → Type 0
  Charged error r s =
      ((own r ≡ false) × (s ≡ r))
      ⊎ ((own r ≡ true) × Failed w.worker_id max_search_attempts r s × (s.last_error ≡ some error))

  -- What a settlement tells, `rows` being the table after the pipeline and `Ran n` that the pipeline
  -- got through `n` prospects.
  abbrev pub Told : (ℕ → Type 0) → List StoredSearch → Settlement → Type 0
  Told Ran rows (after, empty) = ⊥
  Told Ran rows (after, completed id n) =
      (id ≡ claimed.id) × Ran n × (any own rows ≡ true) × Pairs Closed rows after
  Told Ran rows (after, retry id attempts error) =
      (id ≡ claimed.id)
      × Pairs (Charged error) rows after
      × ((r : StoredSearch) × (find own rows ≡ some r) × (r.attempts < max_search_attempts))
  Told Ran rows (after, failed id attempts error) =
      (id ≡ claimed.id)
      × Pairs (Charged error) rows after
      × ((r : StoredSearch) × (find own rows ≡ some r) × (max_search_attempts ≤ r.attempts))
  Told Ran rows (after, fenced id reason) =
      (id ≡ claimed.id) × (after ≡ rows) × (any own rows ≡ false)

  find-none : (rows : List StoredSearch) → find own rows ≡ none → any own rows ≡ false
  find-none [] e = refl
  find-none (r ∷ rows) e = ground (arith, find-none rows, e)

  record_attempt_failure-fenced :
      (error : String) (rows : List StoredSearch)
      → find own rows ≡ none
      → (record_attempt_failure claimed.id w.worker_id w.settle_now error max_search_attempts
          rows).0
        ≡ rows
  unfolding record_attempt_failure
  record_attempt_failure-fenced error rows e = update_where_none own _ rows (find-none rows e)

  abbrev answer_of : Option StoredSearch → Option SearchStatus
  answer_of none = none
  answer_of (some r) = some (status_after_failure max_search_attempts r)

  answer_of-elim :
      (found : Option StoredSearch)
      → elim found [ none ↦ none | some r ↦ some (status_after_failure max_search_attempts r) ]
        ≡ answer_of found
  answer_of-elim none = refl
  answer_of-elim (some r) = refl

  record_attempt_failure-answer :
      (error : String) (rows : List StoredSearch)
      → (record_attempt_failure claimed.id w.worker_id w.settle_now error max_search_attempts
          rows).1
        ≡ answer_of (find own rows)
  unfolding record_attempt_failure
  record_attempt_failure-answer error rows = answer_of-elim (find own rows)

  failure_outcome-Told :
      (Ran : ℕ → Type 0) (error : String) (rows after : List StoredSearch)
      (found : Option StoredSearch)
      → find own rows ≡ found
      → Pairs (Charged error) rows after
      → (found ≡ none → after ≡ rows)
      → Told Ran rows (failure_outcome claimed error (after, answer_of found))
  failure_outcome-Told Ran error rows after none e charged kept =
      (refl, kept refl, find-none rows e)
  failure_outcome-Told Ran error rows after (some r) e charged kept =
      elim (Bool-cases (leb max_search_attempts r.attempts)) [
        | inl final ↦ rw final (refl, charged, (r, e, ground (arith, final)))
        | inr again ↦ rw again (refl, charged, (r, e, ground (arith, again)))
      ]

  pub settle_failure-Told :
      (Ran : ℕ → Type 0) (error : String) (rows : List StoredSearch)
      → Told Ran rows (settle_failure w claimed error rows)
  unfolding settle_failure
  settle_failure-Told Ran error rows =
      let result =
        record_attempt_failure claimed.id w.worker_id w.settle_now error max_search_attempts rows in
      subst (λ status. Told Ran rows (failure_outcome claimed error (result.0, status)))
        (sym (record_attempt_failure-answer error rows))
        (failure_outcome-Told Ran error rows result.0 (find own rows) refl
          (record_attempt_failure-Failed claimed.id w.worker_id error w.settle_now
            max_search_attempts rows)
          (record_attempt_failure-fenced error rows))

  complete_claimed-Closed :
      (rows : List StoredSearch)
      → Pairs Closed rows (complete_claimed claimed.id w.worker_id w.settle_now rows).0
  unfolding complete_claimed
  complete_claimed-Closed rows =
      Pairs-update_where Closed own _ (λ r miss. inl (miss, refl))
        (λ r hit. inr (hit, refl, refl, refl)) rows

  complete_claimed-fenced :
      (rows : List StoredSearch)
      → any own rows ≡ false
      → (complete_claimed claimed.id w.worker_id w.settle_now rows).0 ≡ rows
  unfolding complete_claimed
  complete_claimed-fenced rows e = update_where_none own _ rows e

  completion_outcome-Told :
      (Ran : ℕ → Type 0) (n : ℕ) (rows after : List StoredSearch) (owned : Bool)
      → Ran n
      → any own rows ≡ owned
      → Pairs Closed rows after
      → (owned ≡ false → after ≡ rows)
      → Told Ran rows (completion_outcome claimed n (after, owned))
  completion_outcome-Told Ran n rows after true ran e closed kept = (refl, ran, e, closed)
  completion_outcome-Told Ran n rows after false ran e closed kept = (refl, kept refl, e)

  complete_claimed-owned :
      (rows : List StoredSearch)
      → (complete_claimed claimed.id w.worker_id w.settle_now rows).1 ≡ any own rows
  unfolding complete_claimed
  complete_claimed-owned rows = refl

  pub settle_success-Told :
      (Ran : ℕ → Type 0) (n : ℕ) (rows : List StoredSearch) (error : Option String)
      → Ran n
      → Told Ran rows (settle_success w claimed n rows error)
  unfolding settle_success
  settle_success-Told Ran n rows (some error) ran = settle_failure-Told Ran error rows
  settle_success-Told Ran n rows none ran =
      let result = complete_claimed claimed.id w.worker_id w.settle_now rows in
      subst (λ owned. Told Ran rows (completion_outcome claimed n (result.0, owned)))
        (sym (complete_claimed-owned rows))
        (completion_outcome-Told Ran n rows result.0 (any own rows) ran refl
          (complete_claimed-Closed rows) (complete_claimed-fenced rows))
