-- ===== src/Search/Repository/Budget.antt =====
-- The attempts of a search: what charges them and what they decide.
use ai_client_acquisition_os.Common.{
  ℕ, ◌≤◌, ◌<◌, true, false, List, [], ◌∷◌, Option, none, some, String, Bool, Memᴰ, ◌≡◌, refl, arith,
  ◌⊎◌, inl, inr, ◌↔◌, =ˢ_iff, not, ◌&&◌, if_both, Bool-cases, ltb,
}
use ai_client_acquisition_os.Common.Rows.{Pairs, Pairs-update_where}
use ai_client_acquisition_os.Search.Repository.{
  SearchStatus, pending, running, failed, StoredSearch, next_pending, record_attempt_failure, owns,
  is_owner, same_status, earlier,
}

-- A failure is recorded: the row was the worker's own, it keeps its attempts and loses its lease; it
-- has failed for good if its attempts reach the maximum, and waits again otherwise.
pub record Failed (worker_id : String) (max_attempts : ℕ) (r s : StoredSearch) : Type 0 where
  pub from : r.status ≡ running
  pub owner : r.lease_owner ≡ some worker_id
  pub attempts : s.attempts ≡ r.attempts
  pub free : s.lease_owner ≡ none
  pub terminal : (s.status ≡ failed) ↔ (max_attempts ≤ r.attempts)
  pub again : (s.status ≡ pending) ↔ (r.attempts < max_attempts)

owner_of :
    (worker : String) (owner : Option String) → is_owner worker owner ≡ true → owner ≡ some worker
owner_of worker none h = ground arith
owner_of worker (some o) h = ground (arith, =ˢ_iff o worker)

running_of : (s : SearchStatus) → same_status s running ≡ true → s ≡ running
running_of s h = ground arith

-- The rows that the worker does not own are as they were; one that it owned was running under its
-- lease, and its failure is counted with the error: FAILED exactly if its attempts have reached the
-- maximum, PENDING exactly if they have not.
pub record_attempt_failure-Failed :
    (id worker_id error : String) (now max_attempts : ℕ) (rows : List StoredSearch)
    → Pairs
        (λ r s.
          ((owns id worker_id r ≡ false) × (s ≡ r))
          ⊎ ((owns id worker_id r ≡ true)
              × Failed worker_id max_attempts r s
              × (s.last_error ≡ some error)))
        rows
        (record_attempt_failure id worker_id now error max_attempts rows).0
unfolding record_attempt_failure
record_attempt_failure-Failed id worker_id error now max_attempts rows =
    Pairs-update_where _ (owns id worker_id) _ (λ r miss. inl (miss, refl))
      (λ r hit. inr (
        hit,
        record {
          from = running_of r.status (ground arith);
          owner = owner_of worker_id r.lease_owner (ground arith);
          attempts = refl;
          free = refl;
          terminal = ground arith;
          again = ground arith;
        },
        refl,
      ))
      rows

earlier-some :
    (r : StoredSearch) (rest : Option StoredSearch) (p : StoredSearch)
    → earlier r rest ≡ some p
    → (p ≡ r) ⊎ (rest ≡ some p)
earlier-some r none p e = inl cc
earlier-some r (some s) p e =
    if_both (λ o. o ≡ some p → (p ≡ r) ⊎ (some s ≡ some p)) (ltb s.created_at r.created_at) (some s)
      (some r) (λ _ f. inr f) (λ _ f. inl cc) e

-- The row that a claim takes is one of the table's, and waits.
pub next_pending-mem :
    (locked : String → Bool) (rows : List StoredSearch) (p : StoredSearch)
    → next_pending locked rows ≡ some p
    → Memᴰ p rows × (same_status p.status pending ≡ true)
unfolding next_pending
next_pending-mem locked [] p e = absurd cc
next_pending-mem locked (r ∷ rows) p e =
    elim (Bool-cases (same_status r.status pending && not (locked r.id))) [
      | inl waits ↦ elim (earlier-some r (next_pending locked rows) p (rw waits at e)) [
        | inl first ↦ (Memᴰ.head first, rw first (ground (arith, waits)))
        | inr later ↦
            let (m, status) = next_pending-mem locked rows p later in (Memᴰ.tail m, status)
      ]
      | inr not_waiting ↦
          let (m, status) = next_pending-mem locked rows p (rw not_waiting at e) in
          (Memᴰ.tail m, status)
    ]

-- Back in the queue, with its lease gone.
abbrev pub recovered : ℕ → StoredSearch → StoredSearch
recovered now r = record r {
  status = pending;
  lease_owner = none;
  lease_expires_at = none;
  updated_at = now;
}
