-- ===== src/MetaEvents/Worker/Budget.antt =====
-- The attempt budget: when a failure is retried, when it ends, and what is charged.
use ai_client_acquisition_os.Common.{
  ℕ, ◌+◌, ◌≤◌, ◌<◌, ◌≡◌, ◌⊎◌, Bool, true, false, ◌&&◌, ◌=ˢ◌, List, some, any, arith,
}
use ai_client_acquisition_os.Common.Rows.{Pairs}
use ai_client_acquisition_os.Common.Int.{ℤ, pos, ◌≤ℤ◌, ◌<ℤ◌}
use ai_client_acquisition_os.MetaEvents.Backoff.{has_exhausted_attempts}
use ai_client_acquisition_os.MetaEvents.Repository.{
  Status, pending, MetaEventRow, ClaimedMetaEvent, Note, is_processing, is_owner,
}
use ai_client_acquisition_os.MetaEvents.Worker.{
  Deps, World, retry, dead_letter, Processed, resolve_max_attempts,
}

-- `hasExhaustedAttempts` compares with the configured budget and with nothing else.
pub has_exhausted_attempts_iff :
    (n : ℕ) (max : ℤ)
    → ((has_exhausted_attempts n max ≡ true) → max ≤ℤ pos n)
      × ((has_exhausted_attempts n max ≡ false) → pos n <ℤ max)
unfolding has_exhausted_attempts
has_exhausted_attempts_iff n max = ground arith

-- The event's row while this worker's lease on it stands.
abbrev pub is_held : Deps → ClaimedMetaEvent → MetaEventRow → Bool
is_held deps event r =
    (r.id =ˢ event.id) && is_processing r.status && is_owner deps.worker_id r.lease_owner

-- The held row has gone back to the queue with the new count and time, and no other row changed.
abbrev pub Postponed : Deps → ClaimedMetaEvent → ℕ → ℕ → Note → MetaEventRow → MetaEventRow → Type 0
Postponed deps event n at note r s =
    ((is_held deps event r ≡ false) × (s ≡ r))
    ⊎ ((is_held deps event r ≡ true)
        × (s.id ≡ r.id)
        × (s.status ≡ pending)
        × (s.attempts ≡ n)
        × (s.next_attempt_at ≡ at)
        × (s.last_error ≡ some note))

-- The held row is dead with the count, and no other row changed.
abbrev pub Buried : Deps → ClaimedMetaEvent → ℕ → Note → MetaEventRow → MetaEventRow → Type 0
Buried deps event n note r s =
    ((is_held deps event r ≡ false) × (s ≡ r))
    ⊎ ((is_held deps event r ≡ true)
        × (s.id ≡ r.id)
        × (s.status ≡ Status.dead_letter)
        × (s.attempts ≡ n)
        × (s.last_error ≡ some note))

-- A retry is charged one attempt, within the budget, and waits less than an hour; a dead letter is
-- charged nothing, or one attempt that uses the budget up. Either stands in the held row.
abbrev pub Charged : Deps → World → ClaimedMetaEvent → List MetaEventRow → Processed → Type 0
Charged deps w event before p =
    ((n at : ℕ) (note : Note)
      → p.outcome ≡ retry n at note
      → (n ≡ event.attempts + 1)
        × (pos n <ℤ resolve_max_attempts deps)
        × (w.now ≤ at)
        × (at < w.now + 3600000)
        × (any (is_held deps event) before ≡ true)
        × Pairs (Postponed deps event n at note) before p.rows)
    × ((n : ℕ) (note : Note)
        → p.outcome ≡ dead_letter n note
        → ((n ≡ event.attempts) ⊎ ((n ≡ event.attempts + 1) × (resolve_max_attempts deps ≤ℤ pos n)))
          × (any (is_held deps event) before ≡ true)
          × Pairs (Buried deps event n note) before p.rows)
