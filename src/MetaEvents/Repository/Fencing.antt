-- ===== src/MetaEvents/Repository/Fencing.antt =====
-- The fence: only the worker that holds the lease of a row can end its processing.
use ai_client_acquisition_os.Common.{ℕ, ◌≡◌, refl, true, false, List, none, arith, any}
use ai_client_acquisition_os.Common.Rows.{
  Pairs, Pairs-update_where, any-update_where, update_where_none,
}
use ai_client_acquisition_os.MetaEvents.Repository.{
  pending, MetaEventRow, CompleteInput, RetryInput, DeadLetterInput, AmbiguousSendInput, owns,
  mark_sent, mark_for_retry, mark_dead_letter, record_ambiguous_send, is_abandoned,
  release_expired_leases,
}

-- Where no row is both PROCESSING and leased to the caller under the id, each of the three settling
-- statements reports false and leaves the whole table as it was.
pub fenced_unchanged :
    (rows : List MetaEventRow) (input : CompleteInput) (retry : RetryInput) (dead : DeadLetterInput)
    → any (owns input) rows ≡ false
    → any (owns retry.complete) rows ≡ false
    → any (owns dead.complete) rows ≡ false
    → (mark_sent input rows ≡ (rows, false))
      × (mark_for_retry retry rows ≡ (rows, false))
      × (mark_dead_letter dead rows ≡ (rows, false))
unfolding mark_sent mark_for_retry mark_dead_letter
fenced_unchanged rows input retry dead h k l = (
  rw (h, update_where_none (owns input) _ rows h),
  rw (k, update_where_none (owns retry.complete) _ rows k),
  rw (l, update_where_none (owns dead.complete) _ rows l),
)

-- What an annotation leaves alone: everything that the state machine reads.
pub record OnlyNoted (r s : MetaEventRow) : Type 0 where
  pub id : s.id ≡ r.id
  pub meta_event_id : s.meta_event_id ≡ r.meta_event_id
  pub status : s.status ≡ r.status
  pub attempts : s.attempts ≡ r.attempts
  pub next_attempt_at : s.next_attempt_at ≡ r.next_attempt_at
  pub lease_owner : s.lease_owner ≡ r.lease_owner
  pub lease_expires_at : s.lease_expires_at ≡ r.lease_expires_at

-- The one statement without a fence cannot move any row: status, attempts, due time and lease of
-- every row are as before.
pub record_ambiguous_send-OnlyNoted :
    (input : AmbiguousSendInput) (rows : List MetaEventRow)
    → Pairs OnlyNoted rows (record_ambiguous_send input rows).0
unfolding record_ambiguous_send
record_ambiguous_send-OnlyNoted input rows =
    Pairs-update_where OnlyNoted _ _ (λ r _. ground arith) (λ r h. ground arith) rows

-- What recovery does to a row: an expired lease is taken back, and nothing else happens.
pub record Recovered (now : ℕ) (r s : MetaEventRow) : Type 0 where
  pub attempts : s.attempts ≡ r.attempts
  pub next_attempt_at : s.next_attempt_at ≡ r.next_attempt_at
  pub last_error : s.last_error ≡ r.last_error
  pub expired : is_abandoned now r ≡ true → (s.status ≡ pending) × (s.lease_owner ≡ none)
  pub live : is_abandoned now r ≡ false → s ≡ r

-- Recovery returns exactly the expired leases to PENDING, charges no attempt, moves no due time, and
-- afterwards no expired lease is left.
pub release_expired_leases-Recovered :
    (now : ℕ) (rows : List MetaEventRow)
    → Pairs (Recovered now) rows (release_expired_leases now rows).0
      × (any (is_abandoned now) (release_expired_leases now rows).0 ≡ false)
unfolding release_expired_leases
release_expired_leases-Recovered now rows = (
  Pairs-update_where (Recovered now) _ _ (λ r h. ground arith) (λ r h. ground arith) rows,
  any-update_where (is_abandoned now) _ _ (λ r h. h) (λ r h. refl) rows,
)
