-- ===== src/MetaEvents/Repository/Moves.antt =====
-- The state machine of one event row, and that every statement of the queue moves rows along it.
use ai_client_acquisition_os.Common.{
  ℕ, ◌≡◌, refl, ◌≢◌, Bool, true, false, List, [], ◌∷◌, String, arith, All, sym, ◌∙◌,
}
use ai_client_acquisition_os.Common.Rows.{Pairs, Pairs-update_where, Pairs-update_where_mem}
use ai_client_acquisition_os.MetaEvents.Repository.Keys.{UniqueIds, claimable_of_picked}
use ai_client_acquisition_os.MetaEvents.Repository.{
  Status, pending, processing, sent, dead_letter, MetaEventRow, ClaimInput, CompleteInput,
  RetryInput, DeadLetterInput, AmbiguousSendInput, is_pending, is_processing, lease_to, claim, owns,
  mark_sent, mark_for_retry, mark_dead_letter, record_ambiguous_send, release_expired_leases,
}

-- The columns that no statement of the queue writes.
pub record SameEvent (r s : MetaEventRow) : Type 0 where
  pub id : s.id ≡ r.id
  pub meta_event_id : s.meta_event_id ≡ r.meta_event_id
  pub order_id : s.order_id ≡ r.order_id
  pub event_name : s.event_name ≡ r.event_name
  pub product : s.product ≡ r.product
  pub value_paise : s.value_paise ≡ r.value_paise
  pub currency : s.currency ≡ r.currency
  pub created_at : s.created_at ≡ r.created_at

-- The arrows of the diagram at the head of worker.ts.
pub data Arrow : Status → Status → Type 0 where
  stay : {s : Status} → Arrow s s
  lease : Arrow pending processing
  deliver : Arrow processing sent
  back : Arrow processing pending
  bury : Arrow processing dead_letter

pub record Move (r s : MetaEventRow) : Type 0 where
  pub same : SameEvent r s
  pub arrow : Arrow r.status s.status

Move-refl : (r : MetaEventRow) {b : Bool} → b ≡ false → Move r r
Move-refl r miss = record { same = ground arith; arrow = stay }

Arrow-of :
    (r s : MetaEventRow) {a b : Status}
    → SameEvent r s
    → r.status ≡ a
    → s.status ≡ b
    → Arrow a b
    → Move r s
Arrow-of r s same from to a = record { same = same; arrow = rw (from, to) a }

pending_of : (s : Status) → is_pending s ≡ true → s ≡ pending
pending_of s h = ground arith

processing_of : (s : Status) → is_processing s ≡ true → s ≡ processing
processing_of s h = ground arith

processing_of_owns :
    (input : CompleteInput) (r : MetaEventRow) → owns input r ≡ true → r.status ≡ processing
processing_of_owns input r h = processing_of r.status (ground arith)

pub claim-Moves :
    (locked : String → Bool) (db_now : ℕ) (input : ClaimInput) (rows : List MetaEventRow)
    → UniqueIds rows
    → Pairs Move rows (claim locked db_now input rows).0
unfolding claim
claim-Moves locked db_now input rows u =
    Pairs-update_where_mem Move _ (lease_to input db_now) (λ r. Move-refl r) rows
      λ r m h.
        Arrow-of r _ (ground arith)
          (pending_of r.status (ground (arith, claimable_of_picked locked input r rows u m h))) refl
          lease

pub mark_sent-Moves :
    (input : CompleteInput) (rows : List MetaEventRow) → Pairs Move rows (mark_sent input rows).0
unfolding mark_sent
mark_sent-Moves input rows =
    Pairs-update_where Move _ _ (λ r. Move-refl r)
      (λ r h. Arrow-of r _ (ground arith) (processing_of_owns input r h) refl deliver) rows

pub mark_for_retry-Moves :
    (input : RetryInput) (rows : List MetaEventRow) → Pairs Move rows (mark_for_retry input rows).0
unfolding mark_for_retry
mark_for_retry-Moves input rows =
    Pairs-update_where Move _ _ (λ r. Move-refl r)
      (λ r h. Arrow-of r _ (ground arith) (processing_of_owns input.complete r h) refl back) rows

pub mark_dead_letter-Moves :
    (input : DeadLetterInput) (rows : List MetaEventRow)
    → Pairs Move rows (mark_dead_letter input rows).0
unfolding mark_dead_letter
mark_dead_letter-Moves input rows =
    Pairs-update_where Move _ _ (λ r. Move-refl r)
      (λ r h. Arrow-of r _ (ground arith) (processing_of_owns input.complete r h) refl bury) rows

pub record_ambiguous_send-Moves :
    (input : AmbiguousSendInput) (rows : List MetaEventRow)
    → Pairs Move rows (record_ambiguous_send input rows).0
unfolding record_ambiguous_send
record_ambiguous_send-Moves input rows =
    Pairs-update_where Move _ _ (λ r. Move-refl r)
      (λ r h. record { same = ground arith; arrow = stay }) rows

pub release_expired_leases-Moves :
    (now : ℕ) (rows : List MetaEventRow) → Pairs Move rows (release_expired_leases now rows).0
unfolding release_expired_leases
release_expired_leases-Moves now rows =
    Pairs-update_where Move _ _ (λ r. Move-refl r)
      (λ r h. Arrow-of r _ (ground arith) (processing_of r.status (ground arith)) refl back) rows

other_ids :
    (r s : MetaEventRow) (rows rows' : List MetaEventRow)
    → Move r s
    → Pairs Move rows rows'
    → All (λ t. t.id ≢ r.id) rows
    → All (λ t. t.id ≢ s.id) rows'
other_ids r s [] [] mv p h = tt
other_ids r s [] (y ∷ ys) mv p h = elim p [ ]
other_ids r s (x ∷ xs) [] mv p h = elim p [ ]
other_ids r s (x ∷ xs) (y ∷ ys) mv p h =
    ((λ e. h.0 (sym p.0.same.id ∙ e ∙ mv.same.id)), other_ids r s xs ys mv p.1 h.1)

pub UniqueIds-Moves :
    (rows rows' : List MetaEventRow) → Pairs Move rows rows' → UniqueIds rows → UniqueIds rows'
UniqueIds-Moves [] [] p u = tt
UniqueIds-Moves [] (y ∷ ys) p u = elim p [ ]
UniqueIds-Moves (x ∷ xs) [] p u = elim p [ ]
UniqueIds-Moves (x ∷ xs) (y ∷ ys) p u =
    (other_ids x y xs ys p.0 p.1 u.0, UniqueIds-Moves xs ys p.1 u.1)
