-- ===== src/MetaEvents/Worker/Dispatch.antt =====
-- What one run of the worker sends, and what it leaves in the table.
use ai_client_acquisition_os.Common.{
  ℕ, ◌+◌, ◌≡◌, refl, ◌⊎◌, inl, inr, Bool, true, false, List, [], ◌∷◌, String, arith, ◌=ˢ◌, =ˢ_iff,
  any, Bool-cases, ◌&&◌,
}
use ai_client_acquisition_os.Common.Rows.{update_where_none, any-update_where_hit}
use ai_client_acquisition_os.MetaEvents.Repository.{
  Status, MetaEventRow, ClaimedMetaEvent, Note, owns, mark_sent, mark_for_retry, mark_dead_letter,
  CompleteInput,
}
use ai_client_acquisition_os.MetaEvents.Backoff.{has_exhausted_attempts}
use ai_client_acquisition_os.MetaEvents.Worker.{
  Deps, World, ProcessOutcome, sent, fenced, delivered_unconfirmed, Processed, PurchaseInput, ok,
  is_supported_meta_event, bury_as, schedule_retry, confirm, route, after_load, after_send,
  process_meta_event, Loaded, context, missing, load_threw, Delivery, accepted, invalid, send_threw,
  UserContext, purchase_of, resolve_max_attempts,
}

-- A run that is not refused for its configuration is the routed one.
pub routed :
    (deps : Deps) (w : World) (event : ClaimedMetaEvent) (rows : List MetaEventRow) {p : Processed}
    → process_meta_event deps w event rows ≡ ok p
    → p ≡ route deps w event (w.meanwhile rows)
unfolding process_meta_event
routed deps w event rows h = ground arith

-- A property of a run holds if it holds on every way that the run can take.
pub record OnEveryRoute (deps : Deps) (w : World) (event : ClaimedMetaEvent)
    (rows : List MetaEventRow) (P : Processed → Type 0) : Type 0 where
  pub buried : (note : Note) → P (bury_as deps w event event.attempts note [] rows)
  pub load_failed : (note : Note) → P (schedule_retry deps w event note [] rows)
  pub rejected :
      (c : UserContext) (note : Note)
      → event.event_name ≡ "Purchase"
      → P (bury_as deps w event event.attempts note (purchase_of event c ∷ []) rows)
  pub send_failed :
      (c : UserContext) (note : Note)
      → event.event_name ≡ "Purchase"
      → P (schedule_retry deps w event note (purchase_of event c ∷ []) rows)
  pub confirmed :
      (c : UserContext)
      → event.event_name ≡ "Purchase"
      → w.sender (purchase_of event c) ≡ accepted
      → P (confirm deps w event (purchase_of event c ∷ []) rows)

module _ (deps : Deps) (w : World) (event : ClaimedMetaEvent) (rows : List MetaEventRow)
    (P : Processed → Type 0) (every : OnEveryRoute deps w event rows P) where
  on_send :
      (c : UserContext) (d : Delivery)
      → event.event_name ≡ "Purchase"
      → w.sender (purchase_of event c) ≡ d
      → P (after_send deps w event (purchase_of event c ∷ []) rows d)
  unfolding after_send
  on_send c accepted e s = every.confirmed c e s
  on_send c (invalid m) e s = every.rejected c _ e
  on_send c (send_threw cause) e s = every.send_failed c _ e

  on_load : (l : Loaded) → event.event_name ≡ "Purchase" → P (after_load deps w event rows l)
  unfolding after_load
  on_load (context c) e = on_send c (w.sender (purchase_of event c)) e refl
  on_load missing e = every.buried _
  on_load (load_threw cause) e = every.load_failed _

  pub on_route : P (route deps w event rows)
  unfolding route is_supported_meta_event
  on_route = elim (Bool-cases (is_supported_meta_event event.event_name)) [
    | inl known ↦
        rw known
          (on_load (w.load_context event) (ground (arith, =ˢ_iff "Purchase" event.event_name)))
    | inr unknown ↦ rw unknown (every.buried _)
  ]

-- The request is about this event: its stable id, its amount and its currency.
pub record IsFor (event : ClaimedMetaEvent) (request : PurchaseInput) : Type 0 where
  pub event_id : request.event_id ≡ event.meta_event_id
  pub value : request.value ≡ event.value_paise
  pub currency : request.currency ≡ event.currency

abbrev pub RequestsFor : ClaimedMetaEvent → Processed → Type 0
RequestsFor event p =
    (p.requests ≡ [])
    ⊎ ((request : PurchaseInput) × (p.requests ≡ request ∷ [])
        × IsFor event request
        × (event.event_name ≡ "Purchase"))

-- A run sends at most one request; whatever it sends is for the claimed event, under its stored id;
-- and it sends nothing unless the event is named "Purchase".
pub process_meta_event-requests :
    (deps : Deps) (w : World) (event : ClaimedMetaEvent) (rows : List MetaEventRow) (p : Processed)
    → process_meta_event deps w event rows ≡ ok p
    → RequestsFor event p
unfolding bury_as schedule_retry confirm
process_meta_event-requests deps w event rows p h = rw (routed deps w event rows h) (
    on_route deps w event (w.meanwhile rows) (RequestsFor event) (record {
      buried = λ note. inl refl;
      load_failed = λ note. inl (ground arith);
      rejected = λ c note e. inr (purchase_of event c, refl, ground arith, e);
      send_failed = λ c note e. inr (purchase_of event c, ground arith, ground arith, e);
      confirmed = λ c e s. inr (purchase_of event c, ground arith, ground arith, e);
    }))

abbrev pub is_fenced : ProcessOutcome → Bool
is_fenced (fenced _) = true
is_fenced _ = false

-- A fenced outcome changes nothing.
abbrev pub FencedUnchanged : List MetaEventRow → Processed → Type 0
FencedUnchanged rows p = is_fenced p.outcome ≡ true → p.rows ≡ rows

bury_as-FencedUnchanged :
    (deps : Deps) (w : World) (event : ClaimedMetaEvent) (n : ℕ) (note : Note)
    (requests : List PurchaseInput) (rows : List MetaEventRow)
    → FencedUnchanged rows (bury_as deps w event n note requests rows)
unfolding bury_as mark_dead_letter
bury_as-FencedUnchanged deps w event n note requests rows h =
    let input : CompleteInput = record { id = event.id; worker_id = deps.worker_id; now = w.now } in
    update_where_none (owns input) _ rows (ground arith)

schedule_retry-FencedUnchanged :
    (deps : Deps) (w : World) (event : ClaimedMetaEvent) (note : Note)
    (requests : List PurchaseInput) (rows : List MetaEventRow)
    → FencedUnchanged rows (schedule_retry deps w event note requests rows)
unfolding schedule_retry mark_for_retry
schedule_retry-FencedUnchanged deps w event note requests rows =
    let input : CompleteInput = record { id = event.id; worker_id = deps.worker_id; now = w.now } in
    elim (Bool-cases (has_exhausted_attempts (event.attempts + 1) (resolve_max_attempts deps))) [
      | inl spent ↦
          rw spent (bury_as-FencedUnchanged deps w event (event.attempts + 1) note requests rows)
      | inr left ↦ rw left (λ h. update_where_none (owns input) _ rows (ground arith))
    ]

-- A worker that reports `fenced` changed no row: the table is what the others left.
pub process_meta_event-fenced :
    (deps : Deps) (w : World) (event : ClaimedMetaEvent) (rows : List MetaEventRow) (p : Processed)
    → process_meta_event deps w event rows ≡ ok p
    → is_fenced p.outcome ≡ true
    → p.rows ≡ w.meanwhile rows
unfolding confirm
process_meta_event-fenced deps w event rows p h =
    let before = w.meanwhile rows in
    rw (routed deps w event rows h) (
      on_route deps w event before (FencedUnchanged before) (record {
        buried = λ note. bury_as-FencedUnchanged deps w event _ note _ before;
        load_failed = λ note. schedule_retry-FencedUnchanged deps w event note _ before;
        rejected = λ c note e. bury_as-FencedUnchanged deps w event _ note _ before;
        send_failed = λ c note e. schedule_retry-FencedUnchanged deps w event note _ before;
        confirmed = λ c e s f. ground arith;
      }))

abbrev pub is_sent : Status → Bool
is_sent Status.sent = true
is_sent _ = false

abbrev pub has_sent_row : String → List MetaEventRow → Bool
has_sent_row id rows = any (λ r. (r.id =ˢ id) && is_sent r.status) rows

mark_sent_row :
    (input : CompleteInput) (rows : List MetaEventRow)
    → (mark_sent input rows).1 ≡ true
    → has_sent_row input.id (mark_sent input rows).0 ≡ true
unfolding mark_sent
mark_sent_row input rows h =
    any-update_where_hit (λ r. (r.id =ˢ input.id) && is_sent r.status) (owns input) _
      (λ r k. ground arith) rows h

-- What `sent` and `delivered_unconfirmed` mean: the sender accepted the request of this event; for
-- `sent` the event's row is now SENT, and for the other no row was the worker's to settle.
abbrev pub DeliveryRecorded :
    World → ClaimedMetaEvent → List MetaEventRow → Deps → Processed → Type 0
DeliveryRecorded w event rows deps p =
    ((p.outcome ≡ sent) ⊎ (p.outcome ≡ delivered_unconfirmed event.meta_event_id)
      → (c : UserContext) × (p.requests ≡ purchase_of event c ∷ [])
        × (w.sender (purchase_of event c) ≡ accepted))
    × (p.outcome ≡ sent → has_sent_row event.id p.rows ≡ true)

-- `sent` and `delivered_unconfirmed` are reported only where the sender accepted the one request that
-- was made; after `sent` the table holds the event's row as SENT.
pub process_meta_event-DeliveryRecorded :
    (deps : Deps) (w : World) (event : ClaimedMetaEvent) (rows : List MetaEventRow) (p : Processed)
    → process_meta_event deps w event rows ≡ ok p
    → DeliveryRecorded w event rows deps p
unfolding confirm bury_as schedule_retry
process_meta_event-DeliveryRecorded deps w event rows p h =
    let before = w.meanwhile rows in
    rw (routed deps w event rows h) (
      on_route deps w event before (DeliveryRecorded w event rows deps) (record {
        buried = λ note. (λ o. ground arith, λ o. ground arith);
        load_failed = λ note. (λ o. ground arith, λ o. ground arith);
        rejected = λ c note e. (λ o. ground arith, λ o. ground arith);
        send_failed = λ c note e. (λ o. ground arith, λ o. ground arith);
        confirmed = λ c e s. (
          λ o. (c, ground arith, s),
          λ o. ground (
            arith,
            mark_sent_row (record { id = event.id; worker_id = deps.worker_id; now = w.now })
                before,
          ),
        );
      }))
