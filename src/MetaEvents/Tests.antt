-- ===== src/MetaEvents/Tests.antt =====
-- Two events in the queue, runs of the worker over them, and the theorems at these inputs.
use ai_client_acquisition_os.Common.{
  ◌≡◌, refl, ◌≢◌, Bool, false, List, [], ◌∷◌, none, some, String, arith, Memᴰ, =ˢ_iff,
}
use ai_client_acquisition_os.Common.Int.{pos}
use ai_client_acquisition_os.Common.Rows.{Pairs, update_where}
use ai_client_acquisition_os.MetaEvents.Backoff.{
  Draw, cap_for, scale, compute_retry_delay_ms, has_exhausted_attempts,
}
use ai_client_acquisition_os.MetaEvents.Repository.{
  Status, pending, processing, failure, MetaEventRow, ClaimInput, ClaimedMetaEvent, map_row, claim,
  mark_sent, mark_for_retry, mark_dead_letter, record_ambiguous_send,
}
use ai_client_acquisition_os.MetaEvents.Repository.Keys.{UniqueIds}
use ai_client_acquisition_os.MetaEvents.Repository.Claims.{claims_disjoint}
use ai_client_acquisition_os.MetaEvents.Repository.History.{
  Statement, claims, sends, releases, Settled, execute_all, execute_all-Settled,
}
use ai_client_acquisition_os.MetaEvents.Worker.{
  UserContext, error, context, Delivery, accepted, send_threw, Deps, World, sent, retry, Fence,
  fenced, Processed, ok, assert_worker_config, process_meta_event, route, after_load, after_send,
  confirm, bury_as, schedule_retry, describe, is_supported_meta_event, purchase_of,
}
use ai_client_acquisition_os.MetaEvents.Worker.Dispatch.{
  RequestsFor, process_meta_event-requests, DeliveryRecorded, process_meta_event-DeliveryRecorded,
}

abbrev first_row : MetaEventRow
first_row = record {
  id = "m1";
  meta_event_id = "purchase-1";
  order_id = "o1";
  event_name = "Purchase";
  product = "ai_income_99";
  value_paise = 9900;
  currency = "INR";
  status = pending;
  attempts = 0;
  next_attempt_at = 100;
  created_at = 90;
  lease_owner = none;
  lease_expires_at = none;
  last_error = none;
  updated_at = 90;
}

abbrev second_row : MetaEventRow
second_row = record first_row {
  id = "m2";
  event_name = "Lead";
  next_attempt_at = 50;
  created_at = 40;
}

abbrev held_row : MetaEventRow
held_row = record first_row {
  status = processing;
  lease_owner = some "w1";
  lease_expires_at = some 500;
}

abbrev queue : List MetaEventRow
queue = first_row ∷ second_row ∷ []

abbrev nothing_locked : String → Bool
nothing_locked id = false

abbrev claim_one : ClaimInput
claim_one = record { worker_id = "w1"; now = 200; lease_expires_at = 700; limit = 1 }

abbrev claim_two : ClaimInput
claim_two = record { worker_id = "w2"; now = 200; lease_expires_at = 700; limit = 5 }

m1_ne_m2 : ◌≢◌ {A = String} "m2" "m1"
m1_ne_m2 = ground (arith, =ˢ_iff "m2" "m1")

queue-UniqueIds : UniqueIds queue
queue-UniqueIds = ((m1_ne_m2, tt), (tt, tt))

-- The earliest due event is claimed first.
claims_earliest : (claim nothing_locked 200 claim_one queue).1 ≡ map_row second_row ∷ []
unfolding claim update_where
claims_earliest = refl

abbrev history : List Statement
history =
    claims nothing_locked 200 claim_one
    ∷ sends (record { id = "m2"; worker_id = "w1"; now = 210 })
    ∷ releases 900
    ∷ []

execute_all-Settled_example : Pairs Settled queue (execute_all history queue)
execute_all-Settled_example = execute_all-Settled history queue queue-UniqueIds

claimed_second : Memᴰ (map_row second_row) (claim nothing_locked 200 claim_one queue).1
unfolding claim update_where
claimed_second = Memᴰ.head refl

claimed_then :
    Memᴰ
      (map_row first_row)
      (claim nothing_locked 201 claim_two (claim nothing_locked 200 claim_one queue).0).1
unfolding claim update_where
claimed_then = Memᴰ.head refl

claims_disjoint_example : (map_row second_row).id ≢ (map_row first_row).id
claims_disjoint_example =
    claims_disjoint nothing_locked nothing_locked 200 201 claim_one claim_two queue
      (map_row second_row) (map_row first_row) queue-UniqueIds claimed_second claimed_then

abbrev half : Draw
half = record { num = pos 1; den_pred = 1 }

half_of_cap : compute_retry_delay_ms 2 half ≡ 150000
unfolding compute_retry_delay_ms cap_for scale
half_of_cap = refl

abbrev deps : Deps
deps = record {
  worker_id = "w1";
  timeout_ms = none;
  lease_duration = none;
  max_attempts = some (pos 8);
}

abbrev buyer : UserContext
buyer = record {
  email = some "a@b.com";
  phone = none;
  client_ip = "10.0.0.1";
  user_agent = "ua";
  fbp = none;
  fbc = none;
  event_source_url = none;
  event_time = 80;
  product_id = "ai_income_99";
  product_name = "AI Income Starter Kit";
}

abbrev world : Delivery → World
world d = record {
  load_context = λ e. context buyer;
  sender = λ r. d;
  now = 300;
  ambiguous_now = 301;
  random = half;
  meanwhile = λ rows. rows;
  meanwhile_ambiguous = λ rows. rows;
}

abbrev event : ClaimedMetaEvent
event = record {
  id = "m1";
  meta_event_id = "purchase-1";
  order_id = "o1";
  event_name = "Purchase";
  product = "ai_income_99";
  value_paise = 9900;
  currency = "INR";
  attempts = 4;
}

abbrev timed_out : Delivery
timed_out = send_threw (error "AbortError" "timeout")

abbrev retried : Processed
retried = record {
  outcome = retry 5 1800300 (failure "AbortError: timeout");
  rows =
      record held_row {
        status = pending;
        attempts = 5;
        next_attempt_at = 1800300;
        lease_owner = none;
        lease_expires_at = none;
        last_error = some (failure "AbortError: timeout");
        updated_at = 300;
      }
      ∷ [];
  requests = purchase_of event buyer ∷ [];
}

retried_run : process_meta_event deps (world timed_out) event (held_row ∷ []) ≡ ok retried
unfolding process_meta_event route after_load after_send schedule_retry describe
    assert_worker_config is_supported_meta_event has_exhausted_attempts compute_retry_delay_ms
    cap_for scale mark_for_retry mark_dead_letter update_where bury_as
retried_run = refl

process_meta_event-requests_example : RequestsFor event retried
process_meta_event-requests_example =
    process_meta_event-requests deps (world timed_out) event (held_row ∷ []) retried retried_run

abbrev delivered : Processed
delivered = record {
  outcome = sent;
  rows =
      record held_row {
        status = Status.sent;
        lease_owner = none;
        lease_expires_at = none;
        last_error = none;
        updated_at = 300;
      }
      ∷ [];
  requests = purchase_of event buyer ∷ [];
}

delivered_run : process_meta_event deps (world accepted) event (held_row ∷ []) ≡ ok delivered
unfolding process_meta_event route after_load after_send confirm assert_worker_config
    is_supported_meta_event mark_sent record_ambiguous_send update_where
delivered_run = refl

process_meta_event-DeliveryRecorded_example :
    DeliveryRecorded (world accepted) event (held_row ∷ []) deps delivered
process_meta_event-DeliveryRecorded_example =
    process_meta_event-DeliveryRecorded deps (world accepted) event (held_row ∷ []) delivered
      delivered_run

abbrev stale : Deps
stale = record deps { worker_id = "w9" }

abbrev lost : Processed
lost = record {
  outcome = fenced Fence.before_retry;
  rows = held_row ∷ [];
  requests = purchase_of event buyer ∷ [];
}

lost_run : process_meta_event stale (world timed_out) event (held_row ∷ []) ≡ ok lost
unfolding process_meta_event route after_load after_send schedule_retry describe
    assert_worker_config is_supported_meta_event has_exhausted_attempts compute_retry_delay_ms
    cap_for scale mark_for_retry mark_dead_letter update_where bury_as
lost_run = refl
