-- ===== src/MetaEvents/Worker.antt =====
-- apps/worker/src/metaEvents/worker.ts: claim one event, dispatch it, settle its row.
pub mod Config
pub mod Dispatch
pub mod Budget
use ai_client_acquisition_os.Common.{
  ℕ, zero, suc, ◌+◌, Bool, true, false, List, [], ◌∷◌, Option, none, some, String, arith, ltb, leb,
  ◌=ˢ◌, if◌then◌else◌, or_else, any,
}
use ai_client_acquisition_os.Common.Int.{ℤ, pos, pos_part, neg_part, leb_ℤ, ltb_ℤ}
use ai_client_acquisition_os.MetaEvents.Backoff.{
  Draw, default_max_attempts, max_configurable_attempts, lease_duration_ms, compute_retry_delay_ms,
  has_exhausted_attempts,
}
use ai_client_acquisition_os.MetaEvents.Repository.{
  Note, unsupported_event, no_dispatch_context, invalid_payload, failure, MetaEventRow,
  ClaimedMetaEvent, claim, mark_sent, mark_for_retry, mark_dead_letter, record_ambiguous_send,
  release_expired_leases, CompleteInput,
}
use Prim.Native.String as Str

pub record UserContext : Type 0 where
  pub email : Option String
  pub phone : Option String
  pub client_ip : String
  pub user_agent : String
  pub fbp : Option String
  pub fbc : Option String
  pub event_source_url : Option String
  pub event_time : ℕ
  pub product_id : String
  pub product_name : String

-- `value` is in hundredths: the source divides the paise by 100.
pub record PurchaseInput : Type 0 where
  pub event_id : String
  pub event_time : ℕ
  pub product_id : String
  pub product_name : String
  pub value : ℕ
  pub currency : String
  pub client_ip : String
  pub user_agent : String
  pub email : Option String
  pub phone : Option String
  pub fbp : Option String
  pub fbc : Option String
  pub event_source_url : Option String

-- What a `catch` clause receives.
pub data Cause : Type 0 where
  error : String → String → Cause
  other : String → Cause

pub data Loaded : Type 0 where
  context : UserContext → Loaded
  missing : Loaded
  load_threw : Cause → Loaded

pub data Delivery : Type 0 where
  accepted : Delivery
  invalid : String → Delivery
  send_threw : Cause → Delivery

pub record Deps : Type 0 where
  pub worker_id : String
  pub timeout_ms : Option ℤ
  pub lease_duration : Option ℤ
  pub max_attempts : Option ℤ

-- What the worker does not decide: the two injected calls, the clock, the random source, and what
-- other workers commit while a call of this one is awaited.
pub record World : Type 0 where
  pub load_context : ClaimedMetaEvent → Loaded
  pub sender : PurchaseInput → Delivery
  pub now : ℕ
  pub ambiguous_now : ℕ
  pub random : Draw
  pub meanwhile : List MetaEventRow → List MetaEventRow
  pub meanwhile_ambiguous : List MetaEventRow → List MetaEventRow

pub data Fence : Type 0 where
  before_dead_lettering before_retry : Fence

pub data ProcessOutcome : Type 0 where
  sent : ProcessOutcome
  retry : ℕ → ℕ → Note → ProcessOutcome
  dead_letter : ℕ → Note → ProcessOutcome
  fenced : Fence → ProcessOutcome
  delivered_unconfirmed : String → ProcessOutcome

-- A run of the worker: its outcome, the table after it, and the requests that reached the sender.
pub record Processed : Type 0 where
  pub outcome : ProcessOutcome
  pub rows : List MetaEventRow
  pub requests : List PurchaseInput

pub data ConfigError : Type 0 where
  attempts_not_positive attempts_above_ceiling lease_not_positive : ConfigError
  timeout_not_positive timeout_not_below_lease : ConfigError

pub data Result (A : Type 0) : Type 0 where
  ok : A → Result A
  config_error : ConfigError → Result A
  range_error : Result A

abbrev pub supported_meta_events : List String
supported_meta_events = "Purchase" ∷ []

unfoldable pub is_supported_meta_event : String → Bool
is_supported_meta_event name = any (λ s. s =ˢ name) supported_meta_events

abbrev pub resolve_max_attempts : Deps → ℤ
resolve_max_attempts deps = or_else deps.max_attempts default_max_attempts

abbrev pub lease_ms : Deps → ℤ
lease_ms deps = or_else deps.lease_duration lease_duration_ms

abbrev pub default_capi_timeout_ms : ℤ
default_capi_timeout_ms = pos 10000

abbrev pub timeout_of : Deps → ℤ
timeout_of deps = or_else deps.timeout_ms default_capi_timeout_ms

unfoldable pub assert_worker_config : Deps → Option ConfigError
assert_worker_config deps =
    let max = resolve_max_attempts deps in
    let lease = lease_ms deps in
    let timeout = timeout_of deps in
    if ltb_ℤ max (pos 1)
    then some attempts_not_positive
    else if ltb_ℤ (pos max_configurable_attempts) max
    then some attempts_above_ceiling
    else if leb_ℤ lease (pos 0)
    then some lease_not_positive
    else if leb_ℤ timeout (pos 0)
    then some timeout_not_positive
    else if leb_ℤ lease timeout
    then some timeout_not_below_lease
    else none

unfoldable pub claim_meta_events :
    (String → Bool)
    → ℕ
    → Deps
    → ℕ
    → ℤ
    → List MetaEventRow
    → Result (List MetaEventRow × List ClaimedMetaEvent)
claim_meta_events locked db_now deps now limit rows =
    if ltb_ℤ limit (pos 1) then range_error else elim (assert_worker_config deps) [
      | some e ↦ config_error e
      | none ↦ ok (
          claim locked db_now
            (record {
              worker_id = deps.worker_id;
              now = now;
              lease_expires_at = now + pos_part (lease_ms deps);
              limit = pos_part limit;
            })
            rows)
    ]

abbrev first_of_batch : List ClaimedMetaEvent → Option ClaimedMetaEvent
first_of_batch [] = none
first_of_batch (e ∷ _) = some e

unfoldable pub claim_meta_event :
    (String → Bool)
    → ℕ
    → Deps
    → ℕ
    → List MetaEventRow
    → Result (List MetaEventRow × Option ClaimedMetaEvent)
claim_meta_event locked db_now deps now rows =
    elim (claim_meta_events locked db_now deps now (pos 1) rows) [
      | ok (rows', batch) ↦ ok (rows', first_of_batch batch)
      | config_error e ↦ config_error e
      | range_error ↦ range_error
    ]

unfoldable pub describe : Cause → String
describe (error name message) = Str.◌++◌ name (Str.◌++◌ ": " message)
describe (other text) = text

abbrev settle : Deps → World → ClaimedMetaEvent → CompleteInput
settle deps w event = record { id = event.id; worker_id = deps.worker_id; now = w.now }

-- The three `markDeadLetter` calls of the source: `attempts` as given, and the outcome by the fence.
unfoldable pub bury_as :
    Deps → World → ClaimedMetaEvent → ℕ → Note → List PurchaseInput → List MetaEventRow → Processed
bury_as deps w event attempts note requests rows =
    let (rows', owned) =
      mark_dead_letter
        (record { complete = settle deps w event; attempts = attempts; last_error = note }) rows in
    record {
      outcome = if owned then dead_letter attempts note else fenced before_dead_lettering;
      rows = rows';
      requests = requests;
    }

unfoldable pub schedule_retry :
    Deps → World → ClaimedMetaEvent → Note → List PurchaseInput → List MetaEventRow → Processed
schedule_retry deps w event note requests rows =
    let attempts = event.attempts + 1 in
    let next_attempt_at = w.now + compute_retry_delay_ms attempts w.random in
    let (rows', owned) =
      mark_for_retry
        (record {
          complete = settle deps w event;
          attempts = attempts;
          next_attempt_at = next_attempt_at;
          last_error = note;
        })
        rows in
    if has_exhausted_attempts attempts (resolve_max_attempts deps)
    then bury_as deps w event attempts note requests rows
    else record {
      outcome = if owned then retry attempts next_attempt_at note else fenced before_retry;
      rows = rows';
      requests = requests;
    }

abbrev pub purchase_of : ClaimedMetaEvent → UserContext → PurchaseInput
purchase_of event c = record {
  event_id = event.meta_event_id;
  event_time = c.event_time;
  product_id = c.product_id;
  product_name = c.product_name;
  value = event.value_paise;
  currency = event.currency;
  client_ip = c.client_ip;
  user_agent = c.user_agent;
  email = c.email;
  phone = c.phone;
  fbp = c.fbp;
  fbc = c.fbc;
  event_source_url = c.event_source_url;
}

-- After Meta accepted: `markSent`, and the note of an unconfirmed delivery where the fence held.
unfoldable pub confirm :
    Deps → World → ClaimedMetaEvent → List PurchaseInput → List MetaEventRow → Processed
confirm deps w event requests rows =
    let (rows', owned) = mark_sent (settle deps w event) rows in
    let (noted, _) =
      record_ambiguous_send
        (record {
          complete = record { id = event.id; worker_id = deps.worker_id; now = w.ambiguous_now };
          meta_event_id = event.meta_event_id;
        })
        (w.meanwhile_ambiguous rows') in
    if owned then record { outcome = sent; rows = rows'; requests = requests } else record {
      outcome = delivered_unconfirmed event.meta_event_id;
      rows = noted;
      requests = requests;
    }

-- The rest of `processMetaEvent` after the sender returned or threw.
unfoldable pub after_send :
    Deps → World → ClaimedMetaEvent → List PurchaseInput → List MetaEventRow → Delivery → Processed
after_send deps w event requests rows accepted = confirm deps w event requests rows
after_send deps w event requests rows (invalid message) =
    bury_as deps w event event.attempts (invalid_payload message) requests rows
after_send deps w event requests rows (send_threw cause) =
    schedule_retry deps w event (failure (describe cause)) requests rows

-- The rest of it after `loadContext`.
unfoldable pub after_load : Deps → World → ClaimedMetaEvent → List MetaEventRow → Loaded → Processed
after_load deps w event rows (load_threw cause) =
    schedule_retry deps w event (failure (describe cause)) [] rows
after_load deps w event rows missing =
    bury_as deps w event event.attempts (no_dispatch_context event.order_id) [] rows
after_load deps w event rows (context c) =
    let request = purchase_of event c in
    after_send deps w event (request ∷ []) rows (w.sender request)

-- The body of `processMetaEvent` behind the check of the configuration.
unfoldable pub route : Deps → World → ClaimedMetaEvent → List MetaEventRow → Processed
route deps w event rows =
    if is_supported_meta_event event.event_name
    then after_load deps w event rows (w.load_context event)
    else bury_as deps w event event.attempts (unsupported_event event.event_name) [] rows

unfoldable pub process_meta_event :
    Deps → World → ClaimedMetaEvent → List MetaEventRow → Result Processed
process_meta_event deps w event before = elim (assert_worker_config deps) [
  | some e ↦ config_error e
  | none ↦ ok (route deps w event (w.meanwhile before))
]
