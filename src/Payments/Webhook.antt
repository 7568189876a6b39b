-- ===== src/Payments/Webhook.antt =====
-- packages/core-payments/src/webhookHandler.ts, the transaction of webhookPgStore.ts, and the route
-- apps/web/app/api/webhooks/razorpay/route.ts.
pub mod Growth
pub mod Steps
pub mod Settles
pub mod Effects
pub mod Runs
use ai_client_acquisition_os.Common.{
  ℕ, Bool, true, false, not, ◌&&◌, List, [], ◌∷◌, ◌++◌, Option, none, some, String, any, ◌=ˢ◌,
  if◌then◌else◌, length,
}
use ai_client_acquisition_os.Common.Text.{trim, is_blank}
use ai_client_acquisition_os.Catalog.{ProductId, Product, slug, resolve_product}
use ai_client_acquisition_os.Payments.Signature.{
  VerifiedWebhook, WebhookRejection, malformed_signature, VerifyWebhookInput, WebhookVerification,
  verify_razorpay_webhook,
}
use ai_client_acquisition_os.Payments.Signature as Signature
use ai_client_acquisition_os.Payments.Store.{
  Database, Draws, PersistedOrder, Failure, unknown_order, invalid_product, Attempt, done, threw,
  Tx, ◌>>=◌, ◌>>◌, pure, throw, insert_webhook_event, find_order_by_razorpay_order_id,
  upsert_captured_payment, mark_order_paid, grant_entitlement, enqueue_meta_purchase,
  mark_webhook_processed,
}

pub record PaymentEntity : Type 0 where
  pub id : String
  pub order_id : String
  pub amount : ℕ
  pub currency : String
  pub status : String

pub record WebhookEnvelope : Type 0 where
  pub event : String
  pub payment : Option PaymentEntity

abbrev pub supported_events : List String
supported_events = "payment.captured" ∷ []

abbrev pub is_supported : String → Bool
is_supported event = any (λ s. s =ˢ event) supported_events

pub data WebhookOutcome : Type 0 where
  processed duplicate ignored : String → String → WebhookOutcome
  rejected : WebhookRejection → WebhookOutcome

-- `build_meta_event_id` is injected: a text derived from the payment's id.
pub record WebhookHandlerDeps : Type 0 where
  pub build_meta_event_id : String → String
  pub event_id : String

unfoldable pub queue_purchase :
    Draws
    → WebhookHandlerDeps
    → ℕ
    → String
    → PaymentEntity
    → PersistedOrder
    → Product
    → Tx WebhookOutcome
queue_purchase draws deps at event entity order product = do
  enqueue_meta_purchase draws (deps.build_meta_event_id entity.id) order.id (slug product.id)
      order.amount_paise order.currency
  mark_webhook_processed deps.event_id at
  pure (processed deps.event_id event)

-- What the handler does once the product is known.
unfoldable pub record_payment :
    Draws
    → WebhookHandlerDeps
    → ℕ
    → String
    → PaymentEntity
    → PersistedOrder
    → Product
    → Tx WebhookOutcome
unfolding queue_purchase
record_payment draws deps at event entity order product = do
  grant_entitlement draws order.customer_email product.id order.id
  queue_purchase draws deps at event entity order product

unfoldable pub settle_order :
    Draws → WebhookHandlerDeps → ℕ → String → PaymentEntity → PersistedOrder → Tx WebhookOutcome
unfolding record_payment
settle_order draws deps at event entity order = do
  upsert_captured_payment draws entity.id order.id order.amount_paise order.currency
  mark_order_paid order.id
  elim (resolve_product order.product_slug) [
    | none ↦ throw (invalid_product order.product_slug)
    | some product ↦ record_payment draws deps at event entity order product
  ]

unfoldable pub settle_found :
    Draws
    → WebhookHandlerDeps
    → ℕ
    → String
    → PaymentEntity
    → Option PersistedOrder
    → Tx WebhookOutcome
unfolding settle_order
settle_found draws deps at event entity none = throw (unknown_order entity.order_id)
settle_found draws deps at event entity (some order) = settle_order draws deps at event entity order

unfoldable pub ignore_event : WebhookHandlerDeps → ℕ → String → Tx WebhookOutcome
ignore_event deps at event = do
  mark_webhook_processed deps.event_id at
  pure (ignored deps.event_id event)

-- What happens to an event that was not seen before.
unfoldable pub act_on :
    Draws → WebhookHandlerDeps → ℕ → String → Option PaymentEntity → Tx WebhookOutcome
unfolding settle_found ignore_event
act_on draws deps at event none = ignore_event deps at event
act_on draws deps at event (some entity) =
    if is_supported event
    then (do
      found ← find_order_by_razorpay_order_id entity.order_id
      settle_found draws deps at event entity found)
    else ignore_event deps at event

-- The function that the transaction runs.
unfoldable pub in_transaction :
    Draws → WebhookHandlerDeps → VerifiedWebhook → WebhookEnvelope → Tx WebhookOutcome
unfolding act_on
in_transaction draws deps verified body = do
  inserted ←
      insert_webhook_event draws deps.event_id body.event verified.raw_body verified.received_at
  if inserted
      then act_on draws deps verified.received_at body.event body.payment
      else pure (duplicate deps.event_id body.event)

abbrev pub unreadable : VerifiedWebhook → WebhookRejection
unreadable verified = record {
  reason = malformed_signature;
  received_at = verified.received_at;
  body_bytes = length verified.raw_body;
  signature_present = true;
  signature_well_formed = true;
  source_ip = none;
}

-- The answer of the handler and the database behind it; `none` where it throws.
abbrev pub Handled : Type 0
Handled = Database × Option WebhookOutcome

-- A connection inside a transaction: the database that others see, and the one that its own
-- statements read and write.
pub record Connection : Type 0 where
  pub committed : Database
  pub working : Database

-- `BEGIN`, a statement's effect, `COMMIT` and `ROLLBACK`.
abbrev pub begin : Database → Connection
begin db = record { committed = db; working = db }

abbrev pub write : Database → Connection → Connection
write db c = record c { working = db }

abbrev pub commit : Connection → Connection
commit c = record c { committed = c.working }

abbrev pub rollback : Connection → Connection
rollback c = record c { working = c.committed }

-- The end of the transaction on a connection, after the function that it ran.
unfoldable pub finish : Attempt WebhookOutcome → Connection → Connection × Option WebhookOutcome
finish (done outcome db) c = (commit (write db c), some outcome)
finish (threw e db) c = (rollback (write db c), none)

-- What the caller and the others see of an ended transaction.
abbrev pub released : Connection × Option WebhookOutcome → Handled
released (c, answer) = (c.committed, answer)

-- The transaction runner.
unfoldable pub webhook_transaction : Tx WebhookOutcome → Database → Handled
unfolding finish
webhook_transaction m db = let c = begin db in released (finish (m c.working) c)

-- `parse` is `JSON.parse` of the bytes and the schema: `none` where either fails.
module _ (parse : List ℕ → Option WebhookEnvelope) where
  unfoldable pub handle_razorpay_webhook :
      Draws → WebhookHandlerDeps → VerifiedWebhook → Database → Handled
  unfolding in_transaction webhook_transaction
  handle_razorpay_webhook draws deps verified db = elim (parse verified.raw_body) [
    | none ↦ (db, some (rejected (unreadable verified)))
    | some body ↦ webhook_transaction (in_transaction draws deps verified body) db
  ]
