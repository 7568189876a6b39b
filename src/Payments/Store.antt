-- ===== src/Payments/Store.antt =====
-- packages/core-payments/src/webhookPgStore.ts and orderRepository.ts: the tables of the money path
-- and the statements of a transaction, with the constraints and triggers that they run into.
use ai_client_acquisition_os.Common.{
  ℕ, Bool, true, false, not, ◌&&◌, List, [], ◌∷◌, ◌++◌, Option, none, some, String, any, find, ◌=ˢ◌,
  ◌==◌, if◌then◌else◌,
}
use ai_client_acquisition_os.Common.Text.{to_lower}
use ai_client_acquisition_os.Common.Rows.{update_where}
use ai_client_acquisition_os.Catalog.{ProductId}
use ai_client_acquisition_os.Entitlements.Repository.{
  Entitlement, is_conflict, TriggerReads, TriggerError, before_insert,
}
use ai_client_acquisition_os.MetaEvents.Repository.{MetaEventRow}
use ai_client_acquisition_os.MetaEvents.Repository as Meta

pub data OrderStatus : Type 0 where
  pending attempted paid failed expired : OrderStatus

-- Without the times of creation and update, which nothing here reads.
pub record PersistedOrder : Type 0 where
  pub id : String
  pub razorpay_order_id : String
  pub idempotency_key : Option String
  pub customer_email : String
  pub customer_phone : Option String
  pub product_slug : String
  pub product_name : String
  pub amount_paise : ℕ
  pub currency : String
  pub status : OrderStatus

pub data PaymentStatus : Type 0 where
  authorized captured failed refunded : PaymentStatus

pub record Payment : Type 0 where
  pub id : String
  pub razorpay_payment_id : String
  pub order_id : String
  pub amount_paise : ℕ
  pub currency : String
  pub status : PaymentStatus

-- `payload` is the body that the stored JSON was parsed from; the order id, which the handler always
-- stores as null, is left out.
pub record WebhookEvent : Type 0 where
  pub id : String
  pub razorpay_event_id : String
  pub event_name : String
  pub payload : List ℕ
  pub received_at : ℕ
  pub processed_at : Option ℕ

pub record Database : Type 0 where
  pub orders : List PersistedOrder
  pub payments : List Payment
  pub webhook_events : List WebhookEvent
  pub entitlements : List Entitlement
  pub meta_events : List MetaEventRow

-- What a transaction draws from outside: the random ids and the time of the database.
pub record Draws : Type 0 where
  pub event_row : String
  pub payment_row : String
  pub entitlement_row : String
  pub meta_row : String
  pub db_now : ℕ

pub data Failure : Type 0 where
  unknown_order : String → Failure
  invalid_product : String → Failure
  payment_matches_order : Failure
  one_captured_per_order : Failure
  meta_event_requires_captured_payment : Failure
  meta_event_order_taken : Failure
  entitlement_refused : TriggerError → Failure

-- A statement, or several, inside a transaction, and the database as the transaction then sees it.
pub data Attempt (A : Type 0) : Type 0 where
  done : A → Database → Attempt A
  threw : Failure → Database → Attempt A

abbrev pub Tx : Type 0 → Type 0
Tx A = Database → Attempt A

infixl 5 ◌>>=◌ ◌>>◌
abbrev pub ◌>>=◌ : {A B : Type 0} → Tx A → (A → Tx B) → Tx B
◌>>=◌ m f db = elim (m db) [ done a db' ↦ f a db' | threw e db' ↦ threw e db' ]

abbrev pub ◌>>◌ : {B : Type 0} → Tx (Unit {0}) → Tx B → Tx B
m >> k = m >>= λ _. k

abbrev pub pure : {A : Type 0} → A → Tx A
pure a db = done a db

abbrev pub throw : {A : Type 0} → Failure → Tx A
throw e db = threw e db

-- `ON CONFLICT (razorpay_event_id) DO NOTHING`; whether a row was inserted.
abbrev pub has_event : String → List WebhookEvent → Bool
has_event id = any (λ (e : WebhookEvent). e.razorpay_event_id =ˢ id)

unfoldable pub insert_webhook_event : Draws → String → String → List ℕ → ℕ → Tx Bool
insert_webhook_event draws event_id event_name payload received_at db =
    let row : WebhookEvent = record {
      id = draws.event_row;
      razorpay_event_id = event_id;
      event_name = event_name;
      payload = payload;
      received_at = received_at;
      processed_at = none;
    } in
    if has_event event_id db.webhook_events
    then done false db
    else done true (record db { webhook_events = db.webhook_events ++ row ∷ [] })

unfoldable pub find_order_by_razorpay_order_id : String → Tx (Option PersistedOrder)
find_order_by_razorpay_order_id id db =
    done (find (λ (o : PersistedOrder). o.razorpay_order_id =ˢ id) db.orders) db

abbrev pub is_captured : Payment → Bool
is_captured p = elim p.status [ captured ↦ true | _ ↦ false ]

abbrev pub has_capture : String → List Payment → Bool
has_capture order_id = any (λ (p : Payment). is_captured p && (p.order_id =ˢ order_id))

-- The trigger `payments_match_order`.
abbrev pub matches_order : String → ℕ → String → List PersistedOrder → Bool
matches_order order_id amount currency = any λ (o : PersistedOrder).
    (o.id =ˢ order_id) && (o.amount_paise == amount) && (o.currency =ˢ currency)

-- The trigger runs before the conflict is looked at; the index `payments_one_captured_per_order`
-- has its say about a row that is inserted.
unfoldable pub upsert_captured_payment : Draws → String → String → ℕ → String → Tx (Unit {0})
upsert_captured_payment draws payment_id order_id amount currency db =
    let row : Payment = record {
      id = draws.payment_row;
      razorpay_payment_id = payment_id;
      order_id = order_id;
      amount_paise = amount;
      currency = currency;
      status = captured;
    } in
    if not (matches_order order_id amount currency db.orders)
    then threw payment_matches_order db
    else if any (λ (p : Payment). p.razorpay_payment_id =ˢ payment_id) db.payments
    then done tt db
    else if has_capture order_id db.payments
    then threw one_captured_per_order db
    else done tt (record db { payments = db.payments ++ row ∷ [] })

unfoldable pub mark_order_paid : String → Tx (Unit {0})
unfolding update_where
mark_order_paid order_id db = done tt (record db {
  orders =
      update_where (λ (o : PersistedOrder). o.id =ˢ order_id) (λ o. record o { status = paid })
        db.orders;
})

-- What the triggers on entitlements read of the orders and the payments.
abbrev pub trigger_reads : Database → TriggerReads
trigger_reads db = record {
  ordered = λ id. elim (find (λ (o : PersistedOrder). o.id =ˢ id) db.orders) [
    | none ↦ none
    | some o ↦ some (o.product_slug, to_lower o.customer_email)
  ];
  is_paid_for = λ id. has_capture id db.payments;
}

-- `lower($2)`, without a trim, unlike `normaliseEmail`. The triggers run first, then the conflict
-- counts.
unfoldable pub grant_entitlement : Draws → String → ProductId → String → Tx (Unit {0})
unfolding to_lower before_insert
grant_entitlement draws customer_email product order_id db =
    let email = to_lower customer_email in
    let row : Entitlement = record {
      id = draws.entitlement_row;
      customer_email = email;
      product_slug = product;
      order_id = order_id;
      granted_at = draws.db_now;
      revoked_at = none;
    } in
    elim (before_insert (trigger_reads db) row) [
      | some e ↦ threw (entitlement_refused e) db
      | none ↦
          if any (is_conflict email product) db.entitlements
          then done tt db
          else done tt (record db { entitlements = db.entitlements ++ row ∷ [] })
    ]

-- The trigger `meta_events_require_capture` runs first, then the conflict on the event id counts,
-- then the unique index on the order.
unfoldable pub enqueue_meta_purchase : Draws → String → String → String → ℕ → String → Tx (Unit {0})
enqueue_meta_purchase draws meta_event_id order_id product value_paise currency db =
    let row : MetaEventRow = record {
      id = draws.meta_row;
      meta_event_id = meta_event_id;
      order_id = order_id;
      event_name = "Purchase";
      product = product;
      value_paise = value_paise;
      currency = currency;
      status = Meta.pending;
      attempts = 0;
      next_attempt_at = draws.db_now;
      created_at = draws.db_now;
      lease_owner = none;
      lease_expires_at = none;
      last_error = none;
      updated_at = draws.db_now;
    } in
    if not (has_capture order_id db.payments)
    then threw meta_event_requires_captured_payment db
    else if any (λ (m : MetaEventRow). m.meta_event_id =ˢ meta_event_id) db.meta_events
    then done tt db
    else if any (λ (m : MetaEventRow). m.order_id =ˢ order_id) db.meta_events
    then threw meta_event_order_taken db
    else done tt (record db { meta_events = db.meta_events ++ row ∷ [] })

unfoldable pub mark_webhook_processed : String → ℕ → Tx (Unit {0})
unfolding update_where
mark_webhook_processed event_id at db = done tt (record db {
  webhook_events =
      update_where (λ (e : WebhookEvent). e.razorpay_event_id =ˢ event_id)
        (λ e. record e { processed_at = some at }) db.webhook_events;
})
