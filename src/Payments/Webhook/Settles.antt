-- ===== src/Payments/Webhook/Settles.antt =====
-- packages/core-payments/src/webhookHandler.ts: what a run that records a payment has done.
use ai_client_acquisition_os.Common.{
  ℕ, true, ◌&&◌, some, String, any, any_mono, ◌=ˢ◌, ◌≡◌, refl, ap, ◌∙◌, arith, inl, inr,
  Option-cases,
}
use ai_client_acquisition_os.Common.Extends.{any-Extends}
use ai_client_acquisition_os.Common.Text.{to_lower}
use ai_client_acquisition_os.Catalog.{Product, slug, resolve_product}
use ai_client_acquisition_os.Entitlements.Repository.{is_conflict}
use ai_client_acquisition_os.MetaEvents.Repository.{MetaEventRow}
use ai_client_acquisition_os.Payments.Store.{
  Database, Draws, PersistedOrder, Payment, has_capture, is_captured, enqueue_meta_purchase,
  grant_entitlement, mark_webhook_processed, upsert_captured_payment, mark_order_paid,
}
use ai_client_acquisition_os.Payments.Webhook.{
  PaymentEntity, WebhookOutcome, processed, WebhookHandlerDeps, queue_purchase, record_payment,
  settle_order,
}
use ai_client_acquisition_os.Payments.Webhook.Growth.{
  OnDone, OnDone->>=, OnDone-map, on_done, on_throw, Grown, Grown-trans, SameMoney, Added,
  Added-Extends, Added-before, is_paid_order, Grown-paid,
}
use ai_client_acquisition_os.Payments.Webhook.Steps.{
  upsert_captured_payment-Grown, mark_order_paid-Grown, grant_entitlement-Grown,
  enqueue_meta_purchase-Grown, mark_webhook_processed-Grown, is_payment, is_right, is_purchase,
}

-- The whole of a captured payment of the order, between two databases: it is paid and holds a captured
-- payment; the payment is recorded for the order's price, or its id was there before; the buyer holds
-- an active right to the product for the order, or a right to it, active or revoked, was in the way
-- before; the purchase is queued for the product and the order's price, or its event id was there
-- before.
pub record Recorded (deps : WebhookHandlerDeps) (entity : PaymentEntity) (order : PersistedOrder)
    (product : Product) (before db : Database) : Type 0 where
  pub order_paid : any (is_paid_order order.id) db.orders ≡ true
  pub payment_recorded :
      Added
        (is_payment entity.id order.id order.amount_paise order.currency)
        (λ (p : Payment). p.razorpay_payment_id =ˢ entity.id)
        before.payments
        db.payments
  pub order_captured : has_capture order.id db.payments ≡ true
  pub entitled :
      Added
        (is_right (to_lower order.customer_email) product.id order.id)
        (is_conflict (to_lower order.customer_email) product.id)
        before.entitlements
        db.entitlements
  pub purchase_queued :
      Added
        (is_purchase
          (deps.build_meta_event_id entity.id)
          order.id
          (slug product.id)
          order.amount_paise
          order.currency)
        (λ (m : MetaEventRow). m.meta_event_id =ˢ deps.build_meta_event_id entity.id)
        before.meta_events
        db.meta_events

-- The outcome and the database of a run that recorded the payment.
abbrev pub Settles :
    WebhookHandlerDeps
    → String
    → PaymentEntity
    → PersistedOrder
    → Product
    → Database
    → WebhookOutcome
    → Database
    → Type 0
Settles deps event entity order product db outcome after =
    (outcome ≡ processed deps.event_id event)
    × Grown db after
    × Recorded deps entity order product db after

-- Only the tables count, so a change of the recorded events before makes no difference.
pub Recorded-same :
    (deps : WebhookHandlerDeps) (entity : PaymentEntity) (order : PersistedOrder)
    (product : Product) (before between after : Database)
    → SameMoney before between
    → Recorded deps entity order product between after
    → Recorded deps entity order product before after
Recorded-same deps entity order product before between after same r = record {
  order_paid = r.order_paid;
  payment_recorded =
      Added-before _ _ before.payments between.payments after.payments same.payments
        r.payment_recorded;
  order_captured = r.order_captured;
  entitled =
      Added-before _ _ before.entitlements between.entitlements after.entitlements same.entitlements
        r.entitled;
  purchase_queued =
      Added-before _ _ before.meta_events between.meta_events after.meta_events same.meta_events
        r.purchase_queued;
}

module _ (draws : Draws) (deps : WebhookHandlerDeps) (at : ℕ) (event : String)
    (entity : PaymentEntity) (order : PersistedOrder) (start : Database) where
  abbrev IsPaid : Database → Type 0
  IsPaid db = any (is_paid_order order.id) db.orders ≡ true

  abbrev PaymentAdded : Database → Type 0
  PaymentAdded db =
      Added (is_payment entity.id order.id order.amount_paise order.currency)
        (λ (p : Payment). p.razorpay_payment_id =ˢ entity.id) start.payments db.payments

  queue_purchase-Settles :
      (product : Product) (db : Database)
      → Grown start db
      → IsPaid db
      → PaymentAdded db
      → Added
          (is_right (to_lower order.customer_email) product.id order.id)
          (is_conflict (to_lower order.customer_email) product.id)
          start.entitlements
          db.entitlements
      → db.meta_events ≡ start.meta_events
      → OnDone
          (Settles deps event entity order product start)
          (queue_purchase draws deps at event entity order product db)
  unfolding queue_purchase
  queue_purchase-Settles product db grown is_paid recorded entitled unqueued =
      let queue =
        enqueue_meta_purchase-Grown draws (deps.build_meta_event_id entity.id) order.id
          (slug product.id) order.currency order.amount_paise db in
      let enqueue =
        enqueue_meta_purchase draws (deps.build_meta_event_id entity.id) order.id (slug product.id)
          order.amount_paise order.currency in
      OnDone->>= enqueue _ db queue λ _ db1 q.
        OnDone->>= (mark_webhook_processed deps.event_id at) _ db1
          (mark_webhook_processed-Grown deps.event_id at db1)
          λ _ db2 m.
            let all = Grown-trans db db1 db2 q.0 m.0 in
            on_done _ _ (
              refl,
              Grown-trans start db db2 grown all,
              record {
                order_paid = Grown-paid db db2 all order.id is_paid;
                payment_recorded =
                    Added-Extends _ _ start.payments db.payments db2.payments all.payments recorded;
                order_captured =
                    any-Extends (λ p. is_captured p && (p.order_id =ˢ order.id)) db1.payments
                      db2.payments m.0.payments q.2;
                entitled =
                    Added-Extends _ _ start.entitlements db.entitlements db2.entitlements
                      all.entitlements entitled;
                purchase_queued =
                    Added-Extends _ _ start.meta_events db1.meta_events db2.meta_events
                      m.0.meta_events
                      (Added-before _ _ start.meta_events db.meta_events db1.meta_events unqueued
                        q.1);
              },
            )

  record_payment-Settles :
      (product : Product) (db : Database)
      → Grown start db
      → IsPaid db
      → PaymentAdded db
      → db.entitlements ≡ start.entitlements
      → db.meta_events ≡ start.meta_events
      → OnDone
          (Settles deps event entity order product start)
          (record_payment draws deps at event entity order product db)
  unfolding record_payment
  record_payment-Settles product db grown is_paid recorded unentitled unqueued =
      let grant = grant_entitlement draws order.customer_email product.id order.id in
      OnDone->>= grant _ db
        (grant_entitlement-Grown draws order.customer_email order.id product.id db)
        λ _ db1 g.
          queue_purchase-Settles product db1 (Grown-trans start db db1 grown g.0)
            (Grown-paid db db1 g.0 order.id is_paid)
            (Added-Extends _ _ start.payments db.payments db1.payments g.0.payments recorded)
            (Added-before _ _ start.entitlements db.entitlements db1.entitlements unentitled g.1)
            (g.2 ∙ unqueued)

  -- The run once the order is found: if it settles, the catalog knows the order's product.
  pub settle_order-Settles :
      OnDone
        (λ outcome after.
          (product : Product) × (resolve_product order.product_slug ≡ some product)
          × Settles deps event entity order product start outcome after)
        (settle_order draws deps at event entity order start)
  unfolding settle_order
  settle_order-Settles =
      let upsert =
        upsert_captured_payment draws entity.id order.id order.amount_paise order.currency in
      OnDone->>= upsert _ start
        (upsert_captured_payment-Grown draws entity.id order.id order.currency order.amount_paise
          start)
        λ _ db1 u.
          OnDone->>= (mark_order_paid order.id) _ db1 (mark_order_paid-Grown order.id db1)
            λ _ db2 m.
              let grown = Grown-trans start db1 db2 u.0 m.0 in
              let is_there : any (λ (o : PersistedOrder). o.id =ˢ order.id) db1.orders ≡ true =
                ap (any (λ (o : PersistedOrder). o.id =ˢ order.id)) u.3
                ∙ any_mono _ (λ o. o.id =ˢ order.id) (λ o h. ground arith) start.orders u.2 in
              elim (Option-cases (resolve_product order.product_slug)) [
                | inl e ↦ rw e (on_throw _ _)
                | inr (product, e) ↦ rw e (
                    OnDone-map (λ outcome after s. (product, refl, s))
                      (record_payment-Settles product db2 grown (m.1 is_there)
                        (Added-Extends _ _ start.payments db1.payments db2.payments m.0.payments
                          u.1)
                        (m.2 ∙ u.4) (m.3 ∙ u.5)))
              ]
