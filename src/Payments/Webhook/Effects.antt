-- ===== src/Payments/Webhook/Effects.antt =====
-- What one run of the webhook's handler leaves in the database, by its outcome.
use ai_client_acquisition_os.Common.{
  ℕ, Bool, true, false, not, Option, none, some, find, find_sound, ◌=ˢ◌, =ˢ_iff, if◌then◌else◌, ◌≡◌,
  refl, sym, subst, arith, Memᴰ,
}
use ai_client_acquisition_os.Catalog.{Product, resolve_product}
use ai_client_acquisition_os.Payments.Signature.{VerifiedWebhook}
use ai_client_acquisition_os.Payments.Store.{
  Database, Draws, PersistedOrder, has_event, find_order_by_razorpay_order_id, insert_webhook_event,
  ◌>>=◌, pure, mark_webhook_processed,
}
use ai_client_acquisition_os.Payments.Webhook.{
  PaymentEntity, WebhookEnvelope, WebhookOutcome, processed, duplicate, ignored, rejected,
  WebhookHandlerDeps, is_supported, settle_found, ignore_event, act_on, in_transaction,
}
use ai_client_acquisition_os.Payments.Webhook.Growth.{
  OnDone, OnDone->>=, OnDone-map, on_done, on_throw, Grown, Grown-refl, Grown-trans, SameMoney,
  SameMoney-trans, Grown-has_event,
}
use ai_client_acquisition_os.Payments.Webhook.Steps.{
  insert_webhook_event-Grown, mark_webhook_processed-Grown,
}
use ai_client_acquisition_os.Payments.Webhook.Settles.{
  Recorded, Recorded-same, settle_order-Settles,
}

-- What a run did, by the outcome that it reports.
abbrev pub Effect :
    WebhookHandlerDeps → WebhookEnvelope → Database → WebhookOutcome → Database → Type 0
Effect deps body db (processed id event) after =
    (entity : PaymentEntity) × (order : PersistedOrder) × (product : Product) × (body.payment
      ≡ some entity)
    × (is_supported body.event ≡ true)
    × Memᴰ order db.orders
    × (order.razorpay_order_id ≡ entity.order_id)
    × (resolve_product order.product_slug ≡ some product)
    × Recorded deps entity order product db after
Effect deps body db (duplicate id event) after =
    (has_event deps.event_id db.webhook_events ≡ true) × (after ≡ db)
Effect deps body db (ignored id event) after = SameMoney db after
Effect deps body db (rejected r) after = ⊥

module _ (draws : Draws) (deps : WebhookHandlerDeps) (at : ℕ) (body : WebhookEnvelope)
    (db : Database) where
  ignore_event-Effect :
      (between : Database)
      → SameMoney db between
      → OnDone
          (λ outcome after. Grown between after × Effect deps body db outcome after)
          (ignore_event deps at body.event between)
  unfolding ignore_event
  ignore_event-Effect between same =
      OnDone->>= (mark_webhook_processed deps.event_id at) _ between
        (mark_webhook_processed-Grown deps.event_id at between)
        λ _ after m. on_done _ _ (m.0, SameMoney-trans db between after same m.1)

  settle_found-Effect :
      (entity : PaymentEntity) (between : Database) (found : Option PersistedOrder)
      → body.payment ≡ some entity
      → is_supported body.event ≡ true
      → SameMoney db between
      → find (λ (o : PersistedOrder). o.razorpay_order_id =ˢ entity.order_id) between.orders ≡ found
      → OnDone
          (λ outcome after. Grown between after × Effect deps body db outcome after)
          (settle_found draws deps at body.event entity found between)
  unfolding settle_found
  settle_found-Effect entity between none has supported same e = on_throw _ _
  settle_found-Effect entity between (some order) has supported same e =
      let found = find_sound _ between.orders order e in
      OnDone-map
        (λ outcome after s.
          subst (λ o. Grown between after × Effect deps body db o after) (sym s.2.0)
            (
              s.2.1,
              (
                entity,
                order,
                s.0,
                has,
                supported,
                subst (Memᴰ order) same.orders found.1,
                (=ˢ_iff order.razorpay_order_id entity.order_id).0 found.0,
                s.1,
                Recorded-same deps entity order s.0 db between after same s.2.2,
              ),
            ))
        (settle_order-Settles draws deps at body.event entity order between)

  supported-Effect :
      (supported : Bool) (entity : PaymentEntity) (between : Database)
      → is_supported body.event ≡ supported
      → body.payment ≡ some entity
      → SameMoney db between
      → OnDone
          (λ outcome after. Grown between after × Effect deps body db outcome after)
          ((if supported
              then find_order_by_razorpay_order_id entity.order_id
                >>= settle_found draws deps at body.event entity
              else ignore_event deps at body.event)
            between)
  unfolding find_order_by_razorpay_order_id
  supported-Effect true entity between s has same =
      settle_found-Effect entity between _ has s same refl
  supported-Effect false entity between s has same = ignore_event-Effect between same

  act_on-Effect :
      (between : Database) (payment : Option PaymentEntity)
      → body.payment ≡ payment
      → SameMoney db between
      → OnDone
          (λ outcome after. Grown between after × Effect deps body db outcome after)
          (act_on draws deps at body.event payment between)
  unfolding act_on
  act_on-Effect between none e same = ignore_event-Effect between same
  act_on-Effect between (some entity) e same = supported-Effect _ entity between refl e same

  inserted-Effect :
      (inserted : Bool) (between : Database)
      → inserted ≡ not (has_event deps.event_id db.webhook_events)
      → (inserted ≡ false → between ≡ db)
      → SameMoney db between
      → OnDone
          (λ outcome after. Grown between after × Effect deps body db outcome after)
          ((if inserted
              then act_on draws deps at body.event body.payment
              else pure (duplicate deps.event_id body.event))
            between)
  inserted-Effect true between fresh undone same = act_on-Effect between body.payment refl same
  inserted-Effect false between seen undone same =
      on_done _ _ (Grown-refl between, (ground (arith, seen), undone refl))

-- The whole transaction: however it ends without a throw, the event's id is recorded, rows were only
-- added and orders only marked paid, and its outcome says what else it did.
pub in_transaction-Effect :
    (draws : Draws) (deps : WebhookHandlerDeps) (verified : VerifiedWebhook)
    (body : WebhookEnvelope) (db : Database)
    → OnDone
        (λ outcome after.
          Grown db after
          × (has_event deps.event_id after.webhook_events ≡ true)
          × Effect deps body db outcome after)
        (in_transaction draws deps verified body db)
unfolding in_transaction
in_transaction-Effect draws deps verified body db =
    let insert =
      insert_webhook_event draws deps.event_id body.event verified.raw_body verified.received_at in
    OnDone->>= insert _ db
      (insert_webhook_event-Grown draws deps.event_id body.event verified.raw_body
        verified.received_at db)
      λ inserted between i.
        OnDone-map
          (λ outcome after h. (
            Grown-trans db between after i.2 h.0,
            Grown-has_event between after h.0 deps.event_id i.4,
            h.1,
          ))
          (inserted-Effect draws deps verified.received_at body db inserted between i.0 i.1 i.3)
