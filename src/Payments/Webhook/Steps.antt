-- ===== src/Payments/Webhook/Steps.antt =====
-- How the statements of the webhook's transaction change the database, each by itself.
use ai_client_acquisition_os.Common.{
  ℕ, Bool, true, false, not, ◌&&◌, ◌==◌, List, String, any, ◌=ˢ◌, =ˢ_iff, ◌≡◌, refl, ◌∙◌, arith,
  any_of_last, inl, inr,
}
use ai_client_acquisition_os.Common.Extends.{Extends-++, any-Extends}
use ai_client_acquisition_os.Common.Rows.{
  any-update_where_hit, any-update_where_same, Pairs-update_where,
}
use ai_client_acquisition_os.Catalog.{ProductId, same_product_refl}
use ai_client_acquisition_os.Payments.Store.{
  Database, Draws, paid, has_event, insert_webhook_event, upsert_captured_payment, mark_order_paid,
  grant_entitlement, enqueue_meta_purchase, mark_webhook_processed, Payment, has_capture,
  is_captured, matches_order, trigger_reads,
}
use ai_client_acquisition_os.Entitlements.Repository.{
  Entitlement, is_conflict, is_active, before_insert,
}
use ai_client_acquisition_os.MetaEvents.Repository.{MetaEventRow, is_pending}
use ai_client_acquisition_os.Common.Text.{to_lower}
use ai_client_acquisition_os.Payments.Webhook.Growth.{
  OnDone, OnDone-if, OnDone-option, on_done, on_throw, SameOrder, Grown, Grown-refl, SameOrder-refl,
  Grown-orders, Grown-payments, Grown-entitlements, Grown-meta_events, Grown-webhook_events,
  SameMoney, SameMoney-events, Added, is_paid_order,
}

=ˢ_refl : (a : String) → (a =ˢ a) ≡ true
=ˢ_refl a = (=ˢ_iff a a).1 refl

pub insert_webhook_event-Grown :
    (draws : Draws) (event_id name : String) (payload : List ℕ) (at : ℕ) (db : Database)
    → OnDone
        (λ b after.
          (b ≡ not (has_event event_id db.webhook_events))
          × (b ≡ false → after ≡ db)
          × Grown db after
          × SameMoney db after
          × (has_event event_id after.webhook_events ≡ true))
        (insert_webhook_event draws event_id name payload at db)
unfolding insert_webhook_event
insert_webhook_event-Grown draws event_id name payload at db =
    OnDone-if _ (has_event event_id db.webhook_events) _ _
      (λ e. on_done _ _ (rw e, λ _. refl, Grown-refl db, SameMoney-events db db.webhook_events, e))
      (λ e. on_done _ _ (
        rw e,
        λ f. ground (arith, f),
        Grown-webhook_events db _ (λ id h.
            any-Extends (λ w. w.razorpay_event_id =ˢ id) _ _ (Extends-++ db.webhook_events _) h),
        SameMoney-events db _,
        any_of_last (λ w. w.razorpay_event_id =ˢ event_id) db.webhook_events _ (=ˢ_refl event_id),
      ))

-- The captured payment of an order, for what the order costs.
abbrev pub is_payment : String → String → ℕ → String → Payment → Bool
is_payment payment_id order_id amount currency p =
    (p.razorpay_payment_id =ˢ payment_id)
    && (p.order_id =ˢ order_id)
    && (p.amount_paise == amount)
    && (p.currency =ˢ currency)
    && is_captured p

-- An active entitlement of the address to the product, for the order.
abbrev pub is_right : String → ProductId → String → Entitlement → Bool
is_right email product order_id e =
    is_conflict email product e && is_active e && (e.order_id =ˢ order_id)

-- The queued purchase of an order.
abbrev pub is_purchase : String → String → String → ℕ → String → MetaEventRow → Bool
is_purchase meta_event_id order_id product value currency m =
    (m.meta_event_id =ˢ meta_event_id)
    && (m.order_id =ˢ order_id)
    && (m.event_name =ˢ "Purchase")
    && (m.product =ˢ product)
    && (m.value_paise == value)
    && (m.currency =ˢ currency)
    && is_pending m.status

pub upsert_captured_payment-Grown :
    (draws : Draws) (payment_id order_id currency : String) (amount : ℕ) (db : Database)
    → OnDone
        (λ _ after.
          Grown db after
          × Added
              (is_payment payment_id order_id amount currency)
              (λ p. p.razorpay_payment_id =ˢ payment_id)
              db.payments
              after.payments
          × (matches_order order_id amount currency db.orders ≡ true)
          × (after.orders ≡ db.orders)
          × (after.entitlements ≡ db.entitlements)
          × (after.meta_events ≡ db.meta_events))
        (upsert_captured_payment draws payment_id order_id amount currency db)
unfolding upsert_captured_payment
upsert_captured_payment-Grown draws payment_id order_id currency amount db =
    OnDone-if _ (not (matches_order order_id amount currency db.orders)) _ _ (λ _. on_throw _ _)
      (λ m.
        OnDone-if _ (any (λ (p : Payment). p.razorpay_payment_id =ˢ payment_id) db.payments) _ _
          (λ e. on_done _ _ (Grown-refl db, inr e, ground (arith, m), refl, refl, refl))
          (λ _.
            OnDone-if _ (has_capture order_id db.payments) _ _ (λ _. on_throw _ _)
              (λ _. on_done _ _ (
                Grown-payments db _,
                inl (
                    any_of_last (is_payment payment_id order_id amount currency) db.payments _
                      (ground (arith, =ˢ_refl payment_id, =ˢ_refl order_id, =ˢ_refl currency))),
                ground (arith, m),
                refl,
                refl,
                refl,
              ))))

pub mark_order_paid-Grown :
    (order_id : String) (db : Database)
    → OnDone
        (λ _ after.
          Grown db after
          × (any (λ o. o.id =ˢ order_id) db.orders ≡ true
              → any (is_paid_order order_id) after.orders ≡ true)
          × (after.entitlements ≡ db.entitlements)
          × (after.meta_events ≡ db.meta_events))
        (mark_order_paid order_id db)
unfolding mark_order_paid
mark_order_paid-Grown order_id db = on_done _ _ (
  Grown-orders db _ (
      Pairs-update_where SameOrder (λ o. o.id =ˢ order_id) (λ o. record o { status = paid })
        (λ o _. SameOrder-refl o) (λ o _. record { same = refl; settled = inr refl }) db.orders),
  any-update_where_hit (is_paid_order order_id) (λ o. o.id =ˢ order_id) _ (λ o h. ground arith)
      db.orders,
  refl,
  refl,
)

pub grant_entitlement-Grown :
    (draws : Draws) (email order_id : String) (product : ProductId) (db : Database)
    → OnDone
        (λ _ after.
          Grown db after
          × Added
              (is_right (to_lower email) product order_id)
              (is_conflict (to_lower email) product)
              db.entitlements
              after.entitlements
          × (after.meta_events ≡ db.meta_events))
        (grant_entitlement draws email product order_id db)
unfolding grant_entitlement
grant_entitlement-Grown draws email order_id product db =
    OnDone-option _ (before_insert (trigger_reads db) _) _ _ (λ _. on_throw _ _)
      (OnDone-if _ (any (is_conflict (to_lower email) product) db.entitlements) _ _
        (λ e. on_done _ _ (Grown-refl db, inr e, refl))
        (λ _. on_done _ _ (
          Grown-entitlements db _,
          inl (
              any_of_last (is_right (to_lower email) product order_id) db.entitlements _ (
                ground
                  (arith, =ˢ_refl (to_lower email), =ˢ_refl order_id, same_product_refl product))),
          refl,
        )))

pub enqueue_meta_purchase-Grown :
    (draws : Draws) (meta_event_id order_id product currency : String) (value : ℕ) (db : Database)
    → OnDone
        (λ _ after.
          Grown db after
          × Added
              (is_purchase meta_event_id order_id product value currency)
              (λ m. m.meta_event_id =ˢ meta_event_id)
              db.meta_events
              after.meta_events
          × (has_capture order_id after.payments ≡ true))
        (enqueue_meta_purchase draws meta_event_id order_id product value currency db)
unfolding enqueue_meta_purchase
enqueue_meta_purchase-Grown draws meta_event_id order_id product currency value db =
    OnDone-if _ (not (has_capture order_id db.payments)) _ _ (λ _. on_throw _ _)
      (λ c.
        OnDone-if _ (any (λ (m : MetaEventRow). m.meta_event_id =ˢ meta_event_id) db.meta_events) _
          _ (λ e. on_done _ _ (Grown-refl db, inr e, ground (arith, c)))
          (λ _.
            OnDone-if _ (any (λ (m : MetaEventRow). m.order_id =ˢ order_id) db.meta_events) _ _
              (λ _. on_throw _ _)
              (λ _. on_done _ _ (
                Grown-meta_events db _,
                inl (
                    any_of_last (is_purchase meta_event_id order_id product value currency)
                      db.meta_events _
                      (ground (
                        arith,
                        =ˢ_refl meta_event_id,
                        =ˢ_refl order_id,
                        =ˢ_refl product,
                        =ˢ_refl currency,
                      ))),
                ground (arith, c),
              ))))

pub mark_webhook_processed-Grown :
    (event_id : String) (at : ℕ) (db : Database)
    → OnDone
        (λ _ after. Grown db after × SameMoney db after)
        (mark_webhook_processed event_id at db)
unfolding mark_webhook_processed
mark_webhook_processed-Grown event_id at db = on_done _ _ (
  Grown-webhook_events db _ (λ id h.
      any-update_where_same (λ w. w.razorpay_event_id =ˢ id) (λ w. w.razorpay_event_id =ˢ event_id)
        _ (λ w. refl) db.webhook_events
      ∙ h),
  SameMoney-events db _,
)
