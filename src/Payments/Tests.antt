-- ===== src/Payments/Tests.antt =====
-- One order, its payment and the webhook's runs over them, and the theorems at these inputs.
use ai_client_acquisition_os.Common.{
  ℕ, ◌≡◌, refl, ◌↔◌, true, false, List, [], ◌∷◌, Option, none, some, String, length, ◌≤◌,
}
use ai_client_acquisition_os.Common.Text.{is_blank, trim, to_lower}
use ai_client_acquisition_os.Common.Rows.{update_where}
use ai_client_acquisition_os.Catalog.{slug, get_product, resolve_product}
use ai_client_acquisition_os.Entitlements.Repository.{before_insert, match_order}
use ai_client_acquisition_os.Payments.Store.{
  PersistedOrder, Payment, WebhookEvent, Database, Draws, insert_webhook_event,
  find_order_by_razorpay_order_id, upsert_captured_payment, mark_order_paid, grant_entitlement,
  enqueue_meta_purchase, mark_webhook_processed,
}
use ai_client_acquisition_os.Payments.Store as Store
use ai_client_acquisition_os.Payments.Signature.{
  VerifiedWebhook, VerifyWebhookInput, WebhookVerification, max_webhook_body_bytes, is_sha256_hex,
  hex_bytes, header_of, verify_razorpay_webhook, verify_razorpay_webhook_iff,
}
use ai_client_acquisition_os.Payments.Signature as Signature
use ai_client_acquisition_os.Payments.Webhook.{
  PaymentEntity, WebhookEnvelope, processed, duplicate, WebhookHandlerDeps, handle_razorpay_webhook,
  in_transaction, act_on, settle_found, settle_order, record_payment, queue_purchase,
  webhook_transaction, finish,
}
use ai_client_acquisition_os.Payments.Webhook.Runs.{
  Ran, handle_razorpay_webhook-Ran, handle_razorpay_webhook_twice,
}
use ai_client_acquisition_os.Payments.Orders.{
  CreateOrderRequest, CreateOrderOptions, SafeOrderPaymentInfo, World, ok, create_order, look_up,
  place_order, persist, find_by_idempotency_key, key_of,
}
use ai_client_acquisition_os.Payments.Orders.Created.{Placed, create_order-Placed}
use ai_client_acquisition_os.Payments.Orders.Replay.{Replayed, create_order_retry}
use ai_client_acquisition_os.Payments.Route.{HookRequest, HookState, post}
use ai_client_acquisition_os.Payments.Route.Answers.{Answered, post-Answered}

abbrev body_bytes : List ℕ
body_bytes = 123 ∷ 125 ∷ []

-- A digest of one byte over and over, and its digits.
abbrev digest : String → List ℕ → List ℕ
digest secret body = hex_bytes "abababababababababababababababababababababababababababababababab"

abbrev signed : VerifyWebhookInput
signed = record {
  raw_body = body_bytes;
  signature_header = some "ABababababababababababababababababababababababababababababababab";
  webhook_secret = "secret";
  received_at = 50;
  source_ip = none;
}

abbrev verified : VerifiedWebhook
verified = record { raw_body = body_bytes; received_at = 50 }

verify_razorpay_webhook_iff_example :
    (verify_razorpay_webhook digest signed ≡ Signature.ok verified) ↔ (
      (is_blank signed.webhook_secret ≡ false)
      × (1 ≤ length body_bytes)
      × (length body_bytes ≤ max_webhook_body_bytes)
      × (is_sha256_hex (header_of digest signed) ≡ true)
      × (digest "secret" body_bytes ≡ hex_bytes (header_of digest signed))
      × (verified ≡ record { raw_body = body_bytes; received_at = 50 }))
verify_razorpay_webhook_iff_example = verify_razorpay_webhook_iff digest signed verified

abbrev order : PersistedOrder
order = record {
  id = "o1";
  razorpay_order_id = "order_1";
  idempotency_key = some "k1";
  customer_email = "a@b.com";
  customer_phone = none;
  product_slug = "ai_income_99";
  product_name = "AI Income Starter Kit";
  amount_paise = 9900;
  currency = "INR";
  status = Store.pending;
}

abbrev db : Database
db = record {
  orders = order ∷ [];
  payments = [];
  webhook_events = [];
  entitlements = [];
  meta_events = [];
}

abbrev draws : Draws
draws = record {
  event_row = "w1";
  payment_row = "p1";
  entitlement_row = "e1";
  meta_row = "m1";
  db_now = 60;
}

abbrev entity : PaymentEntity
entity = record {
  id = "pay_1";
  order_id = "order_1";
  amount = 1;
  currency = "INR";
  status = "captured";
}

abbrev envelope : WebhookEnvelope
envelope = record { event = "payment.captured"; payment = some entity }

abbrev parse : List ℕ → Option WebhookEnvelope
parse [] = none
parse (b ∷ bytes) = some envelope

abbrev deps : WebhookHandlerDeps
deps = record { build_meta_event_id = λ id. id; event_id = "evt_1" }

abbrev after_run : Database
after_run = (handle_razorpay_webhook parse draws deps verified db).0

handled_run :
    handle_razorpay_webhook parse draws deps verified db
    ≡ (after_run, some (processed "evt_1" "payment.captured"))
unfolding handle_razorpay_webhook in_transaction act_on settle_found settle_order record_payment
    queue_purchase insert_webhook_event find_order_by_razorpay_order_id upsert_captured_payment
    mark_order_paid grant_entitlement before_insert match_order webhook_transaction finish
    enqueue_meta_purchase mark_webhook_processed update_where resolve_product slug get_product
    to_lower
handled_run = refl

-- The amount of the payload, one paisa, is not what is recorded.
recorded_amount :
    after_run.payments
    ≡ record {
      id = "p1";
      razorpay_payment_id = "pay_1";
      order_id = "o1";
      amount_paise = 9900;
      currency = "INR";
      status = Store.captured;
    }
      ∷ []
unfolding handle_razorpay_webhook in_transaction act_on settle_found settle_order record_payment
    queue_purchase insert_webhook_event find_order_by_razorpay_order_id upsert_captured_payment
    mark_order_paid grant_entitlement before_insert match_order webhook_transaction finish
    enqueue_meta_purchase mark_webhook_processed update_where resolve_product slug get_product
    to_lower
recorded_amount = refl

handle_razorpay_webhook-Ran_example :
    Ran deps envelope db (processed "evt_1" "payment.captured") after_run
handle_razorpay_webhook-Ran_example =
    handle_razorpay_webhook-Ran parse draws deps verified db after_run
      (processed "evt_1" "payment.captured") envelope refl handled_run

handle_razorpay_webhook_twice_example :
    handle_razorpay_webhook parse draws deps verified after_run
    ≡ (after_run, some (duplicate "evt_1" "payment.captured"))
handle_razorpay_webhook_twice_example =
    handle_razorpay_webhook_twice parse draws draws deps deps verified verified db after_run
      (processed "evt_1" "payment.captured") envelope envelope refl refl refl handled_run

abbrev world : World
world = record {
  lookup_fails = false;
  razorpay = λ params. some "order_2";
  local_order_id = "local";
  row_id = "o2";
  meanwhile = λ orders. orders;
  insert_fails = false;
  relookup_fails = false;
}

abbrev request : CreateOrderRequest
request = record { product_id = "ai_income_99"; customer_email = "c@d.com"; customer_phone = none }

abbrev options : CreateOrderOptions
options = record { idempotency_key = some " k2 "; razorpay_key_id = "rzp" }

create_order-Placed_example :
    Placed world request options
      (order ∷ [])
      (create_order world (some request) options (order ∷ [])).0
create_order-Placed_example = create_order-Placed world request options (order ∷ [])

abbrev info : SafeOrderPaymentInfo
info = record {
  order_id = "o2";
  razorpay_order_id = "order_2";
  razorpay_key_id = "rzp";
  amount_paise = 9900;
  currency = "INR";
  product_id = "ai_income_99";
  product_name = "AI Income Starter Kit";
  status = Store.pending;
}

abbrev second_order : PersistedOrder
second_order = record order {
  id = "o2";
  razorpay_order_id = "order_2";
  idempotency_key = some "k2";
  customer_email = "c@d.com";
}

trimmed_key : key_of options ≡ some "k2"
unfolding trim
trimmed_key = refl

order_created :
    create_order world (some request) options (order ∷ []) ≡ (order ∷ second_order ∷ [], ok info)
unfolding create_order look_up place_order persist find_by_idempotency_key resolve_product slug
    get_product trim
order_created = refl

abbrev later : World
later = record world { razorpay = λ params. none; row_id = "o3" }

-- By then the new order is paid, and another one was placed.
abbrev later_table : List PersistedOrder
later_table =
    order
    ∷ record second_order { status = Store.paid }
    ∷ record order { id = "o4"; razorpay_order_id = "order_4"; idempotency_key = none }
    ∷ []

create_order_retry_example :
    Replayed later request options later_table info "k2"
      (create_order later (some request) options later_table)
create_order_retry_example =
    create_order_retry world later request options (order ∷ []) (order ∷ second_order ∷ [])
      later_table info "k2" trimmed_key refl order_created (refl, (refl, tt))

abbrev hook_request : HookRequest
hook_request = record {
  raw_body = body_bytes;
  razorpay_signature = signed.signature_header;
  razorpay_event_id = some " evt_1 ";
  forwarded_for = some "10.0.0.1, 10.0.0.2";
  real_ip = none;
  received_at = 50;
}

abbrev hook_state : HookState
hook_state = record { database = db; rejections = [] }

post-Answered_example :
    Answered digest parse
      (λ id. id)
      "secret"
      draws
      hook_request
      hook_state
      (post digest parse (λ id. id) "secret" draws hook_request hook_state)
post-Answered_example = post-Answered digest parse (λ id. id) "secret" draws hook_request hook_state
