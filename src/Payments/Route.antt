-- ===== src/Payments/Route.antt =====
-- apps/web/app/api/webhooks/razorpay/route.ts, and recordWebhookRejection of webhookPgStore.ts.
pub mod Answers
use ai_client_acquisition_os.Common.{
  ℕ, Bool, true, false, not, ◌&&◌, List, [], ◌∷◌, ◌++◌, Option, none, some, String, leb, ltb, ◌==◌,
  length, if◌then◌else◌, or_else,
}
use ai_client_acquisition_os.Common.Text.{trim, is_blank, utf16_length}
use ai_client_acquisition_os.Payments.Signature.{
  VerifiedWebhook, WebhookRejection, malformed_signature, VerifyWebhookInput, WebhookVerification,
  ok, config_error, verify_razorpay_webhook,
}
use ai_client_acquisition_os.Payments.Signature as Signature
use ai_client_acquisition_os.Payments.Store.{Database, Draws}
use ai_client_acquisition_os.Payments.Webhook.{
  WebhookEnvelope, WebhookOutcome, processed, duplicate, ignored, Handled, WebhookHandlerDeps,
  handle_razorpay_webhook,
}
use ai_client_acquisition_os.Payments.Webhook as Webhook
use Prim.Native.Char.{code}
use Prim.Native.String as Str

-- The headers that the route reads; an absent one is `none`.
pub record HookRequest : Type 0 where
  pub raw_body : List ℕ
  pub razorpay_signature : Option String
  pub razorpay_event_id : Option String
  pub forwarded_for : Option String
  pub real_ip : Option String
  pub received_at : ℕ

-- The tables of the money path and `webhook_rejections`.
pub record HookState : Type 0 where
  pub database : Database
  pub rejections : List WebhookRejection

-- `uncaught` is an error that leaves the route, which the framework answers.
pub data Reply : Type 0 where
  reply : ℕ → String → Reply
  uncaught : Reply

-- `text.split(',')[0]`.
unfoldable pub before_comma : String → String
before_comma Str.[] = Str.[]
before_comma (Str.◌∷◌ c s) =
    let rest = Str.◌∷◌ c (before_comma s) in if code c == 44 then Str.[] else rest

-- A text of 1 to 45 code units.
abbrev pub is_address : String → Bool
unfolding utf16_length
is_address s = ltb 0 (utf16_length s) && leb (utf16_length s) 45

abbrev address_or : Option String → Option String → Option String
address_or none other = other
address_or (some s) other = if is_address s then some s else other

unfoldable pub trimmed : Option String → Option String
unfolding trim
trimmed none = none
trimmed (some s) = some (trim s)

unfoldable pub first_forwarded : Option String → Option String
unfolding before_comma trim
first_forwarded none = none
first_forwarded (some s) = some (trim (before_comma s))

unfoldable pub source_ip_of : HookRequest → Option String
unfolding first_forwarded trimmed is_address
source_ip_of request =
    address_or (first_forwarded request.forwarded_for) (address_or (trimmed request.real_ip) none)

abbrev pub record_webhook_rejection : WebhookRejection → HookState → HookState
record_webhook_rejection rejection state = record state {
  rejections = rejection ∷ state.rejections;
}

abbrev pub missing_event_id : HookRequest → VerifiedWebhook → Option String → WebhookRejection
missing_event_id request verified source_ip = record {
  reason = malformed_signature;
  received_at = verified.received_at;
  body_bytes = length request.raw_body;
  signature_present = true;
  signature_well_formed = true;
  source_ip = source_ip;
}

-- The answer to what the handler did; `none` is its throw.
unfoldable pub answer_outcome : HookState → Handled → HookState × Reply
answer_outcome state (after, none) = (record state { database = after }, reply 500 "Internal error")
answer_outcome state (after, some (Webhook.rejected rejection)) = (
  record_webhook_rejection rejection (record state { database = after }),
  reply 400 "Unprocessable payload",
)
answer_outcome state (after, some (processed id event)) =
    (record state { database = after }, reply 200 "processed")
answer_outcome state (after, some (duplicate id event)) =
    (record state { database = after }, reply 200 "duplicate")
answer_outcome state (after, some (ignored id event)) =
    (record state { database = after }, reply 200 "ignored")

-- `digest` is the HMAC, `parse` JSON with the schema, `build_meta_event_id` that of the Meta client.
module _ (digest : String → List ℕ → List ℕ) (parse : List ℕ → Option WebhookEnvelope)
    (build_meta_event_id : String → String) where
  abbrev pub deps_for : String → WebhookHandlerDeps
  deps_for event_id = record { build_meta_event_id = build_meta_event_id; event_id = event_id }

  unfoldable pub with_event_id :
      Draws → HookRequest → VerifiedWebhook → HookState → Option String → HookState × Reply
  unfolding answer_outcome handle_razorpay_webhook source_ip_of
  with_event_id draws request verified state event_id =
      if is_blank (or_else event_id "")
      then (
        record_webhook_rejection (missing_event_id request verified (source_ip_of request)) state,
        reply 400 "Missing event id",
      )
      else answer_outcome state (
          handle_razorpay_webhook parse draws (deps_for (or_else event_id "")) verified
            state.database)

  unfoldable pub after_verification :
      Draws → HookRequest → HookState → WebhookVerification → HookState × Reply
  unfolding with_event_id trimmed
  after_verification draws request state config_error = (state, uncaught)
  after_verification draws request state (Signature.rejected rejection) =
      (record_webhook_rejection rejection state, reply 401 "Invalid signature")
  after_verification draws request state (ok verified) =
      with_event_id draws request verified state (trimmed request.razorpay_event_id)

  abbrev pub input_of : String → HookRequest → VerifyWebhookInput
  unfolding source_ip_of
  input_of secret request = record {
    raw_body = request.raw_body;
    signature_header = request.razorpay_signature;
    webhook_secret = secret;
    received_at = request.received_at;
    source_ip = source_ip_of request;
  }

  unfoldable pub post : String → Draws → HookRequest → HookState → HookState × Reply
  unfolding after_verification verify_razorpay_webhook input_of
  post secret draws request state =
      after_verification draws request state
        (verify_razorpay_webhook digest (input_of secret request))
