-- ===== src/Payments/Route/Answers.antt =====
-- apps/web/app/api/webhooks/razorpay/route.ts: what an answer tells of the database.
use ai_client_acquisition_os.Common.{
  ℕ, Bool, true, false, List, ◌∷◌, Option, none, some, String, ◌≡◌, refl, sym, subst, inl, inr, ◌⊎◌,
  ◌==◌, if_both, or_else,
}
use ai_client_acquisition_os.Common.Text.{is_blank}
use ai_client_acquisition_os.Payments.Signature.{
  VerifiedWebhook, WebhookRejection, WebhookVerification, VerifyWebhookInput, ok, config_error,
  verify_razorpay_webhook, verify_razorpay_webhook_iff, hex_bytes, header_of,
}
use ai_client_acquisition_os.Payments.Signature as Signature
use ai_client_acquisition_os.Payments.Store.{Database, Draws}
use ai_client_acquisition_os.Payments.Webhook.{
  WebhookEnvelope, WebhookOutcome, processed, duplicate, ignored, Handled, handle_razorpay_webhook,
}
use ai_client_acquisition_os.Payments.Webhook as Webhook
use ai_client_acquisition_os.Payments.Webhook.Runs.{handle_razorpay_webhook_rolled_back}
use ai_client_acquisition_os.Payments.Route.{
  HookRequest, HookState, Reply, reply, uncaught, answer_outcome, deps_for, with_event_id,
  after_verification, post, input_of, source_ip_of, missing_event_id, trimmed,
}

abbrev pub is_success : Reply → Bool
is_success uncaught = false
is_success (reply status text) = status == 200

-- A refusal leaves the money path alone and adds one row of metadata at most.
abbrev pub Refused : HookState → HookState × Reply → Type 0
Refused state (after, r) =
    (is_success r ≡ false)
    × (after.database ≡ state.database)
    × ((after.rejections ≡ state.rejections)
        ⊎ ((rejection : WebhookRejection) × (after.rejections ≡ rejection ∷ state.rejections)))

module _ (digest : String → List ℕ → List ℕ) (parse : List ℕ → Option WebhookEnvelope)
    (build_meta_event_id : String → String) (secret : String) (draws : Draws)
    (request : HookRequest) (state : HookState) where
  abbrev pub signed_body : VerifiedWebhook
  signed_body = record { raw_body = request.raw_body; received_at = request.received_at }

  -- The handler ran on the very body that was signed, under the id of the header, and answered.
  abbrev pub Accepted : HookState × Reply → Type 0
  Accepted (after, r) =
      (event_id : String) × (outcome : WebhookOutcome) × (is_success r ≡ true)
      × (after.rejections ≡ state.rejections)
      × (is_blank event_id ≡ false)
      × (trimmed request.razorpay_event_id ≡ some event_id)
      × (digest secret request.raw_body ≡ hex_bytes (or_else request.razorpay_signature ""))
      × (handle_razorpay_webhook parse draws (deps_for digest parse build_meta_event_id event_id)
            signed_body state.database
          ≡ (after.database, some outcome))

  unfoldable pub Answered : HookState × Reply → Type 0
  Answered result = Refused state result ⊎ Accepted result

  -- The handler's run for an id, and its outcome.
  module _ (event_id : String) (named : is_blank event_id ≡ false)
      (there : trimmed request.razorpay_event_id ≡ some event_id)
      (signed : digest secret request.raw_body
        ≡ hex_bytes (or_else request.razorpay_signature "")) where
    rolled_back :
        (after : Database) (rejection : WebhookRejection)
        → (handle_razorpay_webhook parse draws
                (deps_for digest parse build_meta_event_id event_id)
                signed_body
                state.database
              ≡ (after, none)
            → after ≡ state.database)
          × (handle_razorpay_webhook parse draws
                  (deps_for digest parse build_meta_event_id event_id)
                  signed_body
                  state.database
                ≡ (after, some (Webhook.rejected rejection))
              → after ≡ state.database)
    rolled_back =
        handle_razorpay_webhook_rolled_back parse draws
          (deps_for digest parse build_meta_event_id event_id) signed_body state.database

    answer_outcome-Answered :
        (handled : Handled)
        → handle_razorpay_webhook parse draws
            (deps_for digest parse build_meta_event_id event_id)
            signed_body
            state.database
          ≡ handled
        → Answered (answer_outcome state handled)
    unfolding answer_outcome Answered
    answer_outcome-Answered (after, none) e =
        inl (refl, (rolled_back after (missing_event_id request signed_body none)).0 e, inl refl)
    answer_outcome-Answered (after, some (Webhook.rejected rejection)) e =
        inl (refl, (rolled_back after rejection).1 e, inr (rejection, refl))
    answer_outcome-Answered (after, some (processed id event)) e =
        inr (event_id, processed id event, refl, refl, named, there, signed, e)
    answer_outcome-Answered (after, some (duplicate id event)) e =
        inr (event_id, duplicate id event, refl, refl, named, there, signed, e)
    answer_outcome-Answered (after, some (ignored id event)) e =
        inr (event_id, ignored id event, refl, refl, named, there, signed, e)

  with_event_id-Answered :
      (header : Option String)
      → trimmed request.razorpay_event_id ≡ header
      → digest secret request.raw_body ≡ hex_bytes (or_else request.razorpay_signature "")
      → Answered
          (with_event_id digest parse build_meta_event_id draws request signed_body state header)
  unfolding with_event_id Answered
  with_event_id-Answered none there signed = inl (refl, refl, inr (_, refl))
  with_event_id-Answered (some id) there signed =
      if_both Answered (is_blank id)
        (
          record state {
            rejections =
                missing_event_id request signed_body (source_ip_of request) ∷ state.rejections;
          },
          reply 400 "Missing event id",
        )
        (answer_outcome state (
          handle_razorpay_webhook parse draws (deps_for digest parse build_meta_event_id id)
            signed_body state.database))
        (λ _. inl (refl, refl, inr (_, refl)))
        λ named. answer_outcome-Answered id named there signed _ refl

  after_verification-Answered :
      (verification : WebhookVerification)
      → verify_razorpay_webhook digest (input_of digest parse build_meta_event_id secret request)
        ≡ verification
      → Answered
          (after_verification digest parse build_meta_event_id draws request state verification)
  unfolding after_verification Answered
  after_verification-Answered config_error e = inl (refl, refl, inl refl)
  after_verification-Answered (Signature.rejected rejection) e =
      inl (refl, refl, inr (rejection, refl))
  after_verification-Answered (ok verified) e =
      let (_, _, _, _, signed, same) =
        (verify_razorpay_webhook_iff digest
            (input_of digest parse build_meta_event_id secret request) verified).0
          e in
      subst
        (λ v. Answered (
          with_event_id digest parse build_meta_event_id draws request v state
            (trimmed request.razorpay_event_id)))
        (sym same) (with_event_id-Answered (trimmed request.razorpay_event_id) refl signed)

  -- An answer of 200 means that the body carried the signature of the secret and the header an event
  -- id, and the database is as the handler's run of that very body under that id left it; every
  -- other answer, and an error that leaves the route, leaves the money path unchanged and
  -- adds one row of metadata at most.
  pub post-Answered : Answered (post digest parse build_meta_event_id secret draws request state)
  unfolding post
  post-Answered =
      after_verification-Answered
        (verify_razorpay_webhook digest (input_of digest parse build_meta_event_id secret request))
        refl
