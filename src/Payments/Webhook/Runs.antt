-- ===== src/Payments/Webhook/Runs.antt =====
-- Whole runs of `handleRazorpayWebhook`, one and two in a row.
use ai_client_acquisition_os.Common.{
  ℕ, Bool, true, false, List, Option, none, some, String, ◌≡◌, sym, ap, ◌∙◌, arith, inl, inr,
  Option-cases, if◌then◌else◌,
}
use ai_client_acquisition_os.Payments.Signature.{VerifiedWebhook, WebhookRejection}
use ai_client_acquisition_os.Payments.Store.{
  Database, Draws, Attempt, done, threw, Tx, has_event, insert_webhook_event, pure,
}
use ai_client_acquisition_os.Payments.Webhook.{
  WebhookEnvelope, act_on, WebhookOutcome, duplicate, rejected, WebhookHandlerDeps, in_transaction,
  finish, released, begin, webhook_transaction, unreadable, handle_razorpay_webhook,
}
use ai_client_acquisition_os.Payments.Webhook.Growth.{OnDone-done, Grown}
use ai_client_acquisition_os.Payments.Webhook.Effects.{Effect, in_transaction-Effect}

finish-some :
    (m : Tx WebhookOutcome) (db after : Database) (outcome : WebhookOutcome)
    → webhook_transaction m db ≡ (after, some outcome)
    → m db ≡ done outcome after
unfolding webhook_transaction finish
finish-some m db after outcome h = committed (m db) h
  where
    committed :
        (t : Attempt WebhookOutcome)
        → released (finish t (begin db)) ≡ (after, some outcome)
        → t ≡ done outcome after
    committed (done o d) h = cc h
    committed (threw e d) h = ground arith

finish-none :
    (m : Tx WebhookOutcome) (db after : Database)
    → webhook_transaction m db ≡ (after, none)
    → after ≡ db
unfolding webhook_transaction finish
finish-none m db after h = rolled_back (m db) h
  where
    rolled_back :
        (t : Attempt WebhookOutcome) → released (finish t (begin db)) ≡ (after, none) → after ≡ db
    rolled_back (done o d) h = ground arith
    rolled_back (threw e d) h = cc h

finish_at :
    (m : Tx WebhookOutcome) (db : Database) (outcome : WebhookOutcome)
    → m db ≡ done outcome db
    → webhook_transaction m db ≡ (db, some outcome)
unfolding webhook_transaction finish
finish_at m db outcome e = rw e (λ i. released (finish (done outcome db) (begin db)))

abbrev resume : (Bool → Tx WebhookOutcome) → Attempt Bool → Attempt WebhookOutcome
resume f (done b db) = f b db
resume f (threw e db) = threw e db

insert_seen :
    (draws : Draws) (event_id name : String) (payload : List ℕ) (at : ℕ) (db : Database)
    → has_event event_id db.webhook_events ≡ true
    → insert_webhook_event draws event_id name payload at db ≡ done false db
unfolding insert_webhook_event
insert_seen draws event_id name payload at db seen = ground (arith, seen)

-- An event that is recorded already is a duplicate, whatever its body says.
in_transaction_seen :
    (draws : Draws) (deps : WebhookHandlerDeps) (verified : VerifiedWebhook)
    (body : WebhookEnvelope) (db : Database)
    → has_event deps.event_id db.webhook_events ≡ true
    → in_transaction draws deps verified body db ≡ done (duplicate deps.event_id body.event) db
unfolding in_transaction
in_transaction_seen draws deps verified body db seen =
    ap
      (resume λ inserted.
        if inserted
        then act_on draws deps verified.received_at body.event body.payment
        else pure (duplicate deps.event_id body.event))
      (insert_seen draws deps.event_id body.event verified.raw_body verified.received_at db seen)

-- What a run that answers did to a readable body.
abbrev pub Ran :
    WebhookHandlerDeps → WebhookEnvelope → Database → WebhookOutcome → Database → Type 0
Ran deps body db outcome after =
    Grown db after
    × (has_event deps.event_id after.webhook_events ≡ true)
    × Effect deps body db outcome after

module _ (parse : List ℕ → Option WebhookEnvelope) (draws : Draws) (deps : WebhookHandlerDeps)
    (verified : VerifiedWebhook) (db : Database) where
  handled :
      (body : WebhookEnvelope)
      → parse verified.raw_body ≡ some body
      → handle_razorpay_webhook parse draws deps verified db
        ≡ webhook_transaction (in_transaction draws deps verified body) db
  unfolding handle_razorpay_webhook
  handled body e = rw (e, handle_razorpay_webhook)

  -- A run that answers to a readable body has recorded the event's id; it added rows to the other
  -- tables and marked orders paid, and nothing else. `processed` means that the event is of a
  -- supported kind with a payment, that the payment's order was there, and, for the product that the
  -- catalog has under the order's slug: the order is paid and has a captured payment; the payment is
  -- recorded for the order's amount and currency, or a row with its id was there before; the
  -- customer's address in lower case holds an active entitlement to the product for this order, or a
  -- row for that address and product, active or revoked, was there before; and a purchase with the
  -- payment's event id, this order, this product, the order's amount and currency is pending for
  -- Meta, or a row with that event id was there before. `duplicate` means that nothing changed and
  -- the id was there; `ignored` that only the recorded events changed.
  pub handle_razorpay_webhook-Ran :
      (after : Database) (outcome : WebhookOutcome) (body : WebhookEnvelope)
      → parse verified.raw_body ≡ some body
      → handle_razorpay_webhook parse draws deps verified db ≡ (after, some outcome)
      → Ran deps body db outcome after
  handle_razorpay_webhook-Ran after outcome body e h =
      let run = in_transaction draws deps verified body db in
      OnDone-done _ run outcome after (in_transaction-Effect draws deps verified body db) (
        finish-some (in_transaction draws deps verified body) db after outcome
          (sym (handled body e) ∙ h))

  unread :
      parse verified.raw_body ≡ none
      → handle_razorpay_webhook parse draws deps verified db
        ≡ (db, some (rejected (unreadable verified)))
  unfolding handle_razorpay_webhook
  unread e = rw (e, handle_razorpay_webhook)

  -- A run that throws leaves the whole database as it was, and so does one that answers `rejected`.
  pub handle_razorpay_webhook_rolled_back :
      (after : Database) (rejection : WebhookRejection)
      → (handle_razorpay_webhook parse draws deps verified db ≡ (after, none) → after ≡ db)
        × (handle_razorpay_webhook parse draws deps verified db ≡ (after, some (rejected rejection))
            → after ≡ db)
  handle_razorpay_webhook_rolled_back after rejection =
      elim (Option-cases (parse verified.raw_body)) [
        | inl e ↦ (λ h. cc (unread e, h), λ h. cc (unread e, h))
        | inr (body, e) ↦ (
          λ h.
              finish-none (in_transaction draws deps verified body) db after
                (sym (handled body e) ∙ h),
          λ h. absurd (handle_razorpay_webhook-Ran after (rejected rejection) body e h).2,
        )
      ]

-- After a run that answered to a readable body, a run for the same event id with a readable body,
-- whatever that body says and whatever its clock and its ids, answers `duplicate` and changes nothing.
pub handle_razorpay_webhook_twice :
    (parse : List ℕ → Option WebhookEnvelope) (draws draws' : Draws)
    (deps deps' : WebhookHandlerDeps) (verified verified' : VerifiedWebhook) (db after : Database)
    (outcome : WebhookOutcome) (body body' : WebhookEnvelope)
    → parse verified.raw_body ≡ some body
    → parse verified'.raw_body ≡ some body'
    → deps'.event_id ≡ deps.event_id
    → handle_razorpay_webhook parse draws deps verified db ≡ (after, some outcome)
    → handle_razorpay_webhook parse draws' deps' verified' after
      ≡ (after, some (duplicate deps'.event_id body'.event))
handle_razorpay_webhook_twice parse draws draws' deps deps' verified verified' db after outcome body
      body' e e' same h =
    let ran = handle_razorpay_webhook-Ran parse draws deps verified db after outcome body e h in
    let seen : has_event deps'.event_id after.webhook_events ≡ true =
      ap (λ id. has_event id after.webhook_events) same ∙ ran.1 in
    handled parse draws' deps' verified' after body' e'
    ∙ finish_at (in_transaction draws' deps' verified' body') after
        (duplicate deps'.event_id body'.event)
        (in_transaction_seen draws' deps' verified' body' after seen)
