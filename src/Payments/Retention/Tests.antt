-- ===== src/Payments/Retention/Tests.antt =====
-- Payloads and tables of payloads, and the theorems on redaction at these inputs.
use ai_client_acquisition_os.Common.{
  ℕ, ◌≡◌, refl, true, false, List, [], ◌∷◌, none, some, String, ◌≤◌, ◌<◌, ◌+◌, ◌*◌, all, inr, arith,
  Memᴰ,
}
use ai_client_acquisition_os.Common.Int.{pos}
use ai_client_acquisition_os.Payments.Retention.{
  Json, Fields, text, number, null, obj, end, field, read_path, allowed, redact_webhook_payload,
}
use ai_client_acquisition_os.Payments.Retention.Job.{
  StoredPayload, RedactionRun, RedactionRunOptions, redact_expired_payloads, resolve_retention_days,
  at_least_one,
}
use ai_client_acquisition_os.Payments.Retention.Paths.{apart}
use ai_client_acquisition_os.Payments.Retention.Redacted.{redact_webhook_payload-left}
use ai_client_acquisition_os.Payments.Retention.Twice.{redact_webhook_payload_twice}
use ai_client_acquisition_os.Payments.Retention.Runs.{
  open_rows, is_open_for, redact_expired_payloads-counted, redact_expired_payloads_complete,
}

abbrev entity : Fields
entity =
    field "id" (text "pay_1") (
      field "email" (text "a@b.com") (field "invoice_id" null (field "amount" (number "9900") end)))

abbrev raw : Json
raw = obj (
    field "event" (text "payment.captured")
      (field "payload" (obj (field "payment" (obj (field "entity" (obj entity) end)) end)) end))

abbrev email_path : List String
email_path = "payload" ∷ "payment" ∷ "entity" ∷ "email" ∷ []

unlisted : all (apart email_path) allowed ≡ true
unfolding allowed
unlisted = refl

-- The address of the payer is gone.
redact_webhook_payload-left_example : read_path (obj (redact_webhook_payload raw)) email_path ≡ none
redact_webhook_payload-left_example =
    redact_webhook_payload-left raw "payload" ("payment" ∷ "entity" ∷ "email" ∷ []) (inr unlisted)

redact_webhook_payload_twice_example :
    redact_webhook_payload (obj (redact_webhook_payload raw)) ≡ redact_webhook_payload raw
redact_webhook_payload_twice_example = redact_webhook_payload_twice raw

-- One row that is due, one more that is due, one narrowed before, one too young.
abbrev row : String → ℕ → StoredPayload
row id received_at = record {
  id = id;
  received_at = received_at;
  payload = raw;
  payload_redacted_at = none;
}

abbrev table : List StoredPayload
table =
    row "w1" 20
    ∷ row "w2" 10
    ∷ record (row "w3" 10) { payload_redacted_at = some 15 }
    ∷ row "w4" 20000000000
    ∷ []

abbrev options : RedactionRunOptions
options = record { retention_days = some (pos 180); batch_size = some (pos 1); max_batches = none }

abbrev now : ℕ
now = 20000000000

abbrev run : RedactionRun
run = redact_expired_payloads (λ row. false) (λ n. false) now options table

redact_expired_payloads-counted_example :
    (run.redacted + open_rows (λ row. false) now options run.rows
      ≡ open_rows (λ row. false) now options table)
    × (run.batches ≤ at_least_one options.max_batches 200)
    × (run.incomplete ≡ false → open_rows (λ row. false) now options run.rows ≡ 0)
redact_expired_payloads-counted_example =
    redact_expired_payloads-counted (λ row. false) (λ n. false) now options table

two_open : open_rows (λ row. false) now options table ≡ 2
unfolding resolve_retention_days
two_open = refl

few_open :
    open_rows (λ row. false) now options table
    < at_least_one options.max_batches 200 * at_least_one options.batch_size 500
few_open = rw two_open (omega arith)

redact_expired_payloads_complete_example :
    (run.incomplete ≡ false)
    × (open_rows (λ row. false) now options run.rows ≡ 0)
    × (run.redacted ≡ open_rows (λ row. false) now options table)
    × ((r : StoredPayload)
        → Memᴰ r table
        → is_open_for (λ row. false) now options r ≡ true
        → Memᴰ
            (record {
              id = r.id;
              received_at = r.received_at;
              payload = obj (redact_webhook_payload r.payload);
              payload_redacted_at = some now;
            })
            run.rows)
    × ((r : StoredPayload)
        → Memᴰ r table
        → is_open_for (λ row. false) now options r ≡ false
        → Memᴰ r run.rows)
redact_expired_payloads_complete_example =
    redact_expired_payloads_complete (λ row. false) (λ n. false) now options table (λ n. refl)
      few_open
