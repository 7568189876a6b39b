-- ===== src/Payments/Retention/Job.antt =====
-- packages/core-payments/src/webhookRetention.ts and redactBatch of webhookPgStore.ts: the job that
-- narrows old payloads.
use ai_client_acquisition_os.Common.{
  ℕ, zero, suc, ◌+◌, ◌*◌, min, max, Bool, true, false, not, ◌&&◌, List, [], ◌∷◌, Option, none, some,
  String, ltb, leb, if◌then◌else◌, is_some,
}
use ai_client_acquisition_os.Common.Int.{ℤ, pos, pos_part, sub_ℕ, leb_ℤ}
use ai_client_acquisition_os.Common.Sort.{sort_by}
use ai_client_acquisition_os.Payments.Retention.{
  Json, obj, default_retention_days, min_retention_days, max_retention_days, redact_webhook_payload,
}

-- `none` is an absent or infinite configuration; a finite one comes truncated.
unfoldable pub resolve_retention_days : Option ℤ → ℕ
resolve_retention_days none = default_retention_days
resolve_retention_days (some days) = min max_retention_days (max min_retention_days (pos_part days))

abbrev pub redaction_cutoff : ℕ → ℕ → ℤ
redaction_cutoff now retention_days = sub_ℕ now (retention_days * 24 * 60 * 60 * 1000)

-- The columns of `webhook_events` that the job reads and writes, with the payload as JSON.
pub record StoredPayload : Type 0 where
  pub id : String
  pub received_at : ℕ
  pub payload : Json
  pub payload_redacted_at : Option ℕ

abbrev pub is_due : ℤ → StoredPayload → Bool
is_due cutoff row = not (is_some row.payload_redacted_at) && leb_ℤ (pos row.received_at) cutoff

unfoldable pub redact_row : ℕ → StoredPayload → StoredPayload
redact_row now row = record row {
  payload = obj (redact_webhook_payload row.payload);
  payload_redacted_at = some now;
}

abbrev pub received_no_later : StoredPayload → StoredPayload → Bool
received_no_later a b = leb a.received_at b.received_at

pub record Batch : Type 0 where
  pub rows : List StoredPayload
  pub changed : ℕ

abbrev put_changed : StoredPayload → Batch → Batch
put_changed row batch = record { rows = row ∷ batch.rows; changed = suc batch.changed }

abbrev put_kept : StoredPayload → Batch → Batch
put_kept row batch = record batch { rows = row ∷ batch.rows }

-- The first `limit` rows that are due and that no other statement holds.
unfoldable pub redact_first : (StoredPayload → Bool) → ℤ → ℕ → ℕ → List StoredPayload → Batch
redact_first locked cutoff limit now [] = record { rows = []; changed = 0 }
redact_first locked cutoff zero now (row ∷ rows) = record { rows = row ∷ rows; changed = 0 }
redact_first locked cutoff (suc limit) now (row ∷ rows) =
    let hit = put_changed (redact_row now row) (redact_first locked cutoff limit now rows) in
    let miss = put_kept row (redact_first locked cutoff (suc limit) now rows) in
    if is_due cutoff row && not (locked row) then hit else miss

-- The order of the rows in a table says nothing: the statement leaves them in the order it takes them.
unfoldable pub redact_batch : (StoredPayload → Bool) → ℤ → ℕ → ℕ → List StoredPayload → Batch
unfolding redact_first sort_by
redact_batch locked cutoff limit now rows =
    redact_first locked cutoff limit now (sort_by received_no_later rows)

pub record RedactionRun : Type 0 where
  pub rows : List StoredPayload
  pub redacted : ℕ
  pub batches : ℕ
  pub incomplete : Bool

abbrev stop_run : List StoredPayload → ℕ → ℕ → Bool → RedactionRun
stop_run rows redacted batches incomplete = record {
  rows = rows;
  redacted = redacted;
  batches = batches;
  incomplete = incomplete;
}

-- The rounds that `maxBatches` leaves; `aborted n` is the signal before batch `n`.
unfoldable pub redact_rounds :
    (StoredPayload → Bool) → (ℕ → Bool) → ℤ → ℕ → ℕ → ℕ → List StoredPayload → ℕ → ℕ → RedactionRun
unfolding redact_batch
redact_rounds locked aborted cutoff size now zero rows redacted batches =
    stop_run rows redacted batches true
redact_rounds locked aborted cutoff size now (suc left) rows redacted batches =
    let batch = redact_batch locked cutoff size now rows in
    let rest =
      redact_rounds locked aborted cutoff size now left batch.rows (redacted + batch.changed)
        (batches + 1) in
    if aborted batches
    then stop_run rows redacted batches true
    else if ltb batch.changed size
    then stop_run batch.rows (redacted + batch.changed) (batches + 1) false
    else rest

-- The sizes come truncated.
pub record RedactionRunOptions : Type 0 where
  pub retention_days : Option ℤ
  pub batch_size : Option ℤ
  pub max_batches : Option ℤ

abbrev pub at_least_one : Option ℤ → ℕ → ℕ
at_least_one none default = max 1 default
at_least_one (some n) default = max 1 (pos_part n)

unfoldable pub redact_expired_payloads :
    (StoredPayload → Bool)
    → (ℕ → Bool)
    → ℕ
    → RedactionRunOptions
    → List StoredPayload
    → RedactionRun
unfolding redact_rounds resolve_retention_days
redact_expired_payloads locked aborted now options rows =
    redact_rounds locked aborted
      (redaction_cutoff now (resolve_retention_days options.retention_days))
      (at_least_one options.batch_size 500) now (at_least_one options.max_batches 200) rows 0 0
