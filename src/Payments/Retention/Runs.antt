-- ===== src/Payments/Retention/Runs.antt =====
-- packages/core-payments/src/webhookRetention.ts: what a run of the redaction job comes to.
use ai_client_acquisition_os.Common.{
  ℕ, zero, suc, ◌+◌, ◌*◌, ◌≤◌, ◌<◌, ◌≡◌, refl, ◌∙◌, Bool, false, not, ◌&&◌, List, [], ◌∷◌, ltb,
  if_both, count_by, arith, ltb→lt, Memᴰ, ap, true, some, inl, inr,
}
use ai_client_acquisition_os.Common.Int.{ℤ}
use ai_client_acquisition_os.Common.Sort.{count_by-sort_by, sort_by}
use ai_client_acquisition_os.Payments.Retention.{obj, redact_webhook_payload}
use ai_client_acquisition_os.Payments.Retention.Kept.{redact_rounds-Kept, redact_rounds-left}
use ai_client_acquisition_os.Payments.Retention.Job.{
  StoredPayload, Batch, RedactionRun, RedactionRunOptions, is_due, redact_row, redact_first,
  redact_batch, redact_rounds, redact_expired_payloads, received_no_later, resolve_retention_days,
  redaction_cutoff, at_least_one,
}

fewer_left :
    (size left changed before after : ℕ)
    → changed + after ≡ before
    → before < suc left * size
    → ltb changed size ≡ false
    → after < left * size
fewer_left size left changed before after e h full = grind (arith, e, h, full)

module _ (locked : StoredPayload → Bool) (cutoff : ℤ) where
  -- Due, and held by no other statement.
  abbrev pub is_open : StoredPayload → Bool
  is_open row = is_due cutoff row && not (locked row)

  redacted_closed : (now : ℕ) (row : StoredPayload) → is_open (redact_row now row) ≡ false
  unfolding redact_row
  redacted_closed now row = refl

  -- What a batch does to the number of open rows.
  abbrev Narrowed : ℕ → List StoredPayload → Batch → Type 0
  Narrowed limit rows batch =
      (batch.changed + count_by is_open batch.rows ≡ count_by is_open rows)
      × (batch.changed ≤ limit)
      × (batch.changed < limit → count_by is_open batch.rows ≡ 0)

  redact_first-Narrowed :
      (limit now : ℕ) (rows : List StoredPayload)
      → Narrowed limit rows (redact_first locked cutoff limit now rows)
  unfolding redact_first
  redact_first-Narrowed limit now [] = (refl, omega arith, λ h. refl)
  redact_first-Narrowed zero now (row ∷ rows) =
      (omega arith, omega arith, λ h. absurd (omega (arith, h)))
  redact_first-Narrowed (suc limit) now (row ∷ rows) =
      if_both (Narrowed (suc limit) (row ∷ rows)) (is_open row) _ _
        (λ hit.
          let (counted, few, last) = redact_first-Narrowed limit now rows in
          rw (hit, redacted_closed now row)
            (omega (arith, counted), omega (arith, few), λ h. last (omega (arith, h))))
        λ miss. rw miss (redact_first-Narrowed (suc limit) now rows)

  redact_batch-Narrowed :
      (limit now : ℕ) (rows : List StoredPayload)
      → Narrowed limit rows (redact_batch locked cutoff limit now rows)
  unfolding redact_batch
  redact_batch-Narrowed limit now rows =
      let (counted, few, last) = redact_first-Narrowed limit now (sort_by received_no_later rows) in
      (counted ∙ count_by-sort_by received_no_later is_open rows, few, last)

  -- What the rounds do, after `redacted` rows and `batches` statements.
  abbrev Drained : List StoredPayload → ℕ → ℕ → ℕ → RedactionRun → Type 0
  Drained rows redacted batches left run =
      (run.redacted + count_by is_open run.rows ≡ redacted + count_by is_open rows)
      × (run.batches ≤ batches + left)
      × (run.incomplete ≡ false → count_by is_open run.rows ≡ 0)

  redact_rounds-Drained :
      (aborted : ℕ → Bool) (size now left : ℕ) (rows : List StoredPayload) (redacted batches : ℕ)
      → Drained rows redacted batches left
          (redact_rounds locked aborted cutoff size now left rows redacted batches)
  unfolding redact_rounds
  redact_rounds-Drained aborted size now zero rows redacted batches = (refl, omega arith, λ e. cc)
  redact_rounds-Drained aborted size now (suc left) rows redacted batches =
      let batch = redact_batch locked cutoff size now rows in
      let (counted, few, last) = redact_batch-Narrowed size now rows in
      let (total, within, done) =
        redact_rounds-Drained aborted size now left batch.rows (redacted + batch.changed)
          (batches + 1) in
      if_both (Drained rows redacted batches (suc left)) (aborted batches) _ _
        (λ _. (refl, omega arith, λ e. cc))
        λ _.
          if_both (Drained rows redacted batches (suc left)) (ltb batch.changed size) _ _
            (λ short. (omega (arith, counted), omega arith, λ _. last (ltb→lt _ _ short)))
            λ _. (omega (arith, counted, total), omega (arith, within), done)

  redact_rounds_complete :
      (aborted : ℕ → Bool)
      → ((n : ℕ) → aborted n ≡ false)
      → (size now left : ℕ) (rows : List StoredPayload) (redacted batches : ℕ)
      → count_by is_open rows < left * size
      → (redact_rounds locked aborted cutoff size now left rows redacted batches).incomplete ≡ false
  unfolding redact_rounds
  redact_rounds_complete aborted steady size now zero rows redacted batches h = absurd (omega arith)
  redact_rounds_complete aborted steady size now (suc left) rows redacted batches h =
      let batch = redact_batch locked cutoff size now rows in
      let (counted, few, _) = redact_batch-Narrowed size now rows in
      if_both (λ (run : RedactionRun). run.incomplete ≡ false) (aborted batches) _ _
        (λ stop. let go = steady batches in cc)
        λ _.
          if_both (λ (run : RedactionRun). run.incomplete ≡ false) (ltb batch.changed size) _ _
            (λ _. refl)
            λ full.
              redact_rounds_complete aborted steady size now left batch.rows
                (redacted + batch.changed) (batches + 1)
                (fewer_left size left batch.changed _ _ counted h full)

-- The rows that a run may narrow: due by its cutoff, and held by no other statement.
abbrev pub open_rows : (StoredPayload → Bool) → ℕ → RedactionRunOptions → List StoredPayload → ℕ
open_rows locked now options rows =
    count_by (is_open locked (redaction_cutoff now (resolve_retention_days options.retention_days)))
      rows

-- A run always ends, after at most `maxBatches` statements (at least one is allowed). It reports as
-- redacted exactly the due rows that it took out of the due ones, however it ends; and where it says
-- that it is complete, no due row is left but those that others hold.
pub redact_expired_payloads-counted :
    (locked : StoredPayload → Bool) (aborted : ℕ → Bool) (now : ℕ) (options : RedactionRunOptions)
    (rows : List StoredPayload)
    → let run = redact_expired_payloads locked aborted now options rows in
      (run.redacted + open_rows locked now options run.rows ≡ open_rows locked now options rows)
      × (run.batches ≤ at_least_one options.max_batches 200)
      × (run.incomplete ≡ false → open_rows locked now options run.rows ≡ 0)
unfolding redact_expired_payloads
redact_expired_payloads-counted locked aborted now options rows =
    let (counted, within, done) =
      redact_rounds-Drained locked
        (redaction_cutoff now (resolve_retention_days options.retention_days)) aborted
        (at_least_one options.batch_size 500) now (at_least_one options.max_batches 200) rows 0 0 in
    (omega (arith, counted), omega (arith, within), done)

finished :
    (locked : StoredPayload → Bool) (aborted : ℕ → Bool) (now : ℕ) (options : RedactionRunOptions)
    (rows : List StoredPayload)
    → ((n : ℕ) → aborted n ≡ false)
    → open_rows locked now options rows
      < at_least_one options.max_batches 200 * at_least_one options.batch_size 500
    → (redact_expired_payloads locked aborted now options rows).incomplete ≡ false
unfolding redact_expired_payloads
finished locked aborted now options rows steady few =
    redact_rounds_complete locked
      (redaction_cutoff now (resolve_retention_days options.retention_days)) aborted steady
      (at_least_one options.batch_size 500) now (at_least_one options.max_batches 200) rows 0 0 few

count-mem :
    (test : StoredPayload → Bool) (row : StoredPayload) (rows : List StoredPayload)
    → Memᴰ row rows
    → count_by test rows ≡ 0
    → test row ≡ false
count-mem test row [] m h = elim m [ ]
count-mem test row (other ∷ rows) (Memᴰ.head e) h = ap test e ∙ ground arith
count-mem test row (other ∷ rows) (Memᴰ.tail m) h = count-mem test row rows m (ground arith)

-- The rows that a run may narrow are those of its cutoff that no other statement holds.
abbrev pub is_open_for : (StoredPayload → Bool) → ℕ → RedactionRunOptions → StoredPayload → Bool
is_open_for locked now options =
    is_open locked (redaction_cutoff now (resolve_retention_days options.retention_days))

redacted_row :
    (locked : StoredPayload → Bool) (aborted : ℕ → Bool) (now : ℕ) (options : RedactionRunOptions)
    (rows : List StoredPayload) (row : StoredPayload)
    → Memᴰ row rows
    → is_open_for locked now options row ≡ true
    → let run = redact_expired_payloads locked aborted now options rows in
      open_rows locked now options run.rows ≡ 0 → Memᴰ (redact_row now row) run.rows
unfolding redact_expired_payloads
redacted_row locked aborted now options rows row m h none_left =
    let cutoff = redaction_cutoff now (resolve_retention_days options.retention_days) in
    elim (redact_rounds-Kept locked cutoff now aborted (at_least_one options.batch_size 500)
      (at_least_one options.max_batches 200) row rows m) [
        | inr done ↦ done
        | inl still ↦
            let closed = count-mem (is_open locked cutoff) row _ still none_left in
            absurd (ground (arith, h, closed))
      ]

left_row :
    (locked : StoredPayload → Bool) (aborted : ℕ → Bool) (now : ℕ) (options : RedactionRunOptions)
    (rows : List StoredPayload) (row : StoredPayload)
    → Memᴰ row rows
    → is_open_for locked now options row ≡ false
    → Memᴰ row (redact_expired_payloads locked aborted now options rows).rows
unfolding redact_expired_payloads
left_row locked aborted now options rows row m h =
    redact_rounds-left locked (redaction_cutoff now (resolve_retention_days options.retention_days))
      now aborted (at_least_one options.batch_size 500) (at_least_one options.max_batches 200) row
      rows h m

-- A run that nobody aborts redacts every due row that no other statement holds, and says so, if
-- there are fewer of them than `maxBatches` statements of `batchSize` rows take: each such row is in
-- the table with its payload redacted and the run's time as the stamp, its id and its time of receipt
-- as before; every other row is in the table as it was; and the number reported is that of the rows
-- that were due.
pub redact_expired_payloads_complete :
    (locked : StoredPayload → Bool) (aborted : ℕ → Bool) (now : ℕ) (options : RedactionRunOptions)
    (rows : List StoredPayload)
    → ((n : ℕ) → aborted n ≡ false)
    → open_rows locked now options rows
      < at_least_one options.max_batches 200 * at_least_one options.batch_size 500
    → let run = redact_expired_payloads locked aborted now options rows in
      (run.incomplete ≡ false)
      × (open_rows locked now options run.rows ≡ 0)
      × (run.redacted ≡ open_rows locked now options rows)
      × ((row : StoredPayload)
          → Memᴰ row rows
          → is_open_for locked now options row ≡ true
          → Memᴰ
              (record {
                id = row.id;
                received_at = row.received_at;
                payload = obj (redact_webhook_payload row.payload);
                payload_redacted_at = some now;
              })
              run.rows)
      × ((row : StoredPayload)
          → Memᴰ row rows
          → is_open_for locked now options row ≡ false
          → Memᴰ row run.rows)
unfolding redact_row
redact_expired_payloads_complete locked aborted now options rows steady few =
    let (counted, within, done) = redact_expired_payloads-counted locked aborted now options rows in
    let complete = finished locked aborted now options rows steady few in
    (
      complete,
      done complete,
      omega (arith, counted, done complete),
      λ row m h. redacted_row locked aborted now options rows row m h (done complete),
      λ row m h. left_row locked aborted now options rows row m h,
    )
