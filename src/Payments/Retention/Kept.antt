-- ===== src/Payments/Retention/Kept.antt =====
-- packages/core-payments/src/webhookRetention.ts: what becomes of a row of the table in a run.
use ai_client_acquisition_os.Common.{
  ℕ, zero, suc, ◌+◌, ◌≡◌, refl, ap, ◌⊎◌, inl, inr, Bool, true, false, not, ◌&&◌, List, [], ◌∷◌, ltb,
  if_both, Memᴰ, arith, ◌∙◌,
}
use ai_client_acquisition_os.Common.Int.{ℤ}
use ai_client_acquisition_os.Common.Sort.{sort_by, sort_by-mem}
use ai_client_acquisition_os.Payments.Retention.Job.{
  StoredPayload, Batch, RedactionRun, is_due, redact_row, redact_first, redact_batch, redact_rounds,
  received_no_later,
}

module _ (locked : StoredPayload → Bool) (cutoff : ℤ) (now : ℕ) where
  abbrev is_free : StoredPayload → Bool
  is_free row = is_due cutoff row && not (locked row)

  -- The row stands as it was, or redacted.
  abbrev pub Kept : StoredPayload → List StoredPayload → Type 0
  Kept row rows = Memᴰ row rows ⊎ Memᴰ (redact_row now row) rows

  Kept-∷ :
      (row other : StoredPayload) (rows : List StoredPayload)
      → Kept row rows
      → Kept row (other ∷ rows)
  Kept-∷ row other rows (inl m) = inl (Memᴰ.tail m)
  Kept-∷ row other rows (inr m) = inr (Memᴰ.tail m)

  redact_first-Kept :
      (limit : ℕ) (row : StoredPayload) (rows : List StoredPayload)
      → Memᴰ row rows
      → Kept row (redact_first locked cutoff limit now rows).rows
  unfolding redact_first
  redact_first-Kept limit row [] m = elim m [ ]
  redact_first-Kept zero row (other ∷ rows) m = inl m
  redact_first-Kept (suc limit) row (other ∷ rows) (Memᴰ.head e) =
      if_both (λ (b : Batch). Kept row b.rows) (is_free other) _ _
        (λ _. inr (Memᴰ.head (ap (redact_row now) e))) λ _. inl (Memᴰ.head e)
  redact_first-Kept (suc limit) row (other ∷ rows) (Memᴰ.tail m) =
      if_both (λ (b : Batch). Kept row b.rows) (is_free other) _ _
        (λ _. Kept-∷ row (redact_row now other) _ (redact_first-Kept limit row rows m))
        λ _. Kept-∷ row other _ (redact_first-Kept (suc limit) row rows m)

  -- A row that is not due, or that others hold, is left alone.
  redact_first-left :
      (limit : ℕ) (row : StoredPayload) (rows : List StoredPayload)
      → is_free row ≡ false
      → Memᴰ row rows
      → Memᴰ row (redact_first locked cutoff limit now rows).rows
  unfolding redact_first
  redact_first-left limit row [] h m = elim m [ ]
  redact_first-left zero row (other ∷ rows) h m = m
  redact_first-left (suc limit) row (other ∷ rows) h (Memᴰ.head e) =
      if_both (λ (b : Batch). Memᴰ row b.rows) (is_free other) _ _
        (λ hit.
          absurd (let same : is_free row ≡ true = ap is_free e ∙ hit in ground (arith, h, same)))
        λ _. Memᴰ.head e
  redact_first-left (suc limit) row (other ∷ rows) h (Memᴰ.tail m) =
      if_both (λ (b : Batch). Memᴰ row b.rows) (is_free other) _ _
        (λ _. Memᴰ.tail (redact_first-left limit row rows h m))
        λ _. Memᴰ.tail (redact_first-left (suc limit) row rows h m)

  redact_batch-left :
      (limit : ℕ) (row : StoredPayload) (rows : List StoredPayload)
      → is_free row ≡ false
      → Memᴰ row rows
      → Memᴰ row (redact_batch locked cutoff limit now rows).rows
  unfolding redact_batch
  redact_batch-left limit row rows h m =
      redact_first-left limit row (sort_by received_no_later rows) h
        (sort_by-mem received_no_later row rows m)

  redacted_left : (row : StoredPayload) → is_free (redact_row now row) ≡ false
  unfolding redact_row
  redacted_left row = refl

  redact_batch-Kept :
      (limit : ℕ) (row : StoredPayload) (rows : List StoredPayload)
      → Kept row rows
      → Kept row (redact_batch locked cutoff limit now rows).rows
  unfolding redact_batch
  redact_batch-Kept limit row rows (inl m) =
      redact_first-Kept limit row (sort_by received_no_later rows)
        (sort_by-mem received_no_later row rows m)
  redact_batch-Kept limit row rows (inr m) =
      inr (redact_batch-left limit (redact_row now row) rows (redacted_left row) m)

  -- What every statement keeps, the run keeps.
  module _ (P : List StoredPayload → Type 0)
      (keeps : (limit : ℕ) (rows : List StoredPayload)
        → P rows
        → P (redact_batch locked cutoff limit now rows).rows)
      (aborted : ℕ → Bool) (size : ℕ) where
    pub redact_rounds-keeps :
        (left : ℕ) (rows : List StoredPayload) (redacted batches : ℕ)
        → P rows
        → P (redact_rounds locked aborted cutoff size now left rows redacted batches).rows
    unfolding redact_rounds
    redact_rounds-keeps zero rows redacted batches h = h
    redact_rounds-keeps (suc left) rows redacted batches h =
        let batch = redact_batch locked cutoff size now rows in
        if_both (λ (run : RedactionRun). P run.rows) (aborted batches) _ _ (λ _. h)
          λ _.
            if_both (λ (run : RedactionRun). P run.rows) (ltb batch.changed size) _ _
              (λ _. keeps size rows h)
              λ _.
                redact_rounds-keeps left batch.rows (redacted + batch.changed) (batches + 1)
                  (keeps size rows h)

  pub redact_rounds-Kept :
      (aborted : ℕ → Bool) (size left : ℕ) (row : StoredPayload) (rows : List StoredPayload)
      → Memᴰ row rows
      → Kept row (redact_rounds locked aborted cutoff size now left rows 0 0).rows
  redact_rounds-Kept aborted size left row rows m =
      redact_rounds-keeps (Kept row) (λ limit between h. redact_batch-Kept limit row between h)
        aborted size left rows 0 0 (inl m)

  pub redact_rounds-left :
      (aborted : ℕ → Bool) (size left : ℕ) (row : StoredPayload) (rows : List StoredPayload)
      → is_free row ≡ false
      → Memᴰ row rows
      → Memᴰ row (redact_rounds locked aborted cutoff size now left rows 0 0).rows
  redact_rounds-left aborted size left row rows h m =
      redact_rounds-keeps (Memᴰ row) (λ limit between k. redact_batch-left limit row between h k)
        aborted size left rows 0 0 m
