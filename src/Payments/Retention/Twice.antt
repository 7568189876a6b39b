-- ===== src/Payments/Retention/Twice.antt =====
-- packages/core-payments/src/webhookRetention.ts: redaction of what was redacted before.
use ai_client_acquisition_os.Common.{
  ◌≡◌, refl, sym, ap, ◌∙◌, true, false, List, [], ◌∷◌, none, String, all, Bool-cases, inl, inr,
  arith, Memᴰ,
}
use ai_client_acquisition_os.Payments.Retention.{
  Json, Fields, obj, end, read_path, keep_value, keep_paths, redact_webhook_payload, redact_by,
  allowed, is_object,
}
use ai_client_acquisition_os.Payments.Retention.Redacted.{
  all_apart, all-mem, has_parts, allowed_apart, read_path-end, redact_by_listed,
}

-- The result depends on the values at the paths alone.
keep_paths-cong :
    (raw raw' : Json) (kept : Fields) (paths : List (List String))
    → ((p : List String) → Memᴰ p paths → read_path raw p ≡ read_path raw' p)
    → keep_paths raw kept paths ≡ keep_paths raw' kept paths
unfolding keep_paths
keep_paths-cong raw raw' kept [] h = refl
keep_paths-cong raw raw' kept (q ∷ paths) h = rw (h q (Memᴰ.head refl)) (
    keep_paths-cong raw raw' (keep_value kept q (read_path raw' q)) paths
      (λ p m. h p (Memᴰ.tail m)))

kept_none :
    (raw : Json) (paths : List (List String))
    → all has_parts paths ≡ true
    → ((p : List String) → Memᴰ p paths → has_parts p ≡ true → read_path raw p ≡ none)
    → keep_paths raw end paths ≡ end
unfolding keep_paths
kept_none raw [] h none_at = refl
kept_none raw (q ∷ qs) h none_at =
    rw (none_at q (Memᴰ.head refl) (ground arith))
      (kept_none raw qs (ground arith) (λ p m. none_at p (Memᴰ.tail m)))

redact_by_other :
    (paths : List (List String)) (raw : Json) → is_object raw ≡ false → redact_by paths raw ≡ end
unfolding redact_by
redact_by_other paths raw other = rw other refl

read_path_new : (p : List String) → has_parts p ≡ true → read_path (obj end) p ≡ none
read_path_new [] h = cc
read_path_new (part ∷ parts) h = read_path-end part parts

module _ (paths : List (List String)) (free : all_apart paths ≡ true)
    (parted : all has_parts paths ≡ true) where
  redacted_reads :
      (raw : Json) (p : List String)
      → Memᴰ p paths
      → read_path (obj (redact_by paths raw)) p ≡ read_path raw p
  redacted_reads raw [] m = let h = all-mem has_parts [] paths parted m in cc
  redacted_reads raw (part ∷ parts) m = redact_by_listed paths free raw part parts m

  redact_by_object :
      (raw : Json) → is_object raw ≡ true → redact_by paths raw ≡ keep_paths raw end paths
  unfolding redact_by
  redact_by_object raw h = rw h refl

  redact_by_twice : (raw : Json) → redact_by paths (obj (redact_by paths raw)) ≡ redact_by paths raw
  redact_by_twice raw = elim (Bool-cases (is_object raw)) [
    | inl object ↦
        redact_by_object (obj (redact_by paths raw)) refl
        ∙ keep_paths-cong (obj (redact_by paths raw)) raw end paths (redacted_reads raw)
        ∙ sym (redact_by_object raw object)
    | inr other ↦
        let e : redact_by paths raw ≡ end = redact_by_other paths raw other in
        ap (λ fields. redact_by paths (obj fields)) e
        ∙ redact_by_object (obj end) refl
        ∙ kept_none (obj end) paths parted (λ p m h. read_path_new p h)
        ∙ sym e
  ]

allowed_parted : all has_parts allowed ≡ true
unfolding allowed
allowed_parted = refl

-- Redacting a redacted payload changes nothing.
pub redact_webhook_payload_twice :
    (raw : Json)
    → redact_webhook_payload (obj (redact_webhook_payload raw)) ≡ redact_webhook_payload raw
unfolding redact_webhook_payload
redact_webhook_payload_twice raw = redact_by_twice allowed allowed_apart allowed_parted raw
