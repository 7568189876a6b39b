-- ===== src/Payments/Retention/Redacted.antt =====
-- packages/core-payments/src/webhookRetention.ts: what a redacted payload still holds.
use ai_client_acquisition_os.Common.{
  ◌≡◌, refl, sym, ap, subst, ◌∙◌, Bool, true, false, ◌&&◌, List, [], ◌∷◌, Option, none, some,
  String, =ˢ_iff, all, Bool-cases, inl, inr, ◌⊎◌, arith, Memᴰ,
}
use ai_client_acquisition_os.Payments.Retention.{
  Json, Fields, null, boolean, number, text, arr, obj, end, lookup, read_path, keep_value,
  keep_paths, redact_webhook_payload, redact_by, allowed, is_object,
}
use ai_client_acquisition_os.Payments.Retention.Paths.{
  apart, read_path-write_path, read_path-write_apart,
}

apart_sym : (p q : List String) → apart p q ≡ true → apart q p ≡ true
apart_sym [] q h = cc
apart_sym (x ∷ p) [] h = cc
apart_sym (x ∷ p) (y ∷ q) h = ground (arith, =ˢ_iff x y, =ˢ_iff y x, apart_sym p q)

unfoldable pub all_apart : List (List String) → Bool
all_apart [] = true
all_apart (p ∷ paths) = all (apart p) paths && all_apart paths

pub all-mem {ℓ} :
    {A : Type ℓ} (test : A → Bool) (x : A) (xs : List A)
    → all test xs ≡ true
    → Memᴰ x xs
    → test x ≡ true
all-mem test x [] h m = elim m [ ]
all-mem test x (y ∷ ys) h (Memᴰ.head e) = let k : test y ≡ true = ground arith in rw e k
all-mem test x (y ∷ ys) h (Memᴰ.tail m) = all-mem test x ys (ground arith) m

abbrev or_kept : Option Json → Option Json → Option Json
or_kept none kept = kept
or_kept (some value) kept = some value

read_path-keep_apart :
    (p q : List String) (kept : Fields) (found : Option Json)
    → apart p q ≡ true
    → read_path (obj (keep_value kept q found)) p ≡ read_path (obj kept) p
unfolding keep_value
read_path-keep_apart p q kept none h = refl
read_path-keep_apart p q kept (some value) h = read_path-write_apart p q kept value h

read_path-keep_value :
    (part : String) (parts : List String) (kept : Fields) (found : Option Json)
    → read_path (obj (keep_value kept (part ∷ parts) found)) (part ∷ parts)
      ≡ or_kept found (read_path (obj kept) (part ∷ parts))
unfolding keep_value
read_path-keep_value part parts kept none = refl
read_path-keep_value part parts kept (some value) = read_path-write_path kept part parts value

read_path-keep_paths-apart :
    (p : List String) (raw : Json) (kept : Fields) (paths : List (List String))
    → all (apart p) paths ≡ true
    → read_path (obj (keep_paths raw kept paths)) p ≡ read_path (obj kept) p
unfolding keep_paths
read_path-keep_paths-apart p raw kept [] h = refl
read_path-keep_paths-apart p raw kept (q ∷ paths) h =
    read_path-keep_paths-apart p raw (keep_value kept q (read_path raw q)) paths (ground arith)
    ∙ read_path-keep_apart p q kept (read_path raw q) (ground arith)

read_path-keep_paths :
    (part : String) (parts : List String) (raw : Json) (kept : Fields) (paths : List (List String))
    → all_apart paths ≡ true
    → Memᴰ (part ∷ parts) paths
    → read_path (obj (keep_paths raw kept paths)) (part ∷ parts)
      ≡ or_kept (read_path raw (part ∷ parts)) (read_path (obj kept) (part ∷ parts))
unfolding keep_paths all_apart
read_path-keep_paths part parts raw kept [] h m = elim m [ ]
read_path-keep_paths part parts raw kept (q ∷ paths) h (Memᴰ.head e) =
    let p = part ∷ parts in
    let free : all (apart q) paths ≡ true = ground arith in
    subst
      (λ q.
        read_path (obj (keep_paths raw (keep_value kept q (read_path raw q)) paths)) p
        ≡ or_kept (read_path raw p) (read_path (obj kept) p))
      e
      (read_path-keep_paths-apart p raw (keep_value kept p (read_path raw p)) paths (rw e free)
        ∙ read_path-keep_value part parts kept (read_path raw p))
read_path-keep_paths part parts raw kept (q ∷ paths) h (Memᴰ.tail m) =
    let p = part ∷ parts in
    let later : all_apart paths ≡ true = ground arith in
    let free : all (apart q) paths ≡ true = ground arith in
    read_path-keep_paths part parts raw (keep_value kept q (read_path raw q)) paths later m
    ∙ ap (or_kept (read_path raw p)) (
        read_path-keep_apart p q kept (read_path raw q)
          (apart_sym q p (all-mem (apart q) p paths free m)))

abbrev pub has_parts : List String → Bool
has_parts [] = false
has_parts (part ∷ parts) = true

pub allowed_apart : all_apart allowed ≡ true
unfolding all_apart allowed
allowed_apart = refl

or_kept-none : (found : Option Json) → or_kept found none ≡ found
or_kept-none none = refl
or_kept-none (some value) = refl

-- Nothing is read from a new object, nor from what is no object.
pub read_path-end :
    (part : String) (parts : List String) → read_path (obj end) (part ∷ parts) ≡ none
unfolding read_path lookup
read_path-end part parts = refl

read_path_other :
    (raw : Json) (part : String) (parts : List String)
    → is_object raw ≡ false
    → read_path raw (part ∷ parts) ≡ none
unfolding read_path
read_path_other null part parts h = refl
read_path_other (boolean b) part parts h = refl
read_path_other (number n) part parts h = refl
read_path_other (text s) part parts h = refl
read_path_other (arr items) part parts h = refl
read_path_other (obj fields) part parts h = cc

module _ (paths : List (List String)) (free : all_apart paths ≡ true) where
  pub redact_by_listed :
      (raw : Json) (part : String) (parts : List String)
      → Memᴰ (part ∷ parts) paths
      → read_path (obj (redact_by paths raw)) (part ∷ parts) ≡ read_path raw (part ∷ parts)
  unfolding redact_by
  redact_by_listed raw part parts m = elim (Bool-cases (is_object raw)) [
    | inl object ↦ rw object (
        read_path-keep_paths part parts raw end paths free m
        ∙ ap (or_kept (read_path raw (part ∷ parts))) (read_path-end part parts)
        ∙ or_kept-none (read_path raw (part ∷ parts)))
    | inr other ↦ rw other (read_path-end part parts ∙ sym (read_path_other raw part parts other))
  ]

redact_by_unlisted :
    (paths : List (List String)) (raw : Json) (part : String) (parts : List String)
    → all (apart (part ∷ parts)) paths ≡ true
    → read_path (obj (redact_by paths raw)) (part ∷ parts) ≡ none
unfolding redact_by
redact_by_unlisted paths raw part parts h = elim (Bool-cases (is_object raw)) [
  | inl object ↦
      rw object
        (read_path-keep_paths-apart (part ∷ parts) raw end paths h ∙ read_path-end part parts)
  | inr other ↦ rw other (read_path-end part parts)
]

-- What redaction leaves of a path: its value if it is on the list, nothing if it is apart from all
-- paths of the list.
abbrev pub left_at :
    (raw : Json) (p : List String) → Memᴰ p allowed ⊎ (all (apart p) allowed ≡ true) → Option Json
left_at raw p (inl listed) = read_path raw p
left_at raw p (inr unlisted) = none

-- Whatever JSON the provider sent, a path of the allowlist reads the same after the redaction, null
-- and absence included, and a path that is neither on the list nor above or below a path of it
-- reads nothing.
pub redact_webhook_payload-left :
    (raw : Json) (part : String) (parts : List String)
    (h : Memᴰ (part ∷ parts) allowed ⊎ (all (apart (part ∷ parts)) allowed ≡ true))
    → read_path (obj (redact_webhook_payload raw)) (part ∷ parts) ≡ left_at raw (part ∷ parts) h
unfolding redact_webhook_payload
redact_webhook_payload-left raw part parts (inl m) =
    redact_by_listed allowed allowed_apart raw part parts m
redact_webhook_payload-left raw part parts (inr h) = redact_by_unlisted allowed raw part parts h
