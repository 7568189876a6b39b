-- ===== src/Entitlements/Grant/Proofs.antt =====
-- What a signed link proves: what `create_download_grant` made, and only that, is accepted, in time.
use ai_client_acquisition_os.Common.{
  ℕ, ◌+◌, Bool, true, false, Option, none, some, String, ◌≡◌, refl, sym, ap, subst, ◌∙◌, arith,
  ◌=ˢ◌, =ˢ_iff, leb, if◌then◌else◌, inl, inr, Option-cases, Bool-cases,
}
use ai_client_acquisition_os.Common.Int.{pos, ◌<ℤ◌, leb_ℤ}
use ai_client_acquisition_os.Common.Text.{is_blank}
use ai_client_acquisition_os.Entitlements.Repository.{normalise_email}
use ai_client_acquisition_os.Entitlements.Grant.{
  DownloadGrantClaims, GrantRequest, valid, invalid, expired, is_dot, split_at_last_dot, claims_of,
  seal, check_claims, check_parts, create_download_grant, verify_download_grant,
  download_grant_ttl_ms,
}
use Prim.Native.Char.{Char}
use Prim.Native.String as Str
use Prim.Native.String.append

abbrev pub contains_dot : String → Bool
contains_dot Str.[] = false
contains_dot (Str.◌∷◌ c s) = if is_dot c then true else contains_dot s

split_cons-some :
    (c : Char) (s : String) (parts : String × String)
    → split_at_last_dot s ≡ some parts
    → split_at_last_dot (Str.◌∷◌ c s) ≡ some (Str.◌∷◌ c parts.0, parts.1)
unfolding split_at_last_dot
split_cons-some c s parts e = rw e

split_cons-none :
    (c : Char) (s : String)
    → split_at_last_dot s ≡ none
    → split_at_last_dot (Str.◌∷◌ c s) ≡ (if is_dot c then some ("", s) else none)
unfolding split_at_last_dot
split_cons-none c s e = rw e

split-no_dot : (s : String) → contains_dot s ≡ false → split_at_last_dot s ≡ none
unfolding split_at_last_dot
split-no_dot Str.[] h = refl
split-no_dot (Str.◌∷◌ c s) h = elim (Bool-cases (is_dot c)) [
  | inl e ↦ ground arith
  | inr e ↦
      let rest : contains_dot s ≡ false = ground arith in
      split_cons-none c s (split-no_dot s rest) ∙ rw e
]

append-not_blank : (s t : String) → is_blank s ≡ false → is_blank (Str.◌++◌ s t) ≡ false
append-not_blank Str.[] t h = ground arith
append-not_blank (Str.◌∷◌ c s) t h = ap (λ s. is_blank s) (append.cons c s t)

abbrev dot : Char
dot = "."

dot-append : (s : String) → Str.◌++◌ "." s ≡ Str.◌∷◌ dot s
dot-append s = append.cons dot "" s ∙ ap (Str.◌∷◌ dot) (append.nil s)

-- The separator that `seal` writes is the last dot, as a signature has none.
pub split-seal :
    (body s : String)
    → contains_dot s ≡ false
    → split_at_last_dot (Str.◌++◌ body (Str.◌++◌ "." s)) ≡ some (body, s)
split-seal Str.[] s h =
    ap split_at_last_dot (append.nil (Str.◌++◌ "." s) ∙ dot-append s)
    ∙ split_cons-none dot s (split-no_dot s h)
split-seal (Str.◌∷◌ c body) s h =
    ap split_at_last_dot (append.cons c body (Str.◌++◌ "." s))
    ∙ split_cons-some c _ (body, s) (split-seal body s h)

pub split_sound :
    (s a b : String) → split_at_last_dot s ≡ some (a, b) → s ≡ Str.◌++◌ a (Str.◌++◌ "." b)
unfolding split_at_last_dot
split_sound Str.[] a b h = ground arith
split_sound (Str.◌∷◌ c s) a b h = elim (Option-cases (split_at_last_dot s)) [
  | inr (parts, e) ↦
      let found = sym (split_cons-some c s parts e) ∙ h in
      cc (found, split_sound s parts.0 parts.1 e, append.cons c parts.0 (Str.◌++◌ "." parts.1))
  | inl e ↦
      let found = sym (split_cons-none c s e) ∙ h in
      elim (Bool-cases (is_dot c)) [
        | inl d ↦
            let here : ◌≡◌ {A = Option (String × String)} (some ("", s)) (some (a, b)) =
              ground (arith, found, d) in
            cc (here, (=ˢ_iff (Str.◌∷◌ c "") ".").0 d, append.nil (Str.◌++◌ "." s), dot-append s)
        | inr d ↦ ground arith
      ]
]

-- `sign` never writes a dot and `encode` no empty text, which is so of base64url. The lemmas about a
-- link that was made ask that `decode` reads back its own claims, as JSON does.
module _ (sign : String → String → String) (encode : DownloadGrantClaims → String)
    (decode : String → Option DownloadGrantClaims)
    (sign-no_dot : (body secret : String) → contains_dot (sign body secret) ≡ false)
    (encode-not_blank : (claims : DownloadGrantClaims) → is_blank (encode claims) ≡ false) where
  verify-seal :
      (claims : DownloadGrantClaims) (secret expected : String) (later : ℕ)
      → decode (encode claims) ≡ some claims
      → verify_download_grant sign encode decode
          (seal sign encode decode (encode claims) secret)
          secret
          expected
          later
        ≡ check_claims sign encode decode (some claims) expected later
  unfolding verify_download_grant
  verify-seal claims secret expected later read_back =
      let mac = sign (encode claims) secret in
      rw (
        split-seal (encode claims) mac (sign-no_dot (encode claims) secret),
        encode-not_blank claims,
        (=ˢ_iff mac mac).1 refl,
        read_back,
      )

  pub create-not_blank :
      (request : GrantRequest) (secret token : String) (now : ℕ)
      → create_download_grant sign encode decode request secret now ≡ some token
      → is_blank token ≡ false
  unfolding create_download_grant
  create-not_blank request secret token now made =
      let body = encode (claims_of sign encode decode request now) in
      let is_sealed : seal sign encode decode body secret ≡ token = ground (arith, made) in
      ap (λ t. is_blank t) (sym is_sealed)
      ∙ append-not_blank body _ (encode-not_blank (claims_of sign encode decode request now))

  -- A link made for a customer is accepted for that customer, with the claims it was made for, for
  -- ten minutes; from then on it has expired.
  pub verify-create :
      (request : GrantRequest) (secret token expected : String) (now later : ℕ)
      → decode (encode (claims_of sign encode decode request now))
        ≡ some (claims_of sign encode decode request now)
      → create_download_grant sign encode decode request secret now ≡ some token
      → normalise_email expected ≡ normalise_email request.customer_email
      → verify_download_grant sign encode decode token secret expected later ≡ (
          if leb (now + download_grant_ttl_ms) later
          then invalid expired
          else valid (claims_of sign encode decode request now))
  unfolding create_download_grant
  verify-create request secret token expected now later read_back made same =
      let claims = claims_of sign encode decode request now in
      let is_sealed : seal sign encode decode (encode claims) secret ≡ token =
        ground (arith, made) in
      let own = normalise_email request.customer_email in
      ap (λ t. verify_download_grant sign encode decode t secret expected later) (sym is_sealed)
      ∙ verify-seal claims secret expected later read_back
      ∙ rw (same, (=ˢ_iff own own).1 refl) (ground arith)

module _ (sign : String → String → String) (encode : DownloadGrantClaims → String)
    (decode : String → Option DownloadGrantClaims) where
  check_claims_sound :
      (decoded : Option DownloadGrantClaims) (expected : String) (now : ℕ)
      (claims : DownloadGrantClaims)
      → check_claims sign encode decode decoded expected now ≡ valid claims
      → (decoded ≡ some claims)
        × (pos now <ℤ claims.expires_at)
        × (claims.customer_email ≡ normalise_email expected)
  check_claims_sound none expected now claims h = ground arith
  check_claims_sound (some found) expected now claims h =
      let fresh : leb_ℤ found.expires_at (pos now) ≡ false = ground arith in
      let same : (found.customer_email =ˢ normalise_email expected) ≡ true = ground arith in
      let is_it : found ≡ claims = ground (arith, fresh, same) in
      (
        ap some is_it,
        subst (λ (c : DownloadGrantClaims). pos now <ℤ c.expires_at) is_it (ground (arith, fresh)),
        subst (λ (c : DownloadGrantClaims). c.customer_email ≡ normalise_email expected) is_it
            ((=ˢ_iff found.customer_email (normalise_email expected)).0 same),
      )

  -- Whatever token is accepted is some text, a dot and the signature of that text under the secret;
  -- the claims are those the text decodes to, they have not expired, and they are the customer's.
  pub verify-sealed :
      (token secret expected : String) (now : ℕ) (claims : DownloadGrantClaims)
      → verify_download_grant sign encode decode token secret expected now ≡ valid claims
      → (body : String) × (token ≡ seal sign encode decode body secret)
        × (decode body ≡ some claims)
        × (pos now <ℤ claims.expires_at)
        × (claims.customer_email ≡ normalise_email expected)
  unfolding verify_download_grant
  verify-sealed token secret expected now claims h = elim (Option-cases (split_at_last_dot token)) [
    | inl e ↦ ground (arith, e)
    | inr ((body, provided), e) ↦
        let checked : check_parts sign encode decode (some (body, provided)) secret expected now
            ≡ valid claims =
          ap (λ p. check_parts sign encode decode p secret expected now) (sym e) ∙ h in
        let signed : (provided =ˢ sign body secret) ≡ true = ground (arith, checked) in
        let inner : check_claims sign encode decode (decode body) expected now ≡ valid claims =
          ground (arith, checked) in
        let facts = check_claims_sound (decode body) expected now claims inner in
        (
          body,
          split_sound token body provided e
              ∙ ap (λ t. Str.◌++◌ body (Str.◌++◌ "." t))
                  ((=ˢ_iff provided (sign body secret)).0 signed),
          facts.0,
          facts.1,
          facts.2,
        )
  ]
