-- ===== src/Payments/Signature.antt =====
-- packages/core-payments/src/webhook.ts and razorpaySignature.ts: the check of a request before
-- anything reads its body.
use ai_client_acquisition_os.Common.{
  ℕ, suc, ◌+◌, ◌-◌, ◌*◌, ◌≤◌, Bool, true, false, not, ◌&&◌, List, [], ◌∷◌, Option, none, some,
  String, leb, ltb, ◌==◌, if◌then◌else◌, length, ◌≡◌, refl, arith, ◌↔◌, is_some, or_else,
}
use ai_client_acquisition_os.Common.Text.{is_blank}
use Prim.Native.Char.{code}
use Prim.Native.String as Str

pub data WebhookRejectionReason : Type 0 where
  missing_signature malformed_signature bad_signature empty_body body_too_large :
      WebhookRejectionReason

abbrev pub max_webhook_body_bytes : ℕ
max_webhook_body_bytes = 1048576

-- Only `verify_razorpay_webhook` makes one; a body is the list of its bytes.
pub record VerifiedWebhook : Type 0 where
  pub raw_body : List ℕ
  pub received_at : ℕ

pub record WebhookRejection : Type 0 where
  pub reason : WebhookRejectionReason
  pub received_at : ℕ
  pub body_bytes : ℕ
  pub signature_present : Bool
  pub signature_well_formed : Bool
  pub source_ip : Option String

pub data WebhookVerification : Type 0 where
  ok : VerifiedWebhook → WebhookVerification
  rejected : WebhookRejection → WebhookVerification
  config_error : WebhookVerification

pub record VerifyWebhookInput : Type 0 where
  pub raw_body : List ℕ
  pub signature_header : Option String
  pub webhook_secret : String
  pub received_at : ℕ
  pub source_ip : Option String

-- The value of a hexadecimal digit; `none` for any other character.
abbrev pub hex_digit : ℕ → Option ℕ
hex_digit c =
    if leb 48 c && leb c 57
    then some (c - 48)
    else if leb 97 c && leb c 102
    then some (c - 87)
    else if leb 65 c && leb c 70
    then some (c - 55)
    else none

all_hex : String → Bool
all_hex Str.[] = true
all_hex (Str.◌∷◌ c s) = let rest = all_hex s in if is_some (hex_digit (code c)) then rest else false

count_chars : String → ℕ
count_chars Str.[] = 0
count_chars (Str.◌∷◌ c s) = suc (count_chars s)

-- `/^[0-9a-f]{64}$/i`.
unfoldable pub is_sha256_hex : String → Bool
unfolding all_hex count_chars
is_sha256_hex s = (count_chars s == 64) && all_hex s

hex-not_blank : (s : String) → is_sha256_hex s ≡ true → is_blank s ≡ false
unfolding is_sha256_hex
hex-not_blank Str.[] h = ground arith
hex-not_blank (Str.◌∷◌ c s) h = refl

-- `Buffer.from(s, 'hex')`: pairs of digits, up to the first that is none.
unfoldable pub hex_bytes : String → List ℕ
hex_bytes Str.[] = []
hex_bytes (Str.◌∷◌ a Str.[]) = []
hex_bytes (Str.◌∷◌ a (Str.◌∷◌ b s)) =
    let rest = hex_bytes s in
    elim (hex_digit (code a)) [
      | none ↦ []
      | some high ↦ elim (hex_digit (code b)) [ none ↦ [] | some low ↦ (16 * high + low) ∷ rest ]
    ]

unfoldable pub bytes_equal : List ℕ → List ℕ → Bool
bytes_equal [] [] = true
bytes_equal (a ∷ xs) (b ∷ ys) = (a == b) && bytes_equal xs ys
bytes_equal _ _ = false

-- `digest secret body` are the bytes of the HMAC-SHA256, which are 32, as those of 64 digits.
module _ (digest : String → List ℕ → List ℕ) where
  -- Behind the checks of its arguments' types.
  unfoldable pub verify_razorpay_webhook_signature : List ℕ → String → String → Bool
  verify_razorpay_webhook_signature raw_body received secret =
      is_sha256_hex received && bytes_equal (digest secret raw_body) (hex_bytes received)

  abbrev pub header_of : VerifyWebhookInput → String
  header_of input = or_else input.signature_header ""

  abbrev pub is_present : VerifyWebhookInput → Bool
  is_present input = not (is_blank (header_of input))

  abbrev pub is_well_formed : VerifyWebhookInput → Bool
  is_well_formed input = is_present input && is_sha256_hex (header_of input)

  abbrev pub rejection_of : VerifyWebhookInput → WebhookRejectionReason → WebhookVerification
  rejection_of input reason = rejected (record {
    reason = reason;
    received_at = input.received_at;
    body_bytes = length input.raw_body;
    signature_present = is_present input;
    signature_well_formed = is_well_formed input;
    source_ip = input.source_ip;
  })

  unfoldable pub verify_razorpay_webhook : VerifyWebhookInput → WebhookVerification
  unfolding verify_razorpay_webhook_signature
  verify_razorpay_webhook input =
      if is_blank input.webhook_secret
      then config_error
      else if length input.raw_body == 0
      then rejection_of input empty_body
      else if ltb max_webhook_body_bytes (length input.raw_body)
      then rejection_of input body_too_large
      else if not (is_present input)
      then rejection_of input missing_signature
      else if not (is_well_formed input)
      then rejection_of input malformed_signature
      else if not
          (verify_razorpay_webhook_signature input.raw_body (header_of input) input.webhook_secret)
      then rejection_of input bad_signature
      else ok (record { raw_body = input.raw_body; received_at = input.received_at })

  bytes_equal_iff : (xs ys : List ℕ) → (bytes_equal xs ys ≡ true) ↔ (xs ≡ ys)
  unfolding bytes_equal
  bytes_equal_iff [] [] = ground arith
  bytes_equal_iff [] (y ∷ ys) = ground arith
  bytes_equal_iff (x ∷ xs) [] = ground arith
  bytes_equal_iff (x ∷ xs) (y ∷ ys) = ground (arith, bytes_equal_iff xs ys)

  -- A request is let in exactly if it has a secret to be checked with, a body of at most one
  -- mebibyte that is not empty, and 64 hexadecimal digits that are the digest of that very body; what
  -- is let in is that body.
  pub verify_razorpay_webhook_iff :
      (input : VerifyWebhookInput) (v : VerifiedWebhook)
      → (verify_razorpay_webhook input ≡ ok v) ↔ (
          (is_blank input.webhook_secret ≡ false)
          × (1 ≤ length input.raw_body)
          × (length input.raw_body ≤ max_webhook_body_bytes)
          × (is_sha256_hex (header_of input) ≡ true)
          × (digest input.webhook_secret input.raw_body ≡ hex_bytes (header_of input))
          × (v ≡ record { raw_body = input.raw_body; received_at = input.received_at }))
  unfolding verify_razorpay_webhook verify_razorpay_webhook_signature
  verify_razorpay_webhook_iff input v =
      let same =
        bytes_equal_iff (digest input.webhook_secret input.raw_body)
          (hex_bytes (header_of input)) in
      (
        λ h. ground (arith, h, same, hex-not_blank (header_of input)),
        λ h. ground (arith, h, same, hex-not_blank (header_of input)),
      )
