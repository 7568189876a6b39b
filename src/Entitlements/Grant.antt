-- ===== src/Entitlements/Grant.antt =====
-- packages/core-entitlements/src/downloadGrant.ts: the signed links of the downloads.
pub mod Proofs
use ai_client_acquisition_os.Common.{
  ℕ, ◌+◌, Bool, true, false, not, Option, none, some, String, ◌=ˢ◌, if◌then◌else◌,
}
use ai_client_acquisition_os.Common.Int.{ℤ, pos, leb_ℤ}
use ai_client_acquisition_os.Common.Text.{is_blank}
use ai_client_acquisition_os.Catalog.{ProductId, slug}
use ai_client_acquisition_os.Entitlements.Repository.{normalise_email}
use Prim.Native.Char.{Char}
use Prim.Native.String as Str

abbrev pub download_grant_ttl_ms : ℕ
download_grant_ttl_ms = 600000

-- `productId` is a text here: what is parsed is cast, not checked. `expiresAt` is a whole number.
pub record DownloadGrantClaims : Type 0 where
  pub product_id : String
  pub asset_id : String
  pub customer_email : String
  pub expires_at : ℤ

-- The claims without `expiresAt`.
pub record GrantRequest : Type 0 where
  pub product_id : ProductId
  pub asset_id : String
  pub customer_email : String

pub data DownloadGrantRejection : Type 0 where
  malformed bad_signature expired wrong_customer : DownloadGrantRejection

pub data DownloadGrantVerdict : Type 0 where
  valid : DownloadGrantClaims → DownloadGrantVerdict
  invalid : DownloadGrantRejection → DownloadGrantVerdict

abbrev pub is_dot : Char → Bool
is_dot c = Str.◌∷◌ c Str.[] =ˢ "."

-- `lastIndexOf('.')` and the two slices: the text before the last dot and the text behind it.
unfoldable pub split_at_last_dot : String → Option (String × String)
split_at_last_dot Str.[] = none
split_at_last_dot (Str.◌∷◌ c s) = elim (split_at_last_dot s) [
  | some parts ↦ some (Str.◌∷◌ c parts.0, parts.1)
  | none ↦ if is_dot c then some (Str.[], s) else none
]

-- `sign` is HMAC-SHA256 in base64url, `encode` the claims as JSON in base64url. `decode` reads them
-- back: `none` if that throws or a field is missing or of another type.
module _ (sign : String → String → String) (encode : DownloadGrantClaims → String)
    (decode : String → Option DownloadGrantClaims) where
  abbrev pub claims_of : GrantRequest → ℕ → DownloadGrantClaims
  claims_of request now = record {
    product_id = slug request.product_id;
    asset_id = request.asset_id;
    customer_email = normalise_email request.customer_email;
    expires_at = pos (now + download_grant_ttl_ms);
  }

  -- `${body}.${sign(body, secret)}`.
  abbrev pub seal : String → String → String
  seal body secret = Str.◌++◌ body (Str.◌++◌ "." (sign body secret))

  -- `none` where the source throws for the missing secret.
  unfoldable pub create_download_grant : GrantRequest → String → ℕ → Option String
  create_download_grant request secret now =
      if is_blank secret then none else some (seal (encode (claims_of request now)) secret)

  abbrev pub check_claims : Option DownloadGrantClaims → String → ℕ → DownloadGrantVerdict
  check_claims none expected now = invalid malformed
  check_claims (some claims) expected now =
      if leb_ℤ claims.expires_at (pos now)
      then invalid expired
      else if not (claims.customer_email =ˢ normalise_email expected)
      then invalid wrong_customer
      else valid claims

  abbrev pub check_parts : Option (String × String) → String → String → ℕ → DownloadGrantVerdict
  check_parts none secret expected now = invalid malformed
  check_parts (some (body, provided)) secret expected now =
      if is_blank body
      then invalid malformed
      else if not (provided =ˢ sign body secret)
      then invalid bad_signature
      else check_claims (decode body) expected now

  unfoldable pub verify_download_grant : String → String → String → ℕ → DownloadGrantVerdict
  unfolding split_at_last_dot
  verify_download_grant token secret expected now =
      check_parts (split_at_last_dot token) secret expected now
