-- ===== src/Entitlements/Delivery.antt =====
-- packages/core-entitlements/src/delivery.ts: whether a download is allowed, and what a refusal says.
use ai_client_acquisition_os.Common.{
  ℕ, ◌+◌, ◌<◌, true, false, not, ◌||◌, Option, none, some, String, ◌≡◌, refl, sym, ap, ◌∙◌, arith,
  =ˢ_iff, ◌=ˢ◌, any, if◌then◌else◌, ◌⊎◌, inl, inr,
}
use ai_client_acquisition_os.Common.Int.{pos, ◌<ℤ◌}
use ai_client_acquisition_os.Common.Text.{is_blank}
use ai_client_acquisition_os.Catalog.{ProductId, slug}
use ai_client_acquisition_os.Catalog.Deliverables.{Deliverable, find_deliverable}
use ai_client_acquisition_os.Entitlements.Repository.{Tables, normalise_email}
use ai_client_acquisition_os.Entitlements.Funnel.{
  FunnelState, can_access_product, covers, can_access_product-covers,
}
use ai_client_acquisition_os.Entitlements.Access.{
  AccessContext, AccessDenial, no_token, AccessResolution, granted, denied, resolve_access,
  GrantedBy, resolve_access-GrantedBy,
}
use ai_client_acquisition_os.Entitlements.Grant.{
  DownloadGrantClaims, DownloadGrantRejection, malformed, bad_signature, expired,
  DownloadGrantVerdict, valid, invalid, GrantRequest, claims_of, seal, create_download_grant,
  verify_download_grant, download_grant_ttl_ms,
}
use ai_client_acquisition_os.Entitlements.Grant.Proofs.{
  verify-create, verify-sealed, create-not_blank, contains_dot,
}

-- `grant r` is the text `grant-${r}`.
pub data DeliveryDenial : Type 0 where
  no_session invalid_session not_entitled unknown_asset : DeliveryDenial
  grant : DownloadGrantRejection → DeliveryDenial

pub data DeliveryAuthorization : Type 0 where
  allowed : Deliverable → String → DeliveryAuthorization
  refused : DeliveryDenial → DeliveryAuthorization

pub record DownloadRequest : Type 0 where
  pub access_token : Option String
  pub grant : Option String
  pub product_id : ProductId
  pub asset_id : String
  pub grant_secret : String
  pub now : ℕ

Granted-cases :
    (r : AccessResolution)
    → ((d : AccessDenial × FunnelState) × (r ≡ denied d.0 d.1))
      ⊎ ((g : AccessContext × FunnelState) × (r ≡ granted g.0 g.1))
Granted-cases (denied reason funnel) = inl ((reason, funnel), refl)
Granted-cases (granted context funnel) = inr ((context, funnel), refl)

abbrev session_denial : AccessDenial → DeliveryDenial
session_denial no_token = no_session
session_denial _ = invalid_session

module _ (hash : String → String) (sign : String → String → String)
    (encode : DownloadGrantClaims → String) (decode : String → Option DownloadGrantClaims) where
  -- Step 4.
  abbrev pub find_asset : DownloadRequest → String → Option Deliverable → DeliveryAuthorization
  find_asset request email none = refused unknown_asset
  find_asset request email (some asset) = allowed asset email

  -- Step 3, behind the verification of the link.
  abbrev pub match_link : DownloadRequest → String → DownloadGrantVerdict → DeliveryAuthorization
  match_link request email (invalid reason) = refused (grant reason)
  match_link request email (valid claims) =
      if not (claims.product_id =ˢ slug request.product_id)
        || not (claims.asset_id =ˢ request.asset_id)
      then refused (grant bad_signature)
      else find_asset request email (find_deliverable request.product_id request.asset_id)

  abbrev pub check_link : DownloadRequest → String → Option String → DeliveryAuthorization
  check_link request email none = refused (grant malformed)
  check_link request email (some token) =
      if is_blank token
      then refused (grant malformed)
      else match_link request email
          (verify_download_grant sign encode decode token request.grant_secret email request.now)

  -- Steps 1 and 2.
  abbrev pub check_access : DownloadRequest → AccessResolution → DeliveryAuthorization
  check_access request (denied reason funnel) = refused (session_denial reason)
  check_access request (granted context funnel) =
      if not (can_access_product context.purchased request.product_id)
      then refused not_entitled
      else check_link request context.customer_email request.grant

  unfoldable pub authorize_download : Tables → DownloadRequest → DeliveryAuthorization
  authorize_download db request =
      check_access request (resolve_access hash db request.access_token request.now)

  -- The asset is of the product's manifest, and the link is a signed text that names the product,
  -- the asset and the customer, and has not expired.
  abbrev pub LinkFits : DownloadRequest → Deliverable → String → Type 0
  LinkFits request asset email =
      (token : String) × (claims : DownloadGrantClaims) × (body : String) × (request.grant
        ≡ some token)
      × (token ≡ seal sign encode decode body request.grant_secret)
      × (decode body ≡ some claims)
      × (pos request.now <ℤ claims.expires_at)
      × (claims.customer_email ≡ normalise_email email)
      × (claims.product_id ≡ slug request.product_id)
      × (claims.asset_id ≡ request.asset_id)
      × (find_deliverable request.product_id request.asset_id ≡ some asset)

  match_link_sound :
      (request : DownloadRequest) (email email' : String) (v : DownloadGrantVerdict)
      (asset : Deliverable)
      → match_link request email v ≡ allowed asset email'
      → (claims : DownloadGrantClaims) × (v ≡ valid claims)
        × (claims.product_id ≡ slug request.product_id)
        × (claims.asset_id ≡ request.asset_id)
        × (find_deliverable request.product_id request.asset_id ≡ some asset)
        × (email ≡ email')
  match_link_sound request email email' (invalid reason) asset h = ground arith
  match_link_sound request email email' (valid claims) asset h =
      let product : (claims.product_id =ˢ slug request.product_id) ≡ true = ground (arith, h) in
      let named : (claims.asset_id =ˢ request.asset_id) ≡ true = ground (arith, h) in
      let found : find_asset request email (find_deliverable request.product_id request.asset_id)
          ≡ allowed asset email' =
        ground (arith, h) in
      (
        claims,
        refl,
        (=ˢ_iff claims.product_id (slug request.product_id)).0 product,
        (=ˢ_iff claims.asset_id request.asset_id).0 named,
        ground (arith, found),
        ground (arith, found),
      )

  check_link_sound :
      (request : DownloadRequest) (email email' : String) (link : Option String)
      (asset : Deliverable)
      → request.grant ≡ link
      → check_link request email link ≡ allowed asset email'
      → LinkFits request asset email × (email ≡ email')
  check_link_sound request email email' none asset e h = ground arith
  check_link_sound request email email' (some token) asset e h =
      let v =
        verify_download_grant sign encode decode token request.grant_secret email request.now in
      let matched : match_link request email v ≡ allowed asset email' = ground (arith, h) in
      let m = match_link_sound request email email' v asset matched in
      let s =
        verify-sealed sign encode decode token request.grant_secret email request.now m.0 m.1 in
      ((token, m.0, s.0, e, s.1, s.2, s.3, s.4, m.2, m.3, m.4), m.5)

  -- A download is allowed only if the cookie is a live token, a purchase of its customer stands on
  -- the product's rung or above, the link is signed, current and that customer's, and the asset is in
  -- the product's manifest.
  pub authorize_download-LinkFits :
      (db : Tables) (request : DownloadRequest) (asset : Deliverable) (email : String)
      → authorize_download db request ≡ allowed asset email
      → (context : AccessContext) × GrantedBy hash db request.access_token request.now context
        × (any (λ p. covers p request.product_id) context.purchased ≡ true)
        × (context.customer_email ≡ email)
        × LinkFits request asset context.customer_email
  unfolding authorize_download
  authorize_download-LinkFits db request asset email h =
      elim (Granted-cases (resolve_access hash db request.access_token request.now)) [
        | inl ((reason, funnel), e) ↦ ground (arith, ap (check_access request) (sym e) ∙ h)
        | inr ((context, funnel), e) ↦
            let entered : check_access request (granted context funnel) ≡ allowed asset email =
              ap (check_access request) (sym e) ∙ h in
            let held : can_access_product context.purchased request.product_id ≡ true =
              ground (arith, entered) in
            let linked : check_link request context.customer_email request.grant
                ≡ allowed asset email =
              ground (arith, entered) in
            let fits =
              check_link_sound request context.customer_email email request.grant asset refl
                linked in
            (
              context,
              resolve_access-GrantedBy hash db request.access_token request.now context funnel e,
              sym (can_access_product-covers context.purchased request.product_id) ∙ held,
              fits.1,
              fits.0,
            )
      ]

-- What base64url promises of the signature and the claims.
module _ (hash : String → String) (sign : String → String → String)
    (encode : DownloadGrantClaims → String) (decode : String → Option DownloadGrantClaims)
    (sign-no_dot : (body secret : String) → contains_dot (sign body secret) ≡ false)
    (encode-not_blank : (claims : DownloadGrantClaims) → is_blank (encode claims) ≡ false) where
  abbrev pub request_for : DownloadRequest → AccessContext → GrantRequest
  request_for request context = record {
    product_id = request.product_id;
    asset_id = request.asset_id;
    customer_email = context.customer_email;
  }

  -- If the claims of a link are read back as they were written: a customer with access to a product who shows the link made for them for one of its assets gets
  -- that asset until ten minutes after the link was made.
  pub authorize_download-own :
      (db : Tables) (request : DownloadRequest) (asset : Deliverable) (context : AccessContext)
      (funnel : FunnelState) (token : String) (made : ℕ)
      → resolve_access hash db request.access_token request.now ≡ granted context funnel
      → can_access_product context.purchased request.product_id ≡ true
      → decode (encode (claims_of sign encode decode (request_for request context) made))
        ≡ some (claims_of sign encode decode (request_for request context) made)
      → create_download_grant sign encode decode
          (request_for request context)
          request.grant_secret
          made
        ≡ some token
      → request.grant ≡ some token
      → request.now < made + download_grant_ttl_ms
      → find_deliverable request.product_id request.asset_id ≡ some asset
      → authorize_download hash sign encode decode db request ≡ allowed asset context.customer_email
  unfolding authorize_download
  authorize_download-own db request asset context funnel token made access held read_back link shown
        fresh exists =
      let made_for = request_for request context in
      let accepted : verify_download_grant sign encode decode token request.grant_secret
            context.customer_email request.now
          ≡ valid (claims_of sign encode decode made_for made) =
        verify-create sign encode decode sign-no_dot encode-not_blank made_for request.grant_secret
          token context.customer_email made request.now read_back link refl
        ∙ ground (arith, fresh) in
      let not_blank =
        create-not_blank sign encode decode sign-no_dot encode-not_blank made_for
          request.grant_secret token made link in
      let product = slug request.product_id in
      rw (
        access,
        held,
        shown,
        not_blank,
        accepted,
        (=ˢ_iff product product).1 refl,
        (=ˢ_iff request.asset_id request.asset_id).1 refl,
        exists,
      )

-- What a refused request is told.
unfoldable pub denial_response : DeliveryDenial → ℕ × String
denial_response no_session = (401, "Open the access link we emailed you, then try again.")
denial_response invalid_session = (401, "Open the access link we emailed you, then try again.")
denial_response not_entitled = (403, "This kit is not in your library.")
denial_response unknown_asset = (404, "That file does not exist.")
denial_response (grant expired) =
    (410, "This download link has expired. Refresh the page for a new one.")
denial_response (grant _) = (403, "This download link is not valid.")
