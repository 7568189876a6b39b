-- ===== src/Entitlements/Access.antt =====
-- packages/core-entitlements/src: access.ts and reissue.ts.
use ai_client_acquisition_os.Common.{
  ℕ, ◌<◌, true, List, [], Option, none, some, String, any, if◌then◌else◌, ◌≡◌, refl, arith, ◌∙◌, ap,
  sym,
}
use ai_client_acquisition_os.Common.Text.{is_blank}
use ai_client_acquisition_os.Catalog.{ProductId}
use ai_client_acquisition_os.Entitlements.Funnel.{
  FunnelState, funnel_state_for, can_access_product, covers, can_access_product-covers,
}
use ai_client_acquisition_os.Entitlements.Repository.{
  Tables, StoredAccessToken, TokenVerdict, valid, rejected, purchased_from, list_active,
  find_access_token, evaluate_access_token,
}

pub data AccessDenial : Type 0 where
  no_token invalid_token not_entitled : AccessDenial

pub record AccessContext : Type 0 where
  pub customer_email : String
  pub purchased : List ProductId

pub data AccessResolution : Type 0 where
  granted : AccessContext → FunnelState → AccessResolution
  denied : AccessDenial → FunnelState → AccessResolution

abbrev anonymous_funnel : FunnelState
anonymous_funnel = funnel_state_for []

-- `hash` is `hashAccessToken`: SHA-256, of the runtime's crypto library.
module _ (hash : String → String) where
  abbrev pub purchases_of : Tables → String → List ProductId
  purchases_of db email = purchased_from (list_active db email)

  abbrev pub of_verdict : Tables → TokenVerdict → AccessResolution
  of_verdict db (rejected r) = denied invalid_token anonymous_funnel
  of_verdict db (valid email) =
      granted (record { customer_email = email; purchased = purchases_of db email })
        (funnel_state_for (purchases_of db email))

  unfoldable pub resolve_access : Tables → Option String → ℕ → AccessResolution
  resolve_access db none now = denied no_token anonymous_funnel
  resolve_access db (some raw) now =
      if is_blank raw
      then denied no_token anonymous_funnel
      else of_verdict db (evaluate_access_token (find_access_token db (hash raw)) now)

  abbrev pub gate : ProductId → AccessResolution → AccessResolution
  gate product (denied reason funnel) = denied reason funnel
  gate product (granted context funnel) =
      if can_access_product context.purchased product
      then granted context funnel
      else denied not_entitled funnel

  unfoldable pub require_product_access : Tables → Option String → ProductId → ℕ → AccessResolution
  unfolding resolve_access
  require_product_access db raw product now = gate product (resolve_access db raw now)

  abbrev pub GrantedBy : Tables → Option String → ℕ → AccessContext → Type 0
  GrantedBy db none now context = ⊥
  GrantedBy db (some raw) now context =
      (stored : StoredAccessToken) × (find_access_token db (hash raw) ≡ some stored)
      × (stored.revoked_at ≡ none)
      × (now < stored.expires_at)
      × (context.customer_email ≡ stored.customer_email)
      × (context.purchased ≡ purchases_of db stored.customer_email)

  evaluate_sound :
      (found : Option StoredAccessToken) (now : ℕ) (email : String)
      → evaluate_access_token found now ≡ valid email
      → (stored : StoredAccessToken) × (found ≡ some stored)
        × (stored.revoked_at ≡ none)
        × (now < stored.expires_at)
        × (email ≡ stored.customer_email)
  unfolding evaluate_access_token
  evaluate_sound none now email h = ground arith
  evaluate_sound (some stored) now email h =
      (stored, refl, ground (arith, h), ground (arith, h), ground (arith, h))

  of_verdict_sound :
      (db : Tables) (v : TokenVerdict) (context : AccessContext) (funnel : FunnelState)
      → of_verdict db v ≡ granted context funnel
      → (email : String) × (v ≡ valid email)
        × (context.customer_email ≡ email)
        × (context.purchased ≡ purchases_of db email)
        × (funnel ≡ funnel_state_for (purchases_of db email))
  of_verdict_sound db (rejected r) context funnel h = ground arith
  of_verdict_sound db (valid email) context funnel h = (email, refl, cc h, cc h, cc h)

  -- Access is granted only by a token whose hash is stored, that is not revoked and has not expired;
  -- it is granted to the address the token was stored for, with the purchases read at that moment.
  pub resolve_access-GrantedBy :
      (db : Tables) (raw : Option String) (now : ℕ) (context : AccessContext) (funnel : FunnelState)
      → resolve_access db raw now ≡ granted context funnel
      → GrantedBy db raw now context
  unfolding resolve_access
  resolve_access-GrantedBy db none now context funnel h = ground arith
  resolve_access-GrantedBy db (some raw) now context funnel h =
      let found = find_access_token db (hash raw) in
      let verdict = evaluate_access_token found now in
      let from_token : of_verdict db verdict ≡ granted context funnel = ground (arith, h) in
      let v = of_verdict_sound db verdict context funnel from_token in
      let t = evaluate_sound found now v.0 v.1 in
      (t.0, t.1, t.2, t.3, v.2 ∙ t.4, v.3 ∙ ap (purchases_of db) t.4)

  gate_sound :
      (product : ProductId) (r : AccessResolution) (context : AccessContext) (funnel : FunnelState)
      → gate product r ≡ granted context funnel
      → (r ≡ granted context funnel) × (can_access_product context.purchased product ≡ true)
  gate_sound product (denied reason f) context funnel h = ground arith
  gate_sound product (granted c f) context funnel h = ground arith

  -- A product page opens only for such a token whose purchases stand on its rung or above.
  pub require_product_access-covers :
      (db : Tables) (raw : Option String) (product : ProductId) (now : ℕ) (context : AccessContext)
      (funnel : FunnelState)
      → require_product_access db raw product now ≡ granted context funnel
      → GrantedBy db raw now context × (any (λ p. covers p product) context.purchased ≡ true)
  unfolding require_product_access
  require_product_access-covers db raw product now context funnel h =
      let g = gate_sound product (resolve_access db raw now) context funnel h in
      (
        resolve_access-GrantedBy db raw now context funnel g.0,
        sym (can_access_product-covers context.purchased product) ∙ g.1,
      )
