-- ===== src/Entitlements/Funnel.antt =====
-- packages/core-entitlements/src/funnel.ts: the position of a visitor on the ladder.
use ai_client_acquisition_os.Common.{
  ◌≡◌, ◌↔◌, refl, Bool, true, false, List, [], ◌∷◌, Option, none, some, if◌then◌else◌, keep, any,
  length, ◌==◌, get_elem?, arith, ◌∙◌,
}
use ai_client_acquisition_os.Common.Int.{ℤ, pos, negsuc, ◌+ℤ◌, ltb_ℤ}
use ai_client_acquisition_os.Catalog.{
  ProductId, ai_income_99, ai_freelancing_499, ai_client_acquisition_1499, same_product,
}
use ai_client_acquisition_os.Catalog.Ladder.{
  product_ladder, tier_of, implied_product_ids, entry_product_id,
}

-- `xs.includes(id)`.
abbrev pub includes : List ProductId → ProductId → Bool
includes xs id = any (λ x. same_product x id) xs

-- The set of all that some purchase implies.
abbrev granted : List ProductId → ProductId → Bool
granted purchased id = any (λ p. includes (implied_product_ids p) id) purchased

unfoldable pub accessible_products : List ProductId → List ProductId
accessible_products purchased = keep (granted purchased) product_ladder

unfoldable pub can_access_product : List ProductId → ProductId → Bool
unfolding accessible_products
can_access_product purchased id = includes (accessible_products purchased) id

-- `Math.max(...xs)` over the tiers of a non-empty list.
abbrev max_tier : ℤ → List ProductId → ℤ
max_tier best [] = best
max_tier best (p ∷ ps) = max_tier (if ltb_ℤ best (tier_of p) then tier_of p else best) ps

abbrev is_nil : List ProductId → Bool
is_nil [] = true
is_nil (_ ∷ _) = false

-- `PRODUCT_LADDER[i] ?? null`.
abbrev rung_at : ℤ → Option ProductId
rung_at (pos n) = get_elem? product_ladder n
rung_at (negsuc n) = none

unfoldable pub next_upsell : List ProductId → Option ProductId
unfolding accessible_products tier_of ◌+ℤ◌
next_upsell purchased =
    let accessible = accessible_products purchased in
    if is_nil accessible
    then some entry_product_id
    else rung_at (max_tier (negsuc 0) accessible +ℤ pos 1)

unfoldable pub is_duplicate_purchase : List ProductId → ProductId → Bool
unfolding can_access_product
is_duplicate_purchase purchased id = can_access_product purchased id

pub record FunnelState : Type 0 where
  pub purchased : List ProductId
  pub accessible : List ProductId
  pub upsell : Option ProductId
  pub complete : Bool
  pub tier : ℤ

unfoldable pub funnel_state_for : List ProductId → FunnelState
unfolding next_upsell
funnel_state_for purchased =
    let accessible = accessible_products purchased in
    record {
      purchased = keep (includes purchased) product_ladder;
      accessible = accessible;
      upsell = next_upsell purchased;
      complete = length accessible == length product_ladder;
      tier = if is_nil accessible then negsuc 0 else max_tier (negsuc 0) accessible;
    }

pub data Destination : Type 0 where
  upsell_page : ProductId → Destination
  access_page : Destination

unfoldable pub post_purchase_destination : List ProductId → Destination
unfolding next_upsell
post_purchase_destination purchased = elim (next_upsell purchased) [
  | some id ↦ upsell_page id
  | none ↦ access_page
]

-- The purchased products whose rung is not below that of `id`.
abbrev pub covers : ProductId → ProductId → Bool
covers p id = ltb_ℤ (tier_of id) (tier_of p +ℤ pos 1)

implied-covers : (p id : ProductId) → includes (implied_product_ids p) id ≡ covers p id
unfolding implied_product_ids ◌+ℤ◌ tier_of
implied-covers ai_income_99 ai_income_99 = refl
implied-covers ai_income_99 ai_freelancing_499 = refl
implied-covers ai_income_99 ai_client_acquisition_1499 = refl
implied-covers ai_freelancing_499 ai_income_99 = refl
implied-covers ai_freelancing_499 ai_freelancing_499 = refl
implied-covers ai_freelancing_499 ai_client_acquisition_1499 = refl
implied-covers ai_client_acquisition_1499 ai_income_99 = refl
implied-covers ai_client_acquisition_1499 ai_freelancing_499 = refl
implied-covers ai_client_acquisition_1499 ai_client_acquisition_1499 = refl

granted-covers :
    (purchased : List ProductId) (id : ProductId)
    → granted purchased id ≡ any (λ p. covers p id) purchased
granted-covers [] id = refl
granted-covers (p ∷ ps) id = rw (implied-covers p id, granted-covers ps id)

includes-keep : (g : ProductId → Bool) (id : ProductId) → includes (keep g product_ladder) id ≡ g id
includes-keep g ai_income_99 = ground arith
includes-keep g ai_freelancing_499 = ground arith
includes-keep g ai_client_acquisition_1499 = ground arith

-- A product can be opened exactly if it stands on or below the rung of some purchase, whatever was
-- bought, and in whatever order.
pub can_access_product-covers :
    (purchased : List ProductId) (id : ProductId)
    → can_access_product purchased id ≡ any (λ p. covers p id) purchased
unfolding can_access_product
can_access_product-covers purchased id =
    includes-keep (granted purchased) id ∙ granted-covers purchased id

-- What opens a product opens those below it.
granted_down :
    (purchased : List ProductId)
    → (granted purchased ai_client_acquisition_1499 ≡ true
        → granted purchased ai_freelancing_499 ≡ true)
      × (granted purchased ai_freelancing_499 ≡ true → granted purchased ai_income_99 ≡ true)
unfolding implied_product_ids tier_of
granted_down [] = (λ h. cc, λ h. cc)
granted_down (ai_income_99 ∷ ps) = ground (arith, granted_down ps)
granted_down (ai_freelancing_499 ∷ ps) = ground (arith, granted_down ps)
granted_down (ai_client_acquisition_1499 ∷ ps) = ground (arith, granted_down ps)

upsell_new :
    (purchased : List ProductId) (id : ProductId)
    → (granted purchased ai_client_acquisition_1499 ≡ true
        → granted purchased ai_freelancing_499 ≡ true)
      × (granted purchased ai_freelancing_499 ≡ true → granted purchased ai_income_99 ≡ true)
    → next_upsell purchased ≡ some id
    → can_access_product purchased id ≡ false
unfolding can_access_product next_upsell
upsell_new purchased ai_income_99 down h = ground arith
upsell_new purchased ai_freelancing_499 down h = ground arith
upsell_new purchased ai_client_acquisition_1499 down h = ground arith

-- The offer is never something that the visitor can open already, and there is no offer exactly when
-- the ladder is complete.
pub next_upsell_new :
    (purchased : List ProductId)
    → ((id : ProductId) → next_upsell purchased ≡ some id → can_access_product purchased id ≡ false)
      × ((next_upsell purchased ≡ none) ↔ ((funnel_state_for purchased).complete ≡ true))
unfolding can_access_product funnel_state_for
next_upsell_new purchased =
    let down = granted_down purchased in
    (λ id h. upsell_new purchased id down h, (λ h. ground (arith, down), λ h. ground (arith, down)))
