-- ===== src/Catalog.antt =====
-- packages/catalog: the product line, its prices and what each product ships.
pub mod Ladder
pub mod Deliverables
use ai_client_acquisition_os.Common.{
  ℕ, Bool, true, false, List, [], ◌∷◌, Option, none, some, String, ◌=ˢ◌, find, ◌≡◌, refl, arith,
  =ˢ_iff, map, Bool-cases, inl, inr,
}

pub data ProductId : Type 0 where
  ai_income_99 ai_freelancing_499 ai_client_acquisition_1499 : ProductId

-- The text of a product id, as it is stored and sent.
unfoldable pub slug : ProductId → String
slug ai_income_99 = "ai_income_99"
slug ai_freelancing_499 = "ai_freelancing_499"
slug ai_client_acquisition_1499 = "ai_client_acquisition_1499"

pub record Product : Type 0 where
  pub id : ProductId
  pub name : String
  pub amount_paise : ℕ
  pub currency : String
  pub meta_value_inr : ℕ

unfoldable pub get_product : ProductId → Product
get_product ai_income_99 = record {
  id = ai_income_99;
  name = "AI Income Starter Kit";
  amount_paise = 9900;
  currency = "INR";
  meta_value_inr = 99;
}
get_product ai_freelancing_499 = record {
  id = ai_freelancing_499;
  name = "AI Freelancing Launch Kit";
  amount_paise = 49900;
  currency = "INR";
  meta_value_inr = 499;
}
get_product ai_client_acquisition_1499 = record {
  id = ai_client_acquisition_1499;
  name = "AI Client Acquisition System";
  amount_paise = 149900;
  currency = "INR";
  meta_value_inr = 1499;
}

abbrev pub product_ids : List ProductId
product_ids = ai_income_99 ∷ ai_freelancing_499 ∷ ai_client_acquisition_1499 ∷ []

-- `resolveProduct`: `none` where the source throws `InvalidProductIdError`.
unfoldable pub resolve_product : String → Option Product
unfolding get_product slug
resolve_product value = elim (find (λ id. slug id =ˢ value) product_ids) [
  | none ↦ none
  | some id ↦ some (get_product id)
]

-- `===` on product ids.
abbrev pub same_product : ProductId → ProductId → Bool
same_product ai_income_99 ai_income_99 = true
same_product ai_freelancing_499 ai_freelancing_499 = true
same_product ai_client_acquisition_1499 ai_client_acquisition_1499 = true
same_product _ _ = false

pub same_product_iff : (a b : ProductId) → same_product a b ≡ true → a ≡ b
same_product_iff a b h = ground arith

pub same_product_refl : (p : ProductId) → same_product p p ≡ true
same_product_refl p = ground arith

resolve_slug : (id : ProductId) → resolve_product (slug id) ≡ some (get_product id)
unfolding resolve_product
resolve_slug ai_income_99 = refl
resolve_slug ai_freelancing_499 = refl
resolve_slug ai_client_acquisition_1499 = refl

-- Every product id resolves to its own catalog entry; whatever text resolves, it is the id of the
-- product it resolves to, and that product is the catalog's entry, price and currency included.
pub resolve_product_exact :
    (value : String) (p : Product) (id : ProductId)
    → (resolve_product (slug id) ≡ some (get_product id))
      × (resolve_product value ≡ some p → (value ≡ slug p.id) × (p ≡ get_product p.id))
unfolding resolve_product
resolve_product_exact value p id = (
  resolve_slug id,
  λ h. ground (
    arith,
    =ˢ_iff "ai_income_99" value,
    =ˢ_iff "ai_freelancing_499" value,
    =ˢ_iff "ai_client_acquisition_1499" value,
  ),
)
