-- ===== src/Catalog/Ladder.antt =====
-- packages/catalog/src/ladder.ts: the order of the products, each containing those below it.
use ai_client_acquisition_os.Common.{
  ℕ, suc, ◌+◌, List, [], ◌∷◌, Option, none, if◌then◌else◌, take, get_elem?,
}
use ai_client_acquisition_os.Common.Int.{ℤ, pos, negsuc, ltb_ℤ, pos_part}
use ai_client_acquisition_os.Catalog.{
  ProductId, ai_income_99, ai_freelancing_499, ai_client_acquisition_1499, same_product,
}

abbrev pub product_ladder : List ProductId
product_ladder = ai_income_99 ∷ ai_freelancing_499 ∷ ai_client_acquisition_1499 ∷ []

-- `ladder.indexOf(id)`, counted from `n`.
abbrev index_from : ℕ → ProductId → List ProductId → ℤ
index_from n id [] = negsuc 0
index_from n id (x ∷ xs) =
    let rest = index_from (suc n) id xs in if same_product x id then pos n else rest

unfoldable pub tier_of : ProductId → ℤ
tier_of id = index_from 0 id product_ladder

unfoldable pub implied_product_ids : ProductId → List ProductId
unfolding tier_of
implied_product_ids id =
    let tier = tier_of id in
    if ltb_ℤ tier (pos 0) then id ∷ [] else take (pos_part tier + 1) product_ladder

abbrev pub entry_product_id : ProductId
entry_product_id = ai_income_99

unfoldable pub next_rung : ProductId → Option ProductId
unfolding tier_of
next_rung id =
    let tier = tier_of id in
    if ltb_ℤ tier (pos 0) then none else get_elem? product_ladder (pos_part tier + 1)
