-- ===== src/Entitlements/Tests.antt =====
-- A customer with two purchases, their tokens and links, and the theorems at these inputs.
use ai_client_acquisition_os.Common.{
  ◌≡◌, refl, ◌=ˢ◌, true, false, List, [], ◌∷◌, Option, none, some, String, any, if◌then◌else◌,
  arith, inl,
}
use ai_client_acquisition_os.Common.Text.{is_blank, trim, to_lower}
use ai_client_acquisition_os.Common.Int.{pos}
use ai_client_acquisition_os.Catalog.{
  ProductId, ai_income_99, ai_freelancing_499, ai_client_acquisition_1499, slug,
}
use ai_client_acquisition_os.Catalog.Ladder.{tier_of, implied_product_ids}
use Prim.Native.String as Str
use ai_client_acquisition_os.Catalog.Deliverables.{
  Deliverable, pdf, deliverables_for, find_deliverable,
}
use ai_client_acquisition_os.Entitlements.Funnel.{
  accessible_products, can_access_product, covers, funnel_state_for,
}
use ai_client_acquisition_os.Entitlements.Repository.{
  Entitlement, StoredAccessToken, Tables, GrantInput, TriggerReads, no_captured_payment,
  before_insert, match_order, is_conflict, grant, list_active, purchased_from, find_access_token,
  evaluate_access_token, normalise_email,
}
use ai_client_acquisition_os.Entitlements.Rights.{holds, GrantCall, grant_all, regrant_revoked}
use ai_client_acquisition_os.Entitlements.Access.{
  AccessContext, granted, resolve_access, require_product_access, GrantedBy,
}
use ai_client_acquisition_os.Entitlements.Grant.{
  DownloadGrantClaims, GrantRequest, valid, claims_of, create_download_grant, verify_download_grant,
  split_at_last_dot,
}
use ai_client_acquisition_os.Entitlements.Grant.Proofs.{contains_dot, verify-create}
use ai_client_acquisition_os.Entitlements.Delivery.{
  DownloadRequest, allowed, authorize_download, LinkFits, authorize_download-LinkFits,
  authorize_download-own,
}
use ai_client_acquisition_os.Entitlements.Reissue.{
  reissue_access_token, Reissued, reissue_access_token-Reissued,
}

abbrev purchases : List ProductId
purchases = ai_income_99 ∷ ai_freelancing_499 ∷ []

abbrev first_right : Entitlement
first_right = record {
  id = "e1";
  customer_email = "a@b.com";
  product_slug = ai_income_99;
  order_id = "o1";
  granted_at = 10;
  revoked_at = none;
}

abbrev second_right : Entitlement
second_right = record first_right { id = "e2"; product_slug = ai_freelancing_499; order_id = "o2" }

abbrev stored : StoredAccessToken
stored = record { customer_email = "a@b.com"; expires_at = 1000; revoked_at = none }

abbrev db : Tables
db = record { entitlements = first_right ∷ second_right ∷ []; tokens = ("h:tok", stored) ∷ [] }

abbrev purchase : GrantInput
purchase = record {
  customer_email = " A@b.com ";
  product_slug = ai_client_acquisition_1499;
  order_id = "o3";
}

abbrev refunded : Entitlement
refunded = record first_right { product_slug = ai_client_acquisition_1499; revoked_at = some 15 }

abbrev after_refund : Tables
after_refund = record db { entitlements = refunded ∷ [] }

refunded_there :
    any
      (is_conflict (normalise_email " A@b.com ") ai_client_acquisition_1499)
      after_refund.entitlements
    ≡ true
unfolding normalise_email trim to_lower
refunded_there = refl

refunded_lost : holds after_refund " A@b.com " ai_client_acquisition_1499 ≡ false
unfolding list_active normalise_email trim to_lower
refunded_lost = refl

abbrev orders_read : TriggerReads
orders_read = record {
  ordered = λ id. some ("ai_client_acquisition_1499", if id =ˢ "o3" then "a@b.com" else "c@d.com");
  is_paid_for = λ id. true;
}

-- The customer of the refund buys again, and so does another one.
abbrev bought_again : GrantCall
bought_again = record { reads = orders_read; id = "e3"; input = purchase; now = 20 }

abbrev bought_by_another : GrantCall
bought_by_another = record {
  reads = orders_read;
  id = "e4";
  input = record purchase { customer_email = "C@d.com"; order_id = "o4" };
  now = 30;
}

the_other_holds :
    holds
      (grant_all (bought_again ∷ bought_by_another ∷ []) after_refund)
      "c@d.com"
      ai_client_acquisition_1499
    ≡ true
unfolding grant before_insert match_order slug list_active normalise_email trim to_lower
the_other_holds = refl

-- Without a captured payment the statement throws.
uncaptured :
    (grant (record orders_read { is_paid_for = λ id. false }) "e3" purchase 20 after_refund).1
    ≡ inl no_captured_payment
unfolding grant before_insert match_order slug normalise_email trim to_lower
uncaptured = refl

regrant_revoked_example :
    holds
      (grant_all (bought_again ∷ bought_by_another ∷ []) after_refund)
      " A@b.com "
      ai_client_acquisition_1499
    ≡ false
regrant_revoked_example =
    regrant_revoked (bought_again ∷ bought_by_another ∷ []) after_refund " A@b.com "
      ai_client_acquisition_1499 refunded_there refunded_lost

abbrev hash : String → String
hash raw = Str.◌++◌ "h:" raw

abbrev visitor : AccessContext
visitor = record { customer_email = "a@b.com"; purchased = purchases }

visit : resolve_access hash db (some "tok") 500 ≡ granted visitor (funnel_state_for purchases)
unfolding resolve_access find_access_token evaluate_access_token list_active normalise_email trim
    to_lower purchased_from
visit = refl

product_visit :
    require_product_access hash db (some "tok") ai_freelancing_499 500
    ≡ granted visitor (funnel_state_for purchases)
unfolding require_product_access resolve_access find_access_token evaluate_access_token list_active
    normalise_email trim to_lower purchased_from can_access_product accessible_products
    implied_product_ids tier_of
product_visit = refl

abbrev link_request : GrantRequest
link_request = record {
  product_id = ai_freelancing_499;
  asset_id = "launch-scope-pricing";
  customer_email = "a@b.com";
}

abbrev link_claims : DownloadGrantClaims
link_claims = record {
  product_id = "ai_freelancing_499";
  asset_id = "launch-scope-pricing";
  customer_email = "a@b.com";
  expires_at = pos 600400;
}

abbrev sign : String → String → String
sign body secret = "bWFj"

abbrev encode : DownloadGrantClaims → String
encode claims = "Y2xhaW1z"

abbrev decode : String → Option DownloadGrantClaims
decode text = if text =ˢ "Y2xhaW1z" then some link_claims else none

sign-no_dot : (body secret : String) → contains_dot (sign body secret) ≡ false
sign-no_dot body secret = refl

encode-not_blank : (claims : DownloadGrantClaims) → is_blank (encode claims) ≡ false
encode-not_blank claims = refl

read_back :
    decode (encode (claims_of sign encode decode link_request 400))
    ≡ some (claims_of sign encode decode link_request 400)
unfolding normalise_email trim to_lower slug
read_back = refl

link_made :
    create_download_grant sign encode decode link_request "secret" 400 ≡ some "Y2xhaW1z.bWFj"
unfolding create_download_grant
link_made = refl

verify-create_example :
    verify_download_grant sign encode decode "Y2xhaW1z.bWFj" "secret" "a@b.com" 500
    ≡ valid (claims_of sign encode decode link_request 400)
verify-create_example =
    verify-create sign encode decode sign-no_dot encode-not_blank link_request "secret"
      "Y2xhaW1z.bWFj" "a@b.com" 400 500 read_back link_made refl

link_valid :
    verify_download_grant sign encode decode "Y2xhaW1z.bWFj" "secret" "a@b.com" 500
    ≡ valid link_claims
unfolding verify_download_grant split_at_last_dot normalise_email trim to_lower
link_valid = refl

abbrev download : DownloadRequest
download = record {
  access_token = some "tok";
  grant = some "Y2xhaW1z.bWFj";
  product_id = ai_freelancing_499;
  asset_id = "launch-scope-pricing";
  grant_secret = "secret";
  now = 500;
}

abbrev playbook : Deliverable
playbook = record {
  id = "launch-scope-pricing";
  title = "Scope and pricing playbook for fixed-fee projects";
  kind = pdf;
  storage_key = "ai_freelancing_499/scope-and-pricing.pdf";
  bytes = 3700000;
}

playbook_found : find_deliverable ai_freelancing_499 "launch-scope-pricing" ≡ some playbook
unfolding find_deliverable deliverables_for
playbook_found = refl

may_open : can_access_product purchases ai_freelancing_499 ≡ true
unfolding can_access_product accessible_products implied_product_ids tier_of
may_open = refl

authorize_download-own_example :
    authorize_download hash sign encode decode db download ≡ allowed playbook "a@b.com"
authorize_download-own_example =
    authorize_download-own hash sign encode decode sign-no_dot encode-not_blank db download playbook
      visitor (funnel_state_for purchases) "Y2xhaW1z.bWFj" 400 visit may_open read_back link_made
      refl (ground arith) playbook_found

download_allowed :
    authorize_download hash sign encode decode db download ≡ allowed playbook "a@b.com"
unfolding authorize_download resolve_access find_access_token evaluate_access_token list_active
    normalise_email trim to_lower purchased_from can_access_product accessible_products
    implied_product_ids tier_of verify_download_grant split_at_last_dot find_deliverable
    deliverables_for slug
download_allowed = refl

authorize_download-LinkFits_example :
    (context : AccessContext) × GrantedBy hash db (some "tok") 500 context
    × (any (λ p. covers p ai_freelancing_499) context.purchased ≡ true)
    × (context.customer_email ≡ "a@b.com")
    × LinkFits hash sign encode decode download playbook context.customer_email
authorize_download-LinkFits_example =
    authorize_download-LinkFits hash sign encode decode db download playbook "a@b.com"
      download_allowed

reissue_access_token-Reissued_example :
    Reissued hash " A@b.com" db (reissue_access_token hash "new" " A@b.com" 2000 db) "new" 2000
reissue_access_token-Reissued_example = reissue_access_token-Reissued hash "new" " A@b.com" 2000 db
