-- ===== src/Entitlements/Repository.antt =====
-- packages/core-entitlements/src: repository.ts, accessToken.ts and the statements of
-- pgRepository.ts, over the tables of entitlements and access tokens.
use ai_client_acquisition_os.Common.{
  ℕ, Bool, not, ◌&&◌, List, [], ◌∷◌, ◌++◌, Option, none, some, String, map, keep, any, find, leb,
  ◌=ˢ◌, if◌then◌else◌, is_some, ◌⊎◌, inl, inr,
}
use ai_client_acquisition_os.Common.Text.{trim, to_lower}
use ai_client_acquisition_os.Common.Rows.{update_where}
use ai_client_acquisition_os.Catalog.{ProductId, same_product, slug}

pub record Entitlement : Type 0 where
  pub id : String
  pub customer_email : String
  pub product_slug : ProductId
  pub order_id : String
  pub granted_at : ℕ
  pub revoked_at : Option ℕ

pub record StoredAccessToken : Type 0 where
  pub customer_email : String
  pub expires_at : ℕ
  pub revoked_at : Option ℕ

-- The two tables; a token is stored under its hash, in the order of insertion.
pub record Tables : Type 0 where
  pub entitlements : List Entitlement
  pub tokens : List (String × StoredAccessToken)

unfoldable pub normalise_email : String → String
unfolding trim to_lower
normalise_email email = to_lower (trim email)

abbrev pub is_active : Entitlement → Bool
is_active e = not (is_some e.revoked_at)

unfoldable pub purchased_from : List Entitlement → List ProductId
purchased_from entitlements =
    map (λ (e : Entitlement). e.product_slug) (keep is_active entitlements)

abbrev pub is_held_by : String → Entitlement → Bool
is_held_by email e = (e.customer_email =ˢ email) && is_active e

-- The rows stand in the order of `granted_at, id`, in which the statement returns them.
unfoldable pub list_active : Tables → String → List Entitlement
unfolding normalise_email
list_active db email = keep (is_held_by (normalise_email email)) db.entitlements

abbrev pub is_conflict : String → ProductId → Entitlement → Bool
is_conflict email product e = (e.customer_email =ˢ email) && same_product e.product_slug product

pub data GrantOutcome : Type 0 where
  granted already_held : GrantOutcome

pub record GrantInput : Type 0 where
  pub customer_email : String
  pub product_slug : ProductId
  pub order_id : String

-- What the triggers on the table of entitlements read of the other tables: an order's product and
-- its address in lower case, and whether an order has a captured payment.
pub record TriggerReads : Type 0 where
  pub ordered : String → Option (String × String)
  pub is_paid_for : String → Bool

pub data TriggerError : Type 0 where
  order_product order_customer no_captured_payment : TriggerError

-- The triggers before an insertion, in the order of their names: `entitlements_match_order`, which
-- passes where there is no such order, as its comparisons with NULL do, and
-- `entitlements_require_capture`.
unfoldable pub match_order : Option (String × String) → Entitlement → Option TriggerError
unfolding slug
match_order none row = none
match_order (some (product, email)) row =
    if not (slug row.product_slug =ˢ product)
    then some order_product
    else if not (row.customer_email =ˢ email)
    then some order_customer
    else none

unfoldable pub before_insert : TriggerReads → Entitlement → Option TriggerError
unfolding match_order
before_insert reads row = elim (match_order (reads.ordered row.order_id) row) [
  | some e ↦ some e
  | none ↦ if reads.is_paid_for row.order_id then none else some no_captured_payment
]

-- What a grant answers: the statement's error, or the outcome and the entitlement.
abbrev pub Granted : Type 0
Granted = TriggerError ⊎ (GrantOutcome × Option Entitlement)

-- `ON CONFLICT (customer_email, product_slug) DO NOTHING`, which is looked at after the triggers,
-- then the read of the row that was in the way. `id` is what `gen_random_uuid()` gives.
unfoldable pub grant : TriggerReads → String → GrantInput → ℕ → Tables → Tables × Granted
unfolding normalise_email before_insert
grant reads id input now db =
    let email = normalise_email input.customer_email in
    let row : Entitlement = record {
      id = id;
      customer_email = email;
      product_slug = input.product_slug;
      order_id = input.order_id;
      granted_at = now;
      revoked_at = none;
    } in
    elim (before_insert reads row) [
      | some e ↦ (db, inl e)
      | none ↦ elim (find (is_conflict email input.product_slug) db.entitlements) [
        | some held ↦ (db, inr (already_held, some held))
        | none ↦ (record db { entitlements = db.entitlements ++ row ∷ [] }, inr (granted, some row))
      ]
    ]

-- The reason's text, which nothing reads back, is left out.
unfoldable pub revoke : String → ℕ → Tables → Tables × Bool
unfolding update_where
revoke id now db =
    let test = λ (e : Entitlement). (e.id =ˢ id) && is_active e in
    (
      record db {
        entitlements = update_where test (λ e. record e { revoked_at = some now }) db.entitlements;
      },
      any test db.entitlements,
    )

unfoldable pub find_access_token : Tables → String → Option StoredAccessToken
find_access_token db hash =
    elim (find (λ (t : String × StoredAccessToken). t.0 =ˢ hash) db.tokens) [
      | none ↦ none
      | some t ↦ some t.1
    ]

unfoldable pub save_access_token : String → String → ℕ → Tables → Tables
unfolding normalise_email
save_access_token hash email expires_at db =
    let row : StoredAccessToken = record {
      customer_email = normalise_email email;
      expires_at = expires_at;
      revoked_at = none;
    } in
    record db { tokens = db.tokens ++ (hash, row) ∷ [] }

pub data TokenRejection : Type 0 where
  unknown expired revoked : TokenRejection

pub data TokenVerdict : Type 0 where
  valid : String → TokenVerdict
  rejected : TokenRejection → TokenVerdict

unfoldable pub evaluate_access_token : Option StoredAccessToken → ℕ → TokenVerdict
evaluate_access_token none now = rejected unknown
evaluate_access_token (some stored) now =
    if is_some stored.revoked_at
    then rejected revoked
    else if leb stored.expires_at now
    then rejected expired
    else valid stored.customer_email
