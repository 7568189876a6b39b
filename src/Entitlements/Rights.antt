-- ===== src/Entitlements/Rights.antt =====
-- What a grant and a revocation do to the rights of a customer.
use ai_client_acquisition_os.Common.{
  ℕ, ◌≡◌, refl, Bool, true, false, List, [], ◌∷◌, ◌++◌, none, String, ◌&&◌, any, find, ◌=ˢ◌, =ˢ_iff,
  arith, inl, inr, Option-cases, Bool-cases, any-keep, any-concat, ◌∙◌, sym, subst, ◌⊎◌,
}
use ai_client_acquisition_os.Common.Rows.{any-update_where}
use ai_client_acquisition_os.Catalog.{ProductId, same_product, same_product_iff}
use ai_client_acquisition_os.Entitlements.Repository.{
  Entitlement, Tables, TriggerReads, GrantInput, before_insert, grant, revoke, list_active,
  is_held_by, is_conflict, normalise_email,
}

abbrev new_row : String → GrantInput → ℕ → Entitlement
new_row id input now = record {
  id = id;
  customer_email = normalise_email input.customer_email;
  product_slug = input.product_slug;
  order_id = input.order_id;
  granted_at = now;
  revoked_at = none;
}

-- An active entitlement of an address, as it is stored, to a product.
abbrev is_right_to : String → ProductId → Entitlement → Bool
is_right_to email product e = is_held_by email e && same_product e.product_slug product

-- Whether some active entitlement of the address is for the product.
abbrev pub holds : Tables → String → ProductId → Bool
holds db email product =
    any (λ (e : Entitlement). same_product e.product_slug product) (list_active db email)

holds-any :
    (db : Tables) (email : String) (product : ProductId)
    → holds db email product ≡ any (is_right_to (normalise_email email) product) db.entitlements
unfolding list_active
holds-any db email product =
    any-keep (λ (e : Entitlement). same_product e.product_slug product)
      (is_held_by (normalise_email email)) db.entitlements

-- A grant leaves the tables alone, or adds the new row where no row is in its way.
grant_cases :
    (reads : TriggerReads) (id : String) (input : GrantInput) (now : ℕ) (db : Tables)
    → ((grant reads id input now db).0 ≡ db)
      ⊎ ((find
              (is_conflict (normalise_email input.customer_email) input.product_slug)
              db.entitlements
            ≡ none)
          × ((grant reads id input now db).0
              ≡ record db { entitlements = db.entitlements ++ new_row id input now ∷ [] }))
unfolding grant
grant_cases reads id input now db =
    elim (Option-cases (before_insert reads (new_row id input now))) [
      | inr (e, h) ↦ inl (rw (h, grant) refl)
      | inl h ↦
          elim (Option-cases (
            find (is_conflict (normalise_email input.customer_email) input.product_slug)
              db.entitlements)) [
                | inr (held, f) ↦ inl (rw (h, f, grant) refl)
                | inl f ↦ inr (f, rw (h, f, grant) refl)
              ]
    ]

-- The address has a row for the product, and none that is active.
abbrev Lost : String → ProductId → List Entitlement → Type 0
Lost email product rows =
    (any (is_conflict email product) rows ≡ true) × (any (is_right_to email product) rows ≡ false)

unfound :
    (p : Entitlement → Bool) (rows : List Entitlement) → find p rows ≡ none → any p rows ≡ false
unfound p [] h = refl
unfound p (e ∷ rows) h = ground (arith, unfound p rows)

-- A right that could be added is one whose own row is in the way.
new_row-lost :
    (email : String) (product : ProductId) (row : Entitlement) (rows : List Entitlement)
    → any (is_conflict email product) rows ≡ true
    → any (is_conflict row.customer_email row.product_slug) rows ≡ false
    → is_right_to email product row ≡ false
new_row-lost email product row rows there h = elim (Bool-cases (is_right_to email product row)) [
  | inr e ↦ e
  | inl e ↦
      let address : row.customer_email ≡ email =
        (=ˢ_iff row.customer_email email).0 (ground (arith, e)) in
      let same : row.product_slug ≡ product =
        same_product_iff row.product_slug product (ground (arith, e)) in
      let none_there : any (is_conflict email product) rows ≡ false =
        subst (λ p. any (is_conflict email p) rows ≡ false) same
          (subst (λ a. any (is_conflict a row.product_slug) rows ≡ false) address h) in
      ground (arith, there, none_there)
]

grant-Lost :
    (reads : TriggerReads) (id : String) (input : GrantInput) (now : ℕ) (db : Tables)
    (email : String) (product : ProductId)
    → Lost email product db.entitlements
    → Lost email product (grant reads id input now db).0.entitlements
grant-Lost reads id input now db email product (there, lost) =
    elim (grant_cases reads id input now db) [
      | inl same ↦
          subst (λ (t : Tables). Lost email product t.entitlements) (sym same) (there, lost)
      | inr (fresh, added) ↦
          let row = new_row id input now in
          subst (λ (t : Tables). Lost email product t.entitlements) (sym added)
            (
              ground (arith, any-concat (is_conflict email product) db.entitlements row, there),
              ground (
                arith,
                any-concat (is_right_to email product) db.entitlements row,
                lost,
                new_row-lost email product row db.entitlements there (
                    unfound (is_conflict row.customer_email row.product_slug) db.entitlements
                      fresh),
              ),
            )
    ]

-- One grant of several: what its triggers read, the row's id, the input and the time.
pub record GrantCall : Type 0 where
  pub reads : TriggerReads
  pub id : String
  pub input : GrantInput
  pub now : ℕ

abbrev pub grant_all : List GrantCall → Tables → Tables
grant_all [] db = db
grant_all (c ∷ calls) db = grant_all calls (grant c.reads c.id c.input c.now db).0

grant_all-Lost :
    (calls : List GrantCall) (db : Tables) (email : String) (product : ProductId)
    → Lost email product db.entitlements
    → Lost email product (grant_all calls db).entitlements
grant_all-Lost [] db email product lost = lost
grant_all-Lost (c ∷ calls) db email product lost =
    grant_all-Lost calls (grant c.reads c.id c.input c.now db).0 email product
      (grant-Lost c.reads c.id c.input c.now db email product lost)

-- A customer who has a row for a product and no active one, as after a refund, gets no active one
-- back: whatever grants follow, to whom, of what, for which orders and with whatever the triggers
-- say, the product is not among the customer's active entitlements.
pub regrant_revoked :
    (calls : List GrantCall) (db : Tables) (email : String) (product : ProductId)
    → any (is_conflict (normalise_email email) product) db.entitlements ≡ true
    → holds db email product ≡ false
    → holds (grant_all calls db) email product ≡ false
regrant_revoked calls db email product there lost =
    holds-any (grant_all calls db) email product
    ∙ (grant_all-Lost calls db (normalise_email email) product
        (there, sym (holds-any db email product) ∙ lost)).1

-- Revocation takes effect at once: the row is in no list of active entitlements afterwards.
pub revoke-not_active :
    (id email : String) (now : ℕ) (db : Tables)
    → any (λ (e : Entitlement). e.id =ˢ id) (list_active (revoke id now db).0 email) ≡ false
unfolding list_active revoke
revoke-not_active id email now db =
    let held = is_held_by (normalise_email email) in
    any-keep (λ (e : Entitlement). e.id =ˢ id) held _
    ∙ any-update_where (λ e. held e && (e.id =ˢ id)) _ _ (λ e h. ground arith) (λ e h. ground arith)
        db.entitlements
