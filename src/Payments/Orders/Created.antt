-- ===== src/Payments/Orders/Created.antt =====
-- What an answer of `createOrder` promises: the price, and the same order for the same key.
use ai_client_acquisition_os.Common.{
  true, List, [], ◌∷◌, ◌++◌, Option, none, some, String, any, find-concat, find_of_not_any,
  not_any_mono, =ˢ_iff, ◌≡◌, refl, sym, ap, subst, arith, if_both,
}
use ai_client_acquisition_os.Catalog.{Product, slug, resolve_product}
use ai_client_acquisition_os.Payments.Store.{PersistedOrder, pending}
use ai_client_acquisition_os.Payments.Orders.{
  CreateOrderRequest, CreateOrderOptions, SafeOrderPaymentInfo, World, Answer, ok, error, Bound,
  normalise, refuse_or, idempotency_conflicts, bound_of, to_safe_order_payment_info,
  accept_replay_or_conflict, has_key, find_by_idempotency_key, key_of, new_order, is_taken,
  after_violation, reread, persist, with_razorpay_order, place_order, with_existing, look_up,
  with_product, create_order,
}

no_conflict_self : (b : Bound) → idempotency_conflicts b b ≡ []
unfolding idempotency_conflicts
no_conflict_self b =
    let same = λ (s : String). (=ˢ_iff s s).1 refl in
    rw (
      same (normalise (some b.product_slug)),
      same (normalise (some b.customer_email)),
      same (normalise b.customer_phone),
    )

taken_of_key :
    (row order : PersistedOrder) (key : String)
    → row.idempotency_key ≡ some key
    → has_key key order ≡ true
    → is_taken row order ≡ true
taken_of_key row order key k h = ground (arith, k, h)

has_own_key :
    (row : PersistedOrder) (key : String) → row.idempotency_key ≡ some key → has_key key row ≡ true
has_own_key row key k = ground (arith, k, =ˢ_iff key key)

-- The table after a request: as it was, as others left it, or with one new row, an order for the
-- requested product under the catalog's price.
pub data Placed (w : World) (input : CreateOrderRequest) (options : CreateOrderOptions)
    (orders : List PersistedOrder) : List PersistedOrder → Type 0 where
  untouched : Placed w input options orders orders
  left : Placed w input options orders (w.meanwhile orders)
  added :
      (product : Product) (row : PersistedOrder)
      → resolve_product input.product_id ≡ some product
      → row.product_slug ≡ slug product.id
      → row.amount_paise ≡ product.amount_paise
      → row.currency ≡ product.currency
      → row.customer_email ≡ input.customer_email
      → row.idempotency_key ≡ key_of options
      → row.status ≡ pending
      → Placed w input options orders (w.meanwhile orders ++ row ∷ [])

module _ (w : World) (input : CreateOrderRequest) (options : CreateOrderOptions) where
  persist-Placed :
      (product : Product) (id : String) (orders : List PersistedOrder)
      → resolve_product input.product_id ≡ some product
      → Placed w input options orders (persist w input options product id (w.meanwhile orders)).0
  unfolding persist
  persist-Placed product id orders e =
      let row = new_order input product (key_of options) id w in
      if_both After w.insert_fails _ _ (λ _. left)
        λ _.
          if_both After (any (is_taken row) (w.meanwhile orders)) _ _ (λ _. left)
            λ _. added product row e refl refl refl refl refl refl
    where
      After : List PersistedOrder × Answer → Type 0
      After r = Placed w input options orders r.0

  with_razorpay_order-Placed :
      (product : Product) (orders : List PersistedOrder) (answer : Option String)
      → resolve_product input.product_id ≡ some product
      → Placed w input options orders (with_razorpay_order w input options product orders answer).0
  with_razorpay_order-Placed product orders none e = untouched
  with_razorpay_order-Placed product orders (some id) e = persist-Placed product id orders e

  place_order-Placed :
      (product : Product) (orders : List PersistedOrder)
      → resolve_product input.product_id ≡ some product
      → Placed w input options orders (place_order w input options product orders).0
  unfolding place_order
  place_order-Placed product orders e = with_razorpay_order-Placed product orders _ e

  with_existing-Placed :
      (product : Product) (orders : List PersistedOrder) (found : Option PersistedOrder)
      → resolve_product input.product_id ≡ some product
      → Placed w input options orders (with_existing w input options product orders found).0
  with_existing-Placed product orders none e = place_order-Placed product orders e
  with_existing-Placed product orders (some existing) e = untouched

  look_up-Placed :
      (product : Product) (key : Option String) (orders : List PersistedOrder)
      → resolve_product input.product_id ≡ some product
      → Placed w input options orders (look_up w input options product key orders).0
  unfolding look_up
  look_up-Placed product none orders e = place_order-Placed product orders e
  look_up-Placed product (some key) orders e =
      if_both (λ (r : List PersistedOrder × Answer). Placed w input options orders r.0)
        w.lookup_fails _ _ (λ _. untouched) (λ _. with_existing-Placed product orders _ e)

  with_product-Placed :
      (orders : List PersistedOrder) (found : Option Product)
      → resolve_product input.product_id ≡ found
      → Placed w input options orders (with_product w input options orders found).0
  with_product-Placed orders none e = untouched
  with_product-Placed orders (some product) e = look_up-Placed product (key_of options) orders e

  -- However a request ends, it adds at most one order, and that order is a pending one for the
  -- product that the request names, at the catalog's price and currency, under the customer's address
  -- and the trimmed key.
  pub create_order-Placed :
      (orders : List PersistedOrder)
      → Placed w input options orders (create_order w (some input) options orders).0
  unfolding create_order
  create_order-Placed orders = with_product-Placed orders _ refl

  -- The table answers the key with an order that the request is given.
  abbrev pub Kept : Product → String → List PersistedOrder → SafeOrderPaymentInfo → Type 0
  Kept product key after info =
      (order : PersistedOrder) × (find_by_idempotency_key key after ≡ some order)
      × (accept_replay_or_conflict order input product options.razorpay_key_id ≡ ok info)

  abbrev pub KeptIf : Product → String → List PersistedOrder × Answer → Type 0
  KeptIf product key (after, error e) = Unit
  KeptIf product key (after, ok info) = Kept product key after info

  replay-Kept :
      (product : Product) (key : String) (orders : List PersistedOrder) (existing : PersistedOrder)
      (answer : Answer)
      → find_by_idempotency_key key orders ≡ some existing
      → accept_replay_or_conflict existing input product options.razorpay_key_id ≡ answer
      → KeptIf product key (orders, answer)
  replay-Kept product key orders existing (error e) found a = tt
  replay-Kept product key orders existing (ok info) found a = (existing, found, a)

  reread-Kept :
      (product : Product) (key : String) (orders : List PersistedOrder)
      (found : Option PersistedOrder)
      → find_by_idempotency_key key orders ≡ found
      → KeptIf product key (orders, reread input options product found)
  reread-Kept product key orders none e = tt
  reread-Kept product key orders (some existing) e =
      replay-Kept product key orders existing _ e refl

  violation-Kept :
      (product : Product) (key : String) (orders : List PersistedOrder)
      → KeptIf product key (orders, after_violation w input options product (some key) orders)
  unfolding after_violation
  violation-Kept product key orders =
      if_both (λ a. KeptIf product key (orders, a)) w.relookup_fails _ _ (λ _. tt)
        (λ _. reread-Kept product key orders _ refl)

  own_request :
      (product : Product) (key : Option String) (id : String)
      → accept_replay_or_conflict
          (new_order input product key id w)
          input
          product
          options.razorpay_key_id
        ≡ ok (to_safe_order_payment_info (new_order input product key id w) options.razorpay_key_id)
  unfolding accept_replay_or_conflict
  own_request product key id =
      let row = new_order input product key id w in
      ap (λ cs. refuse_or cs (to_safe_order_payment_info row options.razorpay_key_id))
        (no_conflict_self (bound_of row))

  persist-Kept :
      (product : Product) (key id : String) (orders : List PersistedOrder)
      → key_of options ≡ some key
      → KeptIf product key (persist w input options product id orders)
  unfolding persist after_violation
  persist-Kept product key id orders k =
      let row = new_order input product (key_of options) id w in
      if_both (KeptIf product key) w.insert_fails _ _ (λ _. tt)
        λ _.
          if_both (KeptIf product key) (any (is_taken row) orders) _ _
            (λ _.
              subst
                (λ o. KeptIf product key (orders, after_violation w input options product o orders))
                (sym k) (violation-Kept product key orders))
            (λ free. (
              row,
              find-concat (has_key key) orders row
                  (find_of_not_any (has_key key) orders (
                    not_any_mono (has_key key) (is_taken row) (λ o. taken_of_key row o key k) orders
                      free))
                  (has_own_key row key k),
              own_request product (key_of options) id,
            ))

  with_razorpay_order-Kept :
      (product : Product) (key : String) (orders : List PersistedOrder) (answer : Option String)
      → key_of options ≡ some key
      → KeptIf product key (with_razorpay_order w input options product orders answer)
  with_razorpay_order-Kept product key orders none k = tt
  with_razorpay_order-Kept product key orders (some id) k =
      persist-Kept product key id (w.meanwhile orders) k

  place_order-Kept :
      (product : Product) (key : String) (orders : List PersistedOrder)
      → key_of options ≡ some key
      → KeptIf product key (place_order w input options product orders)
  unfolding place_order
  place_order-Kept product key orders k = with_razorpay_order-Kept product key orders _ k

  with_existing-Kept :
      (product : Product) (key : String) (orders : List PersistedOrder)
      (found : Option PersistedOrder)
      → key_of options ≡ some key
      → find_by_idempotency_key key orders ≡ found
      → KeptIf product key (with_existing w input options product orders found)
  with_existing-Kept product key orders none k e = place_order-Kept product key orders k
  with_existing-Kept product key orders (some existing) k e =
      replay-Kept product key orders existing _ e refl

  pub look_up-Kept :
      (product : Product) (key : String) (orders : List PersistedOrder)
      → key_of options ≡ some key
      → KeptIf product key (look_up w input options product (some key) orders)
  unfolding look_up
  look_up-Kept product key orders k =
      if_both (KeptIf product key) w.lookup_fails _ _ (λ _. tt)
        (λ _. with_existing-Kept product key orders _ k refl)
