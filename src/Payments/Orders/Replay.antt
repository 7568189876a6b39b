-- ===== src/Payments/Orders/Replay.antt =====
-- packages/core-payments/src/createOrder.ts: a request that is sent again with its key.
use ai_client_acquisition_os.Common.{
  false, List, [], ◌∷◌, Option, none, some, String, find, Bool-cases, inl, inr, ◌≡◌, sym, ap, subst,
  ◌∙◌, arith, if_both,
}
use ai_client_acquisition_os.Catalog.{Product, resolve_product}
use ai_client_acquisition_os.Payments.Store.{OrderStatus, PersistedOrder}
use ai_client_acquisition_os.Payments.Orders.{
  CreateOrderRequest, CreateOrderOptions, SafeOrderPaymentInfo, World, Answer, ok, BoundField,
  refuse_or, idempotency_conflicts, bound_of, request_bound, to_safe_order_payment_info,
  accept_replay_or_conflict, has_key, find_by_idempotency_key, key_of, with_existing, look_up,
  with_product, create_order,
}
use ai_client_acquisition_os.Payments.Orders.Created.{Kept, KeptIf, look_up-Kept}

-- What other transactions may have made of the table: every row has kept all but its status, and
-- rows were added behind.
abbrev pub Later : List PersistedOrder → List PersistedOrder → Type 0
Later [] after = Unit
Later (o ∷ orders) [] = ⊥
Later (o ∷ orders) (p ∷ after) = (p ≡ record o { status = p.status }) × Later orders after

find-Later :
    (key : String) (orders later : List PersistedOrder) (o : PersistedOrder)
    → Later orders later
    → find (has_key key) orders ≡ some o
    → (p : PersistedOrder) × (find (has_key key) later ≡ some p)
      × (p ≡ record o { status = p.status })
find-Later key [] later o kept h = absurd (ground (arith, h))
find-Later key (q ∷ orders) [] o kept h = absurd kept
find-Later key (q ∷ orders) (p ∷ later) o (same, kept) h =
    let key_kept : has_key key p ≡ has_key key q = ap (has_key key) same in
    elim (Bool-cases (has_key key q)) [
      | inl hit ↦
          let own : q ≡ o = ground (arith, h, hit) in
          (
            p,
            ground (arith, key_kept, hit),
            same ∙ ap (λ (r : PersistedOrder). record r { status = p.status }) own,
          )
      | inr miss ↦
          let rest : find (has_key key) orders ≡ some o = ground (arith, h, miss) in
          let (r, found, e) = find-Later key orders later o kept rest in
          (r, ground (arith, key_kept, miss, found), e)
    ]

refuse_or_later :
    (fields : List BoundField) (shown info : SafeOrderPaymentInfo) (status : OrderStatus)
    → refuse_or fields shown ≡ ok info
    → refuse_or fields (record shown { status = status }) ≡ ok (record info { status = status })
refuse_or_later [] shown info status h =
    let same : shown ≡ info = ground (arith, h) in
    ap (λ (i : SafeOrderPaymentInfo). ok (record i { status = status })) same
refuse_or_later (f ∷ fields) shown info status h = absurd (ground (arith, h))

module _ (w : World) (input : CreateOrderRequest) (options : CreateOrderOptions)
    (later : List PersistedOrder) (info : SafeOrderPaymentInfo) (key : String) where
  -- The answer of the later table: the order is there under the key, and the request is given it.
  abbrev pub Replayed : List PersistedOrder × Answer → Type 0
  Replayed result =
      (p : PersistedOrder) × (find_by_idempotency_key key later ≡ some p)
      × (result ≡ (later, ok (record info { status = p.status })))

  accept-later :
      (product : Product) (order p : PersistedOrder)
      → p ≡ record order { status = p.status }
      → accept_replay_or_conflict order input product options.razorpay_key_id ≡ ok info
      → accept_replay_or_conflict p input product options.razorpay_key_id
        ≡ ok (record info { status = p.status })
  unfolding accept_replay_or_conflict
  accept-later product order p same accepted =
      ap (λ (r : PersistedOrder). accept_replay_or_conflict r input product options.razorpay_key_id)
        same
      ∙ refuse_or_later (idempotency_conflicts (bound_of order) (request_bound input product))
          (to_safe_order_payment_info order options.razorpay_key_id) info p.status accepted

  look_up-Replayed :
      (product : Product) (after : List PersistedOrder)
      → w.lookup_fails ≡ false
      → Later after later
      → Kept w input options product key after info
      → Replayed (look_up w input options product (some key) later)
  unfolding look_up find_by_idempotency_key
  look_up-Replayed product after reads kept (order, found, accepted) =
      let (p, there, same) = find-Later key after later order kept found in
      (
        p,
        there,
        if_both
            (λ (r : List PersistedOrder × Answer).
              r ≡ (later, ok (record info { status = p.status })))
            w.lookup_fails _ _ (λ fails. ground (arith, fails, reads))
            (λ _.
              ap (with_existing w input options product later) there
              ∙ ap (λ (a : Answer). (later, a)) (accept-later product order p same accepted)),
      )

retry :
    (w w' : World) (input : CreateOrderRequest) (options : CreateOrderOptions)
    (orders after later : List PersistedOrder) (info : SafeOrderPaymentInfo) (key : String)
    (product : Option Product)
    → key_of options ≡ some key
    → w'.lookup_fails ≡ false
    → with_product w input options orders product ≡ (after, ok info)
    → Later after later
    → Replayed w' input options later info key (with_product w' input options later product)
retry w w' input options orders after later info key none k reads h kept =
    absurd (ground (arith, h))
retry w w' input options orders after later info key (some product) k reads h kept =
    let look = λ (v : World) (rows : List PersistedOrder) (o : Option String).
      look_up v input options product o rows in
    let first : look w orders (some key) ≡ (after, ok info) = ap (look w orders) (sym k) ∙ h in
    let answered : Kept w input options product key after info =
      subst (KeptIf w input options product key) first
        (look_up-Kept w input options product key orders k) in
    subst (λ o. Replayed w' input options later info key (look w' later o)) (sym k)
      (look_up-Replayed w' input options later info key product after reads kept answered)

-- A request with a key that got an order gets the same order when it is sent again, with the status
-- that the order's row has by then, and the table stays as it is: whatever Razorpay and the ids do,
-- and whatever rows were added and statuses changed between the two requests; the table must be
-- readable.
pub create_order_retry :
    (w w' : World) (input : CreateOrderRequest) (options : CreateOrderOptions)
    (orders after later : List PersistedOrder) (info : SafeOrderPaymentInfo) (key : String)
    → key_of options ≡ some key
    → w'.lookup_fails ≡ false
    → create_order w (some input) options orders ≡ (after, ok info)
    → Later after later
    → Replayed w' input options later info key (create_order w' (some input) options later)
unfolding create_order
create_order_retry w w' input options orders after later info key k reads h kept =
    retry w w' input options orders after later info key (resolve_product input.product_id) k reads
      h kept
