-- ===== src/Payments/Orders.antt =====
-- packages/core-payments/src/createOrder.ts, with the repository of orderRepository.ts.
pub mod Created
pub mod Replay
use ai_client_acquisition_os.Common.{
  ℕ, Bool, true, false, not, ◌&&◌, ◌||◌, List, [], ◌∷◌, ◌++◌, Option, none, some, String, any, find,
  ◌=ˢ◌, if◌then◌else◌, or_else,
}
use ai_client_acquisition_os.Common.Text.{trim, to_lower, is_blank}
use ai_client_acquisition_os.Catalog.{ProductId, Product, slug, resolve_product}
use ai_client_acquisition_os.Payments.Store.{PersistedOrder, OrderStatus}
use ai_client_acquisition_os.Payments.Store as Store

-- A body that passed the schema.
pub record CreateOrderRequest : Type 0 where
  pub product_id : String
  pub customer_email : String
  pub customer_phone : Option String

pub record SafeOrderPaymentInfo : Type 0 where
  pub order_id : String
  pub razorpay_order_id : String
  pub razorpay_key_id : String
  pub amount_paise : ℕ
  pub currency : String
  pub product_id : String
  pub product_name : String
  pub status : OrderStatus

pub record CreateOrderOptions : Type 0 where
  pub idempotency_key : Option String
  pub razorpay_key_id : String

pub record CreateRazorpayOrderParams : Type 0 where
  pub amount_paise : ℕ
  pub currency : String
  pub receipt : String
  pub notes_product_id : String

-- What the function does not decide: whether a query of the database fails, what Razorpay answers
-- (`none`: the client throws), the generated ids, and what other requests commit before the insert.
pub record World : Type 0 where
  pub lookup_fails : Bool
  pub razorpay : CreateRazorpayOrderParams → Option String
  pub local_order_id : String
  pub row_id : String
  pub meanwhile : List PersistedOrder → List PersistedOrder
  pub insert_fails : Bool
  pub relookup_fails : Bool

pub data BoundField : Type 0 where
  product_slug customer_email customer_phone : BoundField

pub data CreateOrderError : Type 0 where
  validation invalid_product : CreateOrderError
  key_conflict : List BoundField → CreateOrderError
  razorpay_order_creation persistence : CreateOrderError

pub data Answer : Type 0 where
  ok : SafeOrderPaymentInfo → Answer
  error : CreateOrderError → Answer

unfoldable pub normalise : Option String → String
unfolding trim to_lower
normalise value = to_lower (trim (or_else value ""))

-- The fields that a key is bound to, of an order and of a request.
pub record Bound : Type 0 where
  pub product_slug : String
  pub customer_email : String
  pub customer_phone : Option String

abbrev pub note_if : Bool → BoundField → List BoundField → List BoundField
note_if true field rest = field ∷ rest
note_if false field rest = rest

abbrev differs : Option String → Option String → Bool
differs a b = not (normalise a =ˢ normalise b)

unfoldable pub idempotency_conflicts : Bound → Bound → List BoundField
idempotency_conflicts existing request =
    note_if (differs (some existing.product_slug) (some request.product_slug)) product_slug (
      note_if (differs (some existing.customer_email) (some request.customer_email)) customer_email
        (note_if (differs existing.customer_phone request.customer_phone) customer_phone []))

abbrev pub bound_of : PersistedOrder → Bound
bound_of order = record {
  product_slug = order.product_slug;
  customer_email = order.customer_email;
  customer_phone = order.customer_phone;
}

abbrev pub to_safe_order_payment_info : PersistedOrder → String → SafeOrderPaymentInfo
to_safe_order_payment_info order key_id = record {
  order_id = order.id;
  razorpay_order_id = order.razorpay_order_id;
  razorpay_key_id = key_id;
  amount_paise = order.amount_paise;
  currency = order.currency;
  product_id = order.product_slug;
  product_name = order.product_name;
  status = order.status;
}

abbrev pub refuse_or : List BoundField → SafeOrderPaymentInfo → Answer
refuse_or [] info = ok info
refuse_or (field ∷ fields) info = error (key_conflict (field ∷ fields))

abbrev pub request_bound : CreateOrderRequest → Product → Bound
request_bound input product = record {
  product_slug = slug product.id;
  customer_email = input.customer_email;
  customer_phone = input.customer_phone;
}

unfoldable pub accept_replay_or_conflict :
    PersistedOrder → CreateOrderRequest → Product → String → Answer
accept_replay_or_conflict existing input product key_id =
    refuse_or (idempotency_conflicts (bound_of existing) (request_bound input product))
      (to_safe_order_payment_info existing key_id)

-- `NULL` equals nothing.
abbrev pub has_key : String → PersistedOrder → Bool
has_key key order = elim order.idempotency_key [ none ↦ false | some k ↦ k =ˢ key ]

unfoldable pub find_by_idempotency_key : String → List PersistedOrder → Option PersistedOrder
find_by_idempotency_key key orders = find (has_key key) orders

-- The key that counts: trimmed, and `null` if nothing is left.
abbrev pub key_of : CreateOrderOptions → Option String
key_of options = elim options.idempotency_key [
  | none ↦ none
  | some k ↦ if is_blank (trim k) then none else some (trim k)
]

abbrev pub new_order :
    CreateOrderRequest → Product → Option String → String → World → PersistedOrder
new_order input product key razorpay_order_id w = record {
  id = w.row_id;
  razorpay_order_id = razorpay_order_id;
  idempotency_key = key;
  customer_email = input.customer_email;
  customer_phone = input.customer_phone;
  product_slug = slug product.id;
  product_name = product.name;
  amount_paise = product.amount_paise;
  currency = product.currency;
  status = Store.pending;
}

-- The unique indexes of the table.
abbrev pub is_taken : PersistedOrder → PersistedOrder → Bool
is_taken row order =
    (order.razorpay_order_id =ˢ row.razorpay_order_id)
    || elim row.idempotency_key [ none ↦ false | some k ↦ has_key k order ]

abbrev pub reread :
    CreateOrderRequest → CreateOrderOptions → Product → Option PersistedOrder → Answer
reread input options product none = error persistence
reread input options product (some existing) =
    accept_replay_or_conflict existing input product options.razorpay_key_id

-- After the insert ran into a unique index.
unfoldable pub after_violation :
    World
    → CreateOrderRequest
    → CreateOrderOptions
    → Product
    → Option String
    → List PersistedOrder
    → Answer
unfolding find_by_idempotency_key accept_replay_or_conflict
after_violation w input options product none orders = error persistence
after_violation w input options product (some key) orders =
    if w.relookup_fails
    then error persistence
    else reread input options product (find_by_idempotency_key key orders)

-- Step 5, over the table as it is by then.
unfoldable pub persist :
    World
    → CreateOrderRequest
    → CreateOrderOptions
    → Product
    → String
    → List PersistedOrder
    → List PersistedOrder × Answer
unfolding after_violation
persist w input options product razorpay_order_id orders =
    let row = new_order input product (key_of options) razorpay_order_id w in
    if w.insert_fails
    then (orders, error persistence)
    else if any (is_taken row) orders
    then (orders, after_violation w input options product (key_of options) orders)
    else (orders ++ row ∷ [], ok (to_safe_order_payment_info row options.razorpay_key_id))

abbrev pub with_razorpay_order :
    World
    → CreateOrderRequest
    → CreateOrderOptions
    → Product
    → List PersistedOrder
    → Option String
    → List PersistedOrder × Answer
with_razorpay_order w input options product orders none = (orders, error razorpay_order_creation)
with_razorpay_order w input options product orders (some id) =
    persist w input options product id (w.meanwhile orders)

-- Steps 4 and 5.
unfoldable pub place_order :
    World
    → CreateOrderRequest
    → CreateOrderOptions
    → Product
    → List PersistedOrder
    → List PersistedOrder × Answer
unfolding persist
place_order w input options product orders =
    let params : CreateRazorpayOrderParams = record {
      amount_paise = product.amount_paise;
      currency = product.currency;
      receipt = w.local_order_id;
      notes_product_id = slug product.id;
    } in
    with_razorpay_order w input options product orders (w.razorpay params)

abbrev pub with_existing :
    World
    → CreateOrderRequest
    → CreateOrderOptions
    → Product
    → List PersistedOrder
    → Option PersistedOrder
    → List PersistedOrder × Answer
with_existing w input options product orders none = place_order w input options product orders
with_existing w input options product orders (some existing) =
    (orders, accept_replay_or_conflict existing input product options.razorpay_key_id)

-- Step 3.
unfoldable pub look_up :
    World
    → CreateOrderRequest
    → CreateOrderOptions
    → Product
    → Option String
    → List PersistedOrder
    → List PersistedOrder × Answer
unfolding place_order find_by_idempotency_key accept_replay_or_conflict
look_up w input options product none orders = place_order w input options product orders
look_up w input options product (some key) orders =
    if w.lookup_fails
    then (orders, error persistence)
    else with_existing w input options product orders (find_by_idempotency_key key orders)

abbrev pub with_product :
    World
    → CreateOrderRequest
    → CreateOrderOptions
    → List PersistedOrder
    → Option Product
    → List PersistedOrder × Answer
with_product w input options orders none = (orders, error invalid_product)
with_product w input options orders (some product) =
    look_up w input options product (key_of options) orders

-- `none` is a body that the schema refuses.
unfoldable pub create_order :
    World
    → Option CreateOrderRequest
    → CreateOrderOptions
    → List PersistedOrder
    → List PersistedOrder × Answer
unfolding look_up
create_order w none options orders = (orders, error validation)
create_order w (some input) options orders =
    with_product w input options orders (resolve_product input.product_id)
