-- ===== src/Checkout.antt =====
-- apps/web/src/checkout: types.ts and machine.ts, the state of a checkout in the browser.
pub mod Orders
mod Tests
use ai_client_acquisition_os.Common.{
  ℕ, suc, Bool, true, false, ◌||◌, List, [], ◌∷◌, Option, none, some, String,
}
use ai_client_acquisition_os.Catalog.{ProductId}

pub record OrderPaymentInfo : Type 0 where
  pub order_id : String
  pub razorpay_order_id : String
  pub razorpay_key_id : String
  pub amount_paise : ℕ
  pub currency : String
  pub product_id : String
  pub product_name : String
  pub status : String

pub data CheckoutFailure : Type 0 where
  validation product provider network server : CheckoutFailure

pub record CheckoutError : Type 0 where
  pub kind : CheckoutFailure
  pub message : String

pub data CheckoutState : Type 0 where
  idle creating : CheckoutState
  opening confirming dismissed : OrderPaymentInfo → CheckoutState
  failed : CheckoutError → Option OrderPaymentInfo → CheckoutState

pub data CheckoutEvent : Type 0 where
  submit checkout_opened payment_submitted checkout_dismissed retry : CheckoutEvent
  order_created : OrderPaymentInfo → CheckoutEvent
  order_failed payment_failed : CheckoutError → CheckoutEvent

abbrev pub initial_checkout_state : CheckoutState
initial_checkout_state = idle

-- `'order' in state && state.order`.
abbrev pub order_of : CheckoutState → Option OrderPaymentInfo
order_of idle = none
order_of creating = none
order_of (opening order) = some order
order_of (confirming order) = some order
order_of (dismissed order) = some order
order_of (failed error order) = order

abbrev on_submit : CheckoutState → CheckoutState
on_submit creating = creating
on_submit (opening order) = opening order
on_submit idle = creating
on_submit (confirming order) = creating
on_submit (dismissed order) = creating
on_submit (failed error order) = creating

abbrev on_order_created : CheckoutState → OrderPaymentInfo → CheckoutState
on_order_created creating order = opening order
on_order_created idle order = idle
on_order_created (opening shown) order = opening shown
on_order_created (confirming shown) order = confirming shown
on_order_created (dismissed shown) order = dismissed shown
on_order_created (failed error shown) order = failed error shown

-- The second argument is `order_of` of the first.
abbrev on_payment_submitted : CheckoutState → Option OrderPaymentInfo → CheckoutState
on_payment_submitted state (some order) = confirming order
on_payment_submitted state none = state

abbrev on_dismissed : CheckoutState → CheckoutState
on_dismissed (opening order) = dismissed order
on_dismissed idle = idle
on_dismissed creating = creating
on_dismissed (confirming order) = confirming order
on_dismissed (dismissed order) = dismissed order
on_dismissed (failed error order) = failed error order

abbrev on_retry : CheckoutState → CheckoutState
on_retry (failed error order) = idle
on_retry (dismissed order) = idle
on_retry idle = idle
on_retry creating = creating
on_retry (opening order) = opening order
on_retry (confirming order) = confirming order

unfoldable pub checkout_reducer : CheckoutState → CheckoutEvent → CheckoutState
checkout_reducer state submit = on_submit state
checkout_reducer state (order_created order) = on_order_created state order
checkout_reducer state (order_failed error) = failed error none
checkout_reducer state checkout_opened = state
checkout_reducer state payment_submitted = on_payment_submitted state (order_of state)
checkout_reducer state checkout_dismissed = on_dismissed state
checkout_reducer state (payment_failed error) = failed error (order_of state)
checkout_reducer state retry = on_retry state

unfoldable pub can_submit : CheckoutState → Bool
can_submit idle = true
can_submit (failed error order) = true
can_submit (dismissed order) = true
can_submit creating = false
can_submit (opening order) = false
can_submit (confirming order) = false

unfoldable pub is_busy : CheckoutState → Bool
is_busy creating = true
is_busy (opening order) = true
is_busy idle = false
is_busy (confirming order) = false
is_busy (dismissed order) = false
is_busy (failed error order) = false

abbrev pub is_purchase_confirmed : CheckoutState → Bool
is_purchase_confirmed state = false

-- The state after the events, as `useReducer` folds them.
abbrev pub run : CheckoutState → List CheckoutEvent → CheckoutState
unfolding checkout_reducer
run state [] = state
run state (event ∷ events) = run (checkout_reducer state event) events
