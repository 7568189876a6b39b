-- ===== src/Checkout/Tests.antt =====
-- A checkout that is submitted twice at once, and the theorem at it.
use ai_client_acquisition_os.Common.{◌≡◌, refl, ◌≤◌, Memᴰ, List, [], ◌∷◌, some}
use ai_client_acquisition_os.Checkout.{
  OrderPaymentInfo, CheckoutEvent, submit, order_created, payment_submitted, checkout_dismissed,
  idle, order_of, run, checkout_reducer, confirming, is_busy,
}
use ai_client_acquisition_os.Checkout.Orders.{run-shown, opened, submitted}

abbrev order : OrderPaymentInfo
order = record {
  order_id = "o1";
  razorpay_order_id = "order_1";
  razorpay_key_id = "rzp";
  amount_paise = 9900;
  currency = "INR";
  product_id = "AI_INCOME_99";
  product_name = "AI Income";
  status = "created";
}

abbrev events : List CheckoutEvent
events =
    submit ∷ submit ∷ order_created order ∷ submit ∷ payment_submitted ∷ checkout_dismissed ∷ []

shown : run idle events ≡ confirming order
unfolding run checkout_reducer
shown = refl

counted : (opened idle events ≡ 1) × (submitted idle events ≡ 1)
unfolding opened submitted checkout_reducer is_busy
counted = (refl, refl)

shown_order : order_of (run idle events) ≡ some order
unfolding run checkout_reducer
shown_order = refl

run-shown_example : Memᴰ (order_created order) events × (opened idle events ≤ submitted idle events)
run-shown_example = run-shown events order shown_order
