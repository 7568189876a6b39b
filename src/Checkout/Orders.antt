-- ===== src/Checkout/Orders.antt =====
-- apps/web/src/checkout/machine.ts: where the order of a checkout comes from, over any events.
use ai_client_acquisition_os.Common.{
  Bool, false, String, ◌=ˢ◌, =ˢ_iff, ◌≡◌, refl, sym, ◌∙◌, ℕ, ◌+◌, ◌≤◌, List, [], ◌∷◌, none, some,
  Memᴰ, inl, inr, ◌⊎◌, arith, if◌then◌else◌,
}
use ai_client_acquisition_os.Checkout.{
  CheckoutState, CheckoutEvent, OrderPaymentInfo, checkout_reducer, order_of, run, is_busy, idle,
  creating, opening, confirming, dismissed, failed, submit, checkout_opened, payment_submitted,
  checkout_dismissed, retry, order_created, order_failed, payment_failed,
}

-- An event keeps the order, forgets it or, if it is ORDER_CREATED, brings it.
abbrev Handled : CheckoutState → CheckoutEvent → Type 0
Handled state event =
    (order_of (checkout_reducer state event) ≡ order_of state)
    ⊎ (order_of (checkout_reducer state event) ≡ none)
    ⊎ ((order : OrderPaymentInfo) × (event ≡ order_created order)
        × (order_of (checkout_reducer state event) ≡ some order))

order_of-submit : (state : CheckoutState) → Handled state submit
unfolding checkout_reducer
order_of-submit idle = inr (inl refl)
order_of-submit creating = inl refl
order_of-submit (opening o) = inl refl
order_of-submit (confirming o) = inr (inl refl)
order_of-submit (dismissed o) = inr (inl refl)
order_of-submit (failed error o) = inr (inl refl)

order_of-created :
    (state : CheckoutState) (order : OrderPaymentInfo) → Handled state (order_created order)
unfolding checkout_reducer
order_of-created idle order = inl refl
order_of-created creating order = inr (inr (order, refl, refl))
order_of-created (opening o) order = inl refl
order_of-created (confirming o) order = inl refl
order_of-created (dismissed o) order = inl refl
order_of-created (failed error o) order = inl refl

order_of-submitted : (state : CheckoutState) → Handled state payment_submitted
unfolding checkout_reducer
order_of-submitted idle = inl refl
order_of-submitted creating = inl refl
order_of-submitted (opening o) = inl refl
order_of-submitted (confirming o) = inl refl
order_of-submitted (dismissed o) = inl refl
order_of-submitted (failed error none) = inl refl
order_of-submitted (failed error (some o)) = inl refl

order_of-dismissed : (state : CheckoutState) → Handled state checkout_dismissed
unfolding checkout_reducer
order_of-dismissed idle = inl refl
order_of-dismissed creating = inl refl
order_of-dismissed (opening o) = inl refl
order_of-dismissed (confirming o) = inl refl
order_of-dismissed (dismissed o) = inl refl
order_of-dismissed (failed error o) = inl refl

order_of-retry : (state : CheckoutState) → Handled state retry
unfolding checkout_reducer
order_of-retry idle = inl refl
order_of-retry creating = inl refl
order_of-retry (opening o) = inl refl
order_of-retry (confirming o) = inl refl
order_of-retry (dismissed o) = inr (inl refl)
order_of-retry (failed error o) = inr (inl refl)

order_of-handled : (state : CheckoutState) (event : CheckoutEvent) → Handled state event
unfolding checkout_reducer
order_of-handled state submit = order_of-submit state
order_of-handled state checkout_opened = inl refl
order_of-handled state payment_submitted = order_of-submitted state
order_of-handled state checkout_dismissed = order_of-dismissed state
order_of-handled state retry = order_of-retry state
order_of-handled state (order_created order) = order_of-created state order
order_of-handled state (order_failed error) = inr (inl refl)
order_of-handled state (payment_failed error) = inl refl

-- The order shown after the events was there before them, or one of them brought it.
order_of-run :
    (state : CheckoutState) (events : List CheckoutEvent) (order : OrderPaymentInfo)
    → order_of (run state events) ≡ some order
    → (order_of state ≡ some order) ⊎ Memᴰ (order_created order) events
unfolding run
order_of-run state [] order e = inl e
order_of-run state (event ∷ events) order e =
    elim (order_of-run (checkout_reducer state event) events order e) [
      | inr m ↦ inr (Memᴰ.tail m)
      | inl p ↦ elim (order_of-handled state event) [
        | inl kept ↦ inl (sym kept ∙ p)
        | inr (inl gone) ↦ ground arith
        | inr (inr (o, made, shown)) ↦ inr (Memᴰ.head cc)
      ]
    ]

-- 1 for a SUBMIT that starts a request.
abbrev started : CheckoutState → CheckoutEvent → ℕ
unfolding is_busy
started state submit = if is_busy state then 0 else 1
started state checkout_opened = 0
started state payment_submitted = 0
started state checkout_dismissed = 0
started state retry = 0
started state (order_created order) = 0
started state (order_failed error) = 0
started state (payment_failed error) = 0

-- 1 while a request is under way.
abbrev waiting : CheckoutState → ℕ
waiting idle = 0
waiting creating = 1
waiting (opening o) = 0
waiting (confirming o) = 0
waiting (dismissed o) = 0
waiting (failed error o) = 0

-- Whether the checkout of this order stands open.
abbrev is_open_on : String → CheckoutState → Bool
is_open_on id idle = false
is_open_on id creating = false
is_open_on id (opening o) = o.order_id =ˢ id
is_open_on id (confirming o) = false
is_open_on id (dismissed o) = false
is_open_on id (failed error o) = false

-- 1 where an order's checkout stands open after a step and did not before it.
abbrev brought : CheckoutState → CheckoutState → ℕ
brought before idle = 0
brought before creating = 0
brought before (opening o) = if is_open_on o.order_id before then 0 else 1
brought before (confirming o) = 0
brought before (dismissed o) = 0
brought before (failed error o) = 0

unfoldable pub submitted : CheckoutState → List CheckoutEvent → ℕ
unfolding checkout_reducer started
submitted state [] = 0
submitted state (event ∷ events) =
    started state event + submitted (checkout_reducer state event) events

unfoldable pub opened : CheckoutState → List CheckoutEvent → ℕ
unfolding checkout_reducer
opened state [] = 0
opened state (event ∷ events) =
    brought state (checkout_reducer state event) + opened (checkout_reducer state event) events

still_open : (o : OrderPaymentInfo) → brought (opening o) (opening o) ≡ 0
still_open o = ground (arith, =ˢ_iff o.order_id o.order_id)

waiting-handled :
    (state : CheckoutState) (event : CheckoutEvent)
    → waiting (checkout_reducer state event) + brought state (checkout_reducer state event)
      ≤ waiting state + started state event
unfolding checkout_reducer started is_busy
waiting-handled idle submit = omega arith
waiting-handled creating submit = omega arith
waiting-handled (opening o) submit = omega (arith, still_open o)
waiting-handled (confirming o) submit = omega arith
waiting-handled (dismissed o) submit = omega arith
waiting-handled (failed reason o) submit = omega arith
waiting-handled idle checkout_opened = omega arith
waiting-handled creating checkout_opened = omega arith
waiting-handled (opening o) checkout_opened = omega (arith, still_open o)
waiting-handled (confirming o) checkout_opened = omega arith
waiting-handled (dismissed o) checkout_opened = omega arith
waiting-handled (failed reason o) checkout_opened = omega arith
waiting-handled idle payment_submitted = omega arith
waiting-handled creating payment_submitted = omega arith
waiting-handled (opening o) payment_submitted = omega arith
waiting-handled (confirming o) payment_submitted = omega arith
waiting-handled (dismissed o) payment_submitted = omega arith
waiting-handled (failed reason none) payment_submitted = omega arith
waiting-handled (failed reason (some o)) payment_submitted = omega arith
waiting-handled idle checkout_dismissed = omega arith
waiting-handled creating checkout_dismissed = omega arith
waiting-handled (opening o) checkout_dismissed = omega arith
waiting-handled (confirming o) checkout_dismissed = omega arith
waiting-handled (dismissed o) checkout_dismissed = omega arith
waiting-handled (failed reason o) checkout_dismissed = omega arith
waiting-handled idle retry = omega arith
waiting-handled creating retry = omega arith
waiting-handled (opening o) retry = omega (arith, still_open o)
waiting-handled (confirming o) retry = omega arith
waiting-handled (dismissed o) retry = omega arith
waiting-handled (failed reason o) retry = omega arith
waiting-handled idle (order_created order) = omega arith
waiting-handled creating (order_created order) = omega arith
waiting-handled (opening shown) (order_created order) = omega (arith, still_open shown)
waiting-handled (confirming shown) (order_created order) = omega arith
waiting-handled (dismissed shown) (order_created order) = omega arith
waiting-handled (failed reason shown) (order_created order) = omega arith
waiting-handled state (order_failed error) = omega arith
waiting-handled state (payment_failed error) = omega arith

opened_le :
    (state : CheckoutState) (events : List CheckoutEvent)
    → opened state events ≤ submitted state events + waiting state
unfolding opened submitted
opened_le state [] = omega arith
opened_le state (event ∷ events) =
    let rest = opened_le (checkout_reducer state event) events in
    let now = waiting-handled state event in omega arith

-- Whatever happens in a new checkout, an order that it shows was brought by an ORDER_CREATED event;
-- and the steps after which an order's checkout stands open that did not before are no more than the
-- submissions that started a request, those made while it was not busy.
pub run-shown :
    (events : List CheckoutEvent) (order : OrderPaymentInfo)
    → order_of (run idle events) ≡ some order
    → Memᴰ (order_created order) events × (opened idle events ≤ submitted idle events)
run-shown events order e = (
  elim (order_of-run idle events order e) [ inl p ↦ ground arith | inr m ↦ m ],
  (let all = opened_le idle events in omega arith),
)
