-- ===== src/Payments/Webhook/Growth.antt =====
-- packages/core-payments/src/webhookPgStore.ts and webhookHandler.ts: sequences inside the webhook's
-- transaction, and how a transaction may change the database.
use ai_client_acquisition_os.Common.{
  Bool, true, false, ◌&&◌, Option, none, some, List, [], ◌∷◌, ◌++◌, String, any, ◌=ˢ◌,
  if◌then◌else◌, ◌≡◌, refl, ap, subst, ◌∙◌, arith, ◌⊎◌, inl, inr,
}
use ai_client_acquisition_os.Common.Extends.{
  Extends, Extends-refl, Extends-++, Extends-trans, any-Extends,
}
use ai_client_acquisition_os.Common.Rows.{Pairs, Pairs-refl, Pairs-trans, any-Pairs}
use ai_client_acquisition_os.Payments.Store.{
  Database, Failure, PersistedOrder, paid, WebhookEvent, Attempt, done, threw, Tx, ◌>>=◌, has_event,
  Payment,
}
use ai_client_acquisition_os.Entitlements.Repository.{Entitlement}
use ai_client_acquisition_os.MetaEvents.Repository.{MetaEventRow}

-- `P` holds of the answer and the database of an attempt that does not throw.
pub data OnDone {A : Type 0} (P : A → Database → Type 0) : Attempt A → Type 0 where
  on_done : (a : A) (db : Database) → P a db → OnDone P (done a db)
  on_throw : (e : Failure) (db : Database) → OnDone P (threw e db)

pub OnDone-if :
    {A : Type 0} (P : A → Database → Type 0) (b : Bool) (t e : Attempt A)
    → (b ≡ true → OnDone P t)
    → (b ≡ false → OnDone P e)
    → OnDone P (if b then t else e)
OnDone-if P true t e on_true on_false = on_true refl
OnDone-if P false t e on_true on_false = on_false refl

pub OnDone-option :
    {A : Type 0} {E : Type 0} (P : A → Database → Type 0) (o : Option E) (s : E → Attempt A)
    (n : Attempt A)
    → ((e : E) → OnDone P (s e))
    → OnDone P n
    → OnDone P (elim o [ some e ↦ s e | none ↦ n ])
OnDone-option P none s n on_some on_none = on_none
OnDone-option P (some e) s n on_some on_none = on_some e

OnDone-resume :
    {A B : Type 0} {P : A → Database → Type 0} {Q : B → Database → Type 0} {t : Attempt A}
    {f : A → Tx B}
    → OnDone P t
    → ((a : A) (between : Database) → P a between → OnDone Q (f a between))
    → OnDone Q (elim t [ done a db' ↦ f a db' | threw e db' ↦ threw e db' ])
OnDone-resume (on_done a between p) rest = rest a between p
OnDone-resume (on_throw e db) rest = on_throw e db

-- To go through a sequence: the rest runs from where its first part ended.
pub OnDone->>= :
    {A B : Type 0} {P : A → Database → Type 0} {Q : B → Database → Type 0} (m : Tx A) (f : A → Tx B)
    (db : Database)
    → OnDone P (m db)
    → ((a : A) (between : Database) → P a between → OnDone Q (f a between))
    → OnDone Q ((m >>= f) db)
OnDone->>= m f db h rest = OnDone-resume h rest

pub OnDone-map :
    {A : Type 0} {P Q : A → Database → Type 0} {t : Attempt A}
    → ((a : A) (after : Database) → P a after → Q a after)
    → OnDone P t
    → OnDone Q t
OnDone-map weaken (on_done a after p) = on_done a after (weaken a after p)
OnDone-map weaken (on_throw e db) = on_throw e db

at_done :
    {A : Type 0} (P : A → Database → Type 0) (a : A) (after : Database)
    → OnDone P (done a after)
    → P a after
at_done P _ _ (on_done a after p) = p

pub OnDone-done :
    {A : Type 0} (P : A → Database → Type 0) (t : Attempt A) (a : A) (after : Database)
    → OnDone P t
    → t ≡ done a after
    → P a after
OnDone-done P t a after h e = at_done P a after (subst (OnDone P) e h)

-- An order is the order that it was, with its price, or that order paid.
pub record SameOrder (o p : PersistedOrder) : Type 0 where
  pub same : record p { status = o.status } ≡ o
  pub settled : (p.status ≡ o.status) ⊎ (p.status ≡ paid)

-- What a transaction may do to the database: payments, entitlements and outbox rows are only added,
-- orders are only marked paid, and no recorded event id is lost.
pub record Grown (db after : Database) : Type 0 where
  pub orders : Pairs SameOrder db.orders after.orders
  pub payments : Extends db.payments after.payments
  pub entitlements : Extends db.entitlements after.entitlements
  pub meta_events : Extends db.meta_events after.meta_events
  pub events :
      (id : String)
      → has_event id db.webhook_events ≡ true
      → has_event id after.webhook_events ≡ true

pub SameOrder-refl : (o : PersistedOrder) → SameOrder o o
SameOrder-refl o = record { same = refl; settled = inl refl }

pub Grown-refl : (db : Database) → Grown db db
Grown-refl db = record {
  orders = Pairs-refl SameOrder SameOrder-refl db.orders;
  payments = Extends-refl db.payments;
  entitlements = Extends-refl db.entitlements;
  meta_events = Extends-refl db.meta_events;
  events = λ id h. h;
}

SameOrder-trans : (a b c : PersistedOrder) → SameOrder a b → SameOrder b c → SameOrder a c
SameOrder-trans a b c g h = record {
  same = ap (λ (o : PersistedOrder). record o { status = a.status }) h.same ∙ g.same;
  settled = elim h.settled [
    | inr q ↦ inr q
    | inl e ↦ elim g.settled [ inl d ↦ inl (e ∙ d) | inr q ↦ inr (e ∙ q) ]
  ];
}

pub Grown-trans : (a b c : Database) → Grown a b → Grown b c → Grown a c
Grown-trans a b c g h = record {
  orders = Pairs-trans SameOrder SameOrder-trans a.orders b.orders c.orders g.orders h.orders;
  payments = Extends-trans a.payments b.payments c.payments g.payments h.payments;
  entitlements =
      Extends-trans a.entitlements b.entitlements c.entitlements g.entitlements h.entitlements;
  meta_events = Extends-trans a.meta_events b.meta_events c.meta_events g.meta_events h.meta_events;
  events = λ id e. h.events id (g.events id e);
}

-- One table changes, the others stay.
module _ (db : Database) where
  pub Grown-orders :
      (orders : List PersistedOrder)
      → Pairs SameOrder db.orders orders
      → Grown db (record db { orders = orders })
  Grown-orders orders h = record {
    orders = h;
    payments = Extends-refl db.payments;
    entitlements = Extends-refl db.entitlements;
    meta_events = Extends-refl db.meta_events;
    events = λ id e. e;
  }

  pub Grown-payments : (row : Payment) → Grown db (record db { payments = db.payments ++ row ∷ [] })
  Grown-payments row = record {
    orders = Pairs-refl SameOrder SameOrder-refl db.orders;
    payments = Extends-++ db.payments (row ∷ []);
    entitlements = Extends-refl db.entitlements;
    meta_events = Extends-refl db.meta_events;
    events = λ id e. e;
  }

  pub Grown-entitlements :
      (row : Entitlement) → Grown db (record db { entitlements = db.entitlements ++ row ∷ [] })
  Grown-entitlements row = record {
    orders = Pairs-refl SameOrder SameOrder-refl db.orders;
    payments = Extends-refl db.payments;
    entitlements = Extends-++ db.entitlements (row ∷ []);
    meta_events = Extends-refl db.meta_events;
    events = λ id e. e;
  }

  pub Grown-meta_events :
      (row : MetaEventRow) → Grown db (record db { meta_events = db.meta_events ++ row ∷ [] })
  Grown-meta_events row = record {
    orders = Pairs-refl SameOrder SameOrder-refl db.orders;
    payments = Extends-refl db.payments;
    entitlements = Extends-refl db.entitlements;
    meta_events = Extends-++ db.meta_events (row ∷ []);
    events = λ id e. e;
  }

  pub Grown-webhook_events :
      (events : List WebhookEvent)
      → ((id : String) → has_event id db.webhook_events ≡ true → has_event id events ≡ true)
      → Grown db (record db { webhook_events = events })
  Grown-webhook_events events h = record {
    orders = Pairs-refl SameOrder SameOrder-refl db.orders;
    payments = Extends-refl db.payments;
    entitlements = Extends-refl db.entitlements;
    meta_events = Extends-refl db.meta_events;
    events = h;
  }

-- Only the recorded events differ.
pub record SameMoney (db after : Database) : Type 0 where
  pub orders : after.orders ≡ db.orders
  pub payments : after.payments ≡ db.payments
  pub entitlements : after.entitlements ≡ db.entitlements
  pub meta_events : after.meta_events ≡ db.meta_events

pub SameMoney-trans : (a b c : Database) → SameMoney a b → SameMoney b c → SameMoney a c
SameMoney-trans a b c g h = record {
  orders = h.orders ∙ g.orders;
  payments = h.payments ∙ g.payments;
  entitlements = h.entitlements ∙ g.entitlements;
  meta_events = h.meta_events ∙ g.meta_events;
}

pub SameMoney-events :
    (db : Database) (events : List WebhookEvent)
    → SameMoney db (record db { webhook_events = events })
SameMoney-events db events = record {
  orders = refl;
  payments = refl;
  entitlements = refl;
  meta_events = refl;
}

-- A row of the second table that fits, or one that was in the way in the first.
abbrev pub Added : {A : Type 0} → (A → Bool) → (A → Bool) → List A → List A → Type 0
Added fits in_the_way before after = (any fits after ≡ true) ⊎ (any in_the_way before ≡ true)

pub Added-Extends :
    {A : Type 0} (fits in_the_way : A → Bool) (before between after : List A)
    → Extends between after
    → Added fits in_the_way before between
    → Added fits in_the_way before after
Added-Extends fits in_the_way before between after e (inl h) =
    inl (any-Extends fits between after e h)
Added-Extends fits in_the_way before between after e (inr h) = inr h

pub Added-before :
    {A : Type 0} (fits in_the_way : A → Bool) (before between after : List A)
    → between ≡ before
    → Added fits in_the_way between after
    → Added fits in_the_way before after
Added-before fits in_the_way before between after e (inl h) = inl h
Added-before fits in_the_way before between after e (inr h) =
    inr (subst (λ t. any in_the_way t ≡ true) e h)

abbrev pub is_paid_order : String → PersistedOrder → Bool
is_paid_order order_id o = (o.id =ˢ order_id) && elim o.status [ paid ↦ true | _ ↦ false ]

-- What the later statements of a transaction cannot undo.
module _ (db after : Database) (grown : Grown db after) where
  pub Grown-has_event :
      (id : String)
      → has_event id db.webhook_events ≡ true
      → has_event id after.webhook_events ≡ true
  Grown-has_event id h = grown.events id h

  pub Grown-paid :
      (id : String)
      → any (is_paid_order id) db.orders ≡ true
      → any (is_paid_order id) after.orders ≡ true
  Grown-paid id h =
      any-Pairs SameOrder (is_paid_order id)
        (λ o p s paid_before. elim s.settled [
          | inl e ↦ ground (arith, e, ap (λ (q : PersistedOrder). q.id) s.same, paid_before)
          | inr e ↦ ground (arith, e, ap (λ (q : PersistedOrder). q.id) s.same, paid_before)
        ])
        db.orders after.orders grown.orders h
