-- ===== src/Payments/Retention.antt =====
-- packages/core-payments/src/webhookRetention.ts: what is kept of the payload of a webhook.
pub mod Job
pub mod Paths
pub mod Redacted
pub mod Twice
pub mod Kept
pub mod Runs
mod Tests
use ai_client_acquisition_os.Common.{
  ℕ, zero, suc, ◌+◌, ◌*◌, min, max, Bool, true, false, not, ◌&&◌, List, [], ◌∷◌, map, Option, none,
  some, String, ltb, leb, ◌==◌, ◌=ˢ◌, if◌then◌else◌, is_some,
}
use ai_client_acquisition_os.Common.Int.{ℤ, pos, negsuc, pos_part, sub_ℕ, leb_ℤ}
use ai_client_acquisition_os.Common.Sort.{sort_by}
use Prim.Native.Char.{Char, code}
use Prim.Native.String as Str

-- A number stands as its text.
mutual
  pub data Json : Type 0 where
    null : Json
    boolean : Bool → Json
    number text : String → Json
    arr : Items → Json
    obj : Fields → Json

  pub data Items : Type 0 where
    nil : Items
    cons : Json → Items → Items

  pub data Fields : Type 0 where
    end : Fields
    field : String → Json → Fields → Fields

abbrev pub default_retention_days : ℕ
default_retention_days = 180

abbrev pub min_retention_days : ℕ
min_retention_days = 30

abbrev pub max_retention_days : ℕ
max_retention_days = 400

abbrev pub redaction_allowlist : List String
redaction_allowlist =
    "entity" ∷ "account_id" ∷ "event" ∷ "contains" ∷ "created_at" ∷ "payload.payment.entity.id"
    ∷ "payload.payment.entity.entity" ∷ "payload.payment.entity.order_id"
    ∷ "payload.payment.entity.invoice_id" ∷ "payload.payment.entity.amount"
    ∷ "payload.payment.entity.currency" ∷ "payload.payment.entity.status"
    ∷ "payload.payment.entity.method" ∷ "payload.payment.entity.captured"
    ∷ "payload.payment.entity.amount_refunded" ∷ "payload.payment.entity.refund_status"
    ∷ "payload.payment.entity.international" ∷ "payload.payment.entity.fee"
    ∷ "payload.payment.entity.tax" ∷ "payload.payment.entity.error_code"
    ∷ "payload.payment.entity.error_source" ∷ "payload.payment.entity.error_step"
    ∷ "payload.payment.entity.error_reason" ∷ "payload.payment.entity.created_at"
    ∷ "payload.order.entity.id" ∷ "payload.order.entity.entity" ∷ "payload.order.entity.amount"
    ∷ "payload.order.entity.amount_paid" ∷ "payload.order.entity.amount_due"
    ∷ "payload.order.entity.currency" ∷ "payload.order.entity.status"
    ∷ "payload.order.entity.attempts" ∷ "payload.order.entity.created_at"
    ∷ "payload.refund.entity.id" ∷ "payload.refund.entity.entity"
    ∷ "payload.refund.entity.payment_id" ∷ "payload.refund.entity.amount"
    ∷ "payload.refund.entity.currency" ∷ "payload.refund.entity.status"
    ∷ "payload.refund.entity.speed_processed" ∷ "payload.refund.entity.created_at" ∷ []

add_char : Char → List String → List String
add_char c [] = Str.◌∷◌ c Str.[] ∷ []
add_char c (part ∷ parts) = Str.◌∷◌ c part ∷ parts

-- `path.split('.')`.
unfoldable pub split_dots : String → List String
unfolding add_char
split_dots Str.[] = Str.[] ∷ []
split_dots (Str.◌∷◌ c s) =
    let rest = split_dots s in if code c == 46 then Str.[] ∷ rest else add_char c rest

-- The value of a key; `none` is `undefined`.
unfoldable pub lookup : String → Fields → Option Json
lookup key end = none
lookup key (field k value rest) = if k =ˢ key then some value else lookup key rest

abbrev pub member : String → Json → Option Json
unfolding lookup
member key null = none
member key (boolean b) = none
member key (number n) = none
member key (text s) = none
member key (arr items) = none
member key (obj fields) = lookup key fields

abbrev pub then_read : (Json → Option Json) → Option Json → Option Json
then_read read none = none
then_read read (some value) = read value

unfoldable pub read_path : Json → List String → Option Json
unfolding member
read_path source [] = some source
read_path source (part ∷ parts) = then_read (λ value. read_path value parts) (member part source)

-- `cursor[key] = value`.
unfoldable pub set_key : String → Json → Fields → Fields
set_key key value end = field key value end
set_key key value (field k old rest) =
    let later = field k old (set_key key value rest) in
    if k =ˢ key then field k value rest else later

-- The object at a key, or a new one.
abbrev pub fields_of : Option Json → Fields
fields_of none = end
fields_of (some null) = end
fields_of (some (boolean b)) = end
fields_of (some (number n)) = end
fields_of (some (text s)) = end
fields_of (some (arr items)) = end
fields_of (some (obj fields)) = fields

unfoldable pub write_path : Fields → List String → Json → Fields
unfolding set_key lookup
write_path target [] value = target
write_path target (part ∷ []) value = set_key part value target
write_path target (part ∷ (next ∷ parts)) value =
    set_key part (obj (write_path (fields_of (lookup part target)) (next ∷ parts) value)) target

abbrev pub keep_value : Fields → List String → Option Json → Fields
unfolding write_path
keep_value kept parts none = kept
keep_value kept parts (some value) = write_path kept parts value

-- The loop over the paths, `kept` being the object so far.
unfoldable pub keep_paths : Json → Fields → List (List String) → Fields
unfolding keep_value read_path
keep_paths raw kept [] = kept
keep_paths raw kept (parts ∷ paths) =
    keep_paths raw (keep_value kept parts (read_path raw parts)) paths

abbrev pub is_object : Json → Bool
is_object null = false
is_object (boolean b) = false
is_object (number n) = false
is_object (text s) = false
is_object (arr items) = false
is_object (obj fields) = true

unfoldable pub redact_by : List (List String) → Json → Fields
unfolding keep_paths
redact_by paths raw = if is_object raw then keep_paths raw end paths else end

-- The paths of the allowlist.
unfoldable pub allowed : List (List String)
unfolding split_dots
allowed = map split_dots redaction_allowlist

unfoldable pub redact_webhook_payload : Json → Fields
unfolding redact_by allowed
redact_webhook_payload raw = redact_by allowed raw
