-- ===== src/Reconciliation.antt =====
-- packages/core-reconciliation/src: types.ts and the statement of detection.ts.
pub mod Recording
pub mod Groups
pub mod Cases
mod Tests
use ai_client_acquisition_os.Common.{
  ℕ, ◌+◌, Bool, true, false, not, ◌&&◌, ◌||◌, List, [], ◌∷◌, ◌++◌, map, Option, none, some, String,
  leb, ltb, ◌=ˢ◌, ◌==◌, length, if◌then◌else◌, take, keep, any, count_by, or_else,
}
use ai_client_acquisition_os.Common.Sort.{sort_by}
use ai_client_acquisition_os.Common.Rows.{update_where}
use Prim.Native.String as Str

pub data IdempotencyRecordType : Type 0 where
  order payment webhook_event meta_event : IdempotencyRecordType

pub data ReconciliationStatus : Type 0 where
  open_case in_review resolved dismissed : ReconciliationStatus

pub data DuplicateDimension : Type 0 where
  payment_id event_id meta_order_id meta_event_id : DuplicateDimension

abbrev pub duplicate_dimensions : List DuplicateDimension
duplicate_dimensions = payment_id ∷ event_id ∷ meta_order_id ∷ meta_event_id ∷ []

abbrev pub record_type_of : DuplicateDimension → IdempotencyRecordType
record_type_of payment_id = payment
record_type_of event_id = webhook_event
record_type_of meta_order_id = meta_event
record_type_of meta_event_id = meta_event

abbrev pub dimension_name : DuplicateDimension → String
dimension_name payment_id = "payment.razorpayPaymentId"
dimension_name event_id = "webhookEvent.razorpayEventId"
dimension_name meta_order_id = "metaEvent.orderId"
dimension_name meta_event_id = "metaEvent.metaEventId"

unfoldable pub qualify_key : DuplicateDimension → String → String
qualify_key dimension raw_key = Str.◌++◌ (dimension_name dimension) (Str.◌++◌ "=" raw_key)

-- What the statement sees of a row of a business table: the supposedly unique column, the time of
-- creation, the place in the order of the samples, and the columns of the allowlist as text.
pub record BusinessRow : Type 0 where
  pub key : Option String
  pub created_at : ℕ
  pub place : ℕ
  pub shown : String

-- Half open: `[start, end)`.
pub record ReconciliationWindow : Type 0 where
  pub start : ℕ
  pub end : ℕ
  pub max_rows_per_group : Option ℕ
  pub max_groups : Option ℕ

abbrev pub max_rows : ReconciliationWindow → ℕ
max_rows window = or_else window.max_rows_per_group 5

abbrev pub group_limit : ReconciliationWindow → ℕ
group_limit window = or_else window.max_groups 500

-- Whether `assertWindow` lets the window pass.
abbrev pub assert_window : ReconciliationWindow → Bool
assert_window window =
    ltb window.start window.end && leb 1 (max_rows window) && leb 1 (group_limit window)

pub record DuplicateGroup : Type 0 where
  pub dimension : DuplicateDimension
  pub record_type : IdempotencyRecordType
  pub duplicate_key : String
  pub raw_key : String
  pub record_count : ℕ
  pub rows : List String
  pub sample_truncated : Bool

abbrev pub is_key : String → Option String → Bool
is_key k none = false
is_key k (some j) = k =ˢ j

abbrev pub has_key : String → BusinessRow → Bool
has_key k row = is_key k row.key

-- The rows of the statement's CTE.
abbrev pub in_window : ReconciliationWindow → BusinessRow → Bool
in_window window row = leb window.start row.created_at && ltb row.created_at window.end

-- The number of rows that share a key: `count(*) OVER (PARTITION BY …)`.
unfoldable pub group_count : ReconciliationWindow → List BusinessRow → String → ℕ
group_count window rows k =
    count_by (λ (row : BusinessRow). has_key k row && in_window window row) rows

abbrev pub add_key : Option String → List String → List String
add_key none keys = keys
add_key (some k) keys = if any (λ j. k =ˢ j) keys then keys else k ∷ keys

-- The keys of the rows, each once; those that are null are left out.
unfoldable pub distinct_keys : List BusinessRow → List String
distinct_keys [] = []
distinct_keys (row ∷ rows) = add_key row.key (distinct_keys rows)

unfoldable pub sample_of : ReconciliationWindow → List BusinessRow → String → List String
unfolding sort_by
sample_of window rows k =
    map (λ (row : BusinessRow). row.shown)
      (take (max_rows window) (
        sort_by (λ (a : BusinessRow) (b : BusinessRow). leb a.place b.place)
          (keep (λ (row : BusinessRow). has_key k row && in_window window row) rows)))

unfoldable pub to_group :
    DuplicateDimension → ReconciliationWindow → List BusinessRow → String → DuplicateGroup
unfolding qualify_key sample_of
to_group dimension window rows k = record {
  dimension = dimension;
  record_type = record_type_of dimension;
  duplicate_key = qualify_key dimension k;
  raw_key = k;
  record_count = group_count window rows k;
  rows = sample_of window rows k;
  sample_truncated = ltb (max_rows window) (group_count window rows k);
}

-- `key_le` is the database's order of texts.
module _ (key_le : String → String → Bool) where
  -- `WHERE group_count > 1 GROUP BY key ORDER BY key`.
  unfoldable pub duplicate_keys : ReconciliationWindow → List BusinessRow → List String
  unfolding distinct_keys sort_by
  duplicate_keys window rows =
      sort_by key_le (
        keep (λ k. ltb 1 (group_count window rows k))
          (distinct_keys (keep (in_window window) rows)))

  -- `none` where the window is refused.
  unfoldable pub detect_in :
      DuplicateDimension → ReconciliationWindow → List BusinessRow → Option (List DuplicateGroup)
  unfolding to_group duplicate_keys
  detect_in dimension window rows =
      if assert_window window
      then some (
          map (to_group dimension window rows)
            (take (group_limit window) (duplicate_keys window rows)))
      else none

  abbrev pub append_groups :
      Option (List DuplicateGroup) → Option (List DuplicateGroup) → Option (List DuplicateGroup)
  append_groups none rest = none
  append_groups (some groups) none = none
  append_groups (some groups) (some rest) = some (groups ++ rest)

  -- `table` gives the rows of a dimension's table.
  unfoldable pub detect_duplicates :
      (DuplicateDimension → List BusinessRow)
      → ReconciliationWindow
      → List DuplicateDimension
      → Option (List DuplicateGroup)
  unfolding detect_in
  detect_duplicates table window [] = some []
  detect_duplicates table window (dimension ∷ dimensions) =
      append_groups (detect_in dimension window (table dimension))
        (detect_duplicates table window dimensions)
