-- ===== src/Reconciliation/Recording.antt =====
-- packages/core-reconciliation/src/repository.ts and reconcile.ts: the cases and the run.
use ai_client_acquisition_os.Common.{
  ℕ, ◌+◌, Bool, not, ◌&&◌, List, [], ◌∷◌, ◌++◌, Option, none, some, String, ◌=ˢ◌, ◌==◌, length,
  if◌then◌else◌, any,
}
use ai_client_acquisition_os.Common.Rows.{update_where}
use ai_client_acquisition_os.Reconciliation.{
  IdempotencyRecordType, ReconciliationStatus, DuplicateDimension, duplicate_dimensions,
  BusinessRow, ReconciliationWindow, DuplicateGroup, detect_duplicates, order, payment,
  webhook_event, meta_event, open_case,
}

-- A row of `idempotency_reconciliations`; the snapshot is the group and the time of its detection.
pub record CaseRow : Type 0 where
  pub record_type : IdempotencyRecordType
  pub duplicate_key : String
  pub record_count : ℕ
  pub snapshot : DuplicateGroup
  pub detected_at : ℕ
  pub status : ReconciliationStatus
  pub created_at : ℕ
  pub updated_at : ℕ

abbrev type_number : IdempotencyRecordType → ℕ
type_number order = 0
type_number payment = 1
type_number webhook_event = 2
type_number meta_event = 3

-- The unique index over type and key.
abbrev pub is_case : IdempotencyRecordType → String → CaseRow → Bool
is_case type key c = (type_number c.record_type == type_number type) && (c.duplicate_key =ˢ key)

abbrev pub to_case : DuplicateGroup → ℕ → ℕ → CaseRow
to_case group detected_at now = record {
  record_type = group.record_type;
  duplicate_key = group.duplicate_key;
  record_count = group.record_count;
  snapshot = group;
  detected_at = detected_at;
  status = open_case;
  created_at = now;
  updated_at = now;
}

-- `ON CONFLICT … DO UPDATE`: the status and the time of creation stay.
abbrev pub refreshed : CaseRow → CaseRow → CaseRow
refreshed input c = record c {
  record_count = input.record_count;
  snapshot = input.snapshot;
  detected_at = input.detected_at;
  updated_at = input.updated_at;
}

abbrev pub is_known : DuplicateGroup → List CaseRow → Bool
is_known group cases = any (is_case group.record_type group.duplicate_key) cases

unfoldable pub upsert_case : DuplicateGroup → ℕ → ℕ → List CaseRow → List CaseRow
unfolding update_where
upsert_case group detected_at now cases =
    if is_known group cases
    then update_where (is_case group.record_type group.duplicate_key)
        (refreshed (to_case group detected_at now)) cases
    else cases ++ (to_case group detected_at now ∷ [])

pub record PersistedCaseResult : Type 0 where
  pub duplicate_key : String
  pub record_type : IdempotencyRecordType
  pub is_created : Bool

pub record ReconciliationReport : Type 0 where
  pub cases : List CaseRow
  pub created : ℕ
  pub updated : ℕ
  pub results : List PersistedCaseResult
  pub affected_record_count : ℕ

-- The report of one case before the report of the others.
abbrev pub reported : DuplicateGroup → Bool → ReconciliationReport → ReconciliationReport
reported group is_new rest = record rest {
  created = if is_new then rest.created + 1 else rest.created;
  updated = if is_new then rest.updated else rest.updated + 1;
  results =
      record {
        duplicate_key = group.duplicate_key;
        record_type = group.record_type;
        is_created = is_new;
      }
      ∷ rest.results;
  affected_record_count = group.record_count + rest.affected_record_count;
}

-- The loop over the groups; `clock n` is the time when `n` groups are left.
unfoldable pub record_cases :
    ℕ → (ℕ → ℕ) → List DuplicateGroup → List CaseRow → ReconciliationReport
unfolding upsert_case
record_cases started_at clock [] cases = record {
  cases = cases;
  created = 0;
  updated = 0;
  results = [];
  affected_record_count = 0;
}
record_cases started_at clock (group ∷ groups) cases = reported group (not (is_known group cases)) (
    record_cases started_at clock groups
      (upsert_case group started_at (clock (length groups)) cases))

abbrev pub recorded :
    ℕ → (ℕ → ℕ) → List CaseRow → Option (List DuplicateGroup) → Option ReconciliationReport
unfolding record_cases
recorded started_at clock cases none = none
recorded started_at clock cases (some groups) = some (record_cases started_at clock groups cases)

-- `none` where the detection throws.
unfoldable pub reconcile_idempotency :
    (String → String → Bool)
    → (DuplicateDimension → List BusinessRow)
    → ReconciliationWindow
    → ℕ
    → (ℕ → ℕ)
    → List CaseRow
    → Option ReconciliationReport
unfolding recorded detect_duplicates
reconcile_idempotency key_le table window started_at clock cases =
    recorded started_at clock cases (detect_duplicates key_le table window duplicate_dimensions)
