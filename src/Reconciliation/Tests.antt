-- ===== src/Reconciliation/Tests.antt =====
-- A payment that was stored twice, and the theorems at it.
use ai_client_acquisition_os.Common.{
  ◌≡◌, ◌↔◌, ◌+◌, refl, ℕ, List, [], ◌∷◌, some, none, true, Bool, String, length, Memᴰ, arith,
}
use ai_client_acquisition_os.Reconciliation.{
  BusinessRow, ReconciliationWindow, DuplicateGroup, payment_id, detect_in, duplicate_keys,
  group_count, in_review, to_group,
}
use ai_client_acquisition_os.Reconciliation.Recording.{CaseRow, record_cases, to_case}
use ai_client_acquisition_os.Reconciliation.Groups.{Duplicated, detect_in-exact}
use ai_client_acquisition_os.Reconciliation.Cases.{KeepsTriage, record_cases_again}

abbrev row : BusinessRow
row = record { key = some "pay_1"; created_at = 10; place = 1; shown = "a" }

abbrev rows : List BusinessRow
rows =
    row
    ∷ record row { created_at = 12; place = 2; shown = "b" }
    ∷ record row { created_at = 20; place = 3; shown = "c" }
    ∷ record row { key = none }
    ∷ []

abbrev window : ReconciliationWindow
window = record { start = 10; end = 20; max_rows_per_group = some 1; max_groups = none }

abbrev any_order : String → String → Bool
any_order a b = true

one_key : duplicate_keys any_order window rows ≡ "pay_1" ∷ []
unfolding duplicate_keys group_count
one_key = refl

detect_in-exact_example :
    (groups : List DuplicateGroup) × (detect_in any_order payment_id window rows ≡ some groups)
    × ((g : DuplicateGroup) → Memᴰ g groups ↔ Duplicated payment_id window rows g)
detect_in-exact_example =
    detect_in-exact any_order payment_id window rows refl (rw one_key (omega arith))

abbrev group : DuplicateGroup
group = to_group payment_id window rows "pay_1"

abbrev cases : List CaseRow
cases = record (to_case group 1 1) { status = in_review; duplicate_key = "other" } ∷ []

abbrev clock : ℕ → ℕ
clock left = 100

record_cases_again_example :
    let run = record_cases 50 clock (group ∷ []) cases in
    KeepsTriage cases run.cases
    × (run.created + run.updated ≡ 1)
    × (length run.cases ≡ 1 + run.created)
    × ((record_cases 60 clock (group ∷ []) run.cases).created ≡ 0)
record_cases_again_example = record_cases_again 50 60 clock clock (group ∷ []) cases
