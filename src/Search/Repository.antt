-- ===== src/Search/Repository.antt =====
-- packages/core-search/src: state.ts, retry.ts and the statements of pgRepository.ts that change a row.
pub mod Budget
use ai_client_acquisition_os.Common.{
  ℕ, suc, ◌+◌, Bool, true, false, not, ◌&&◌, ◌||◌, List, [], ◌∷◌, Option, none, some, String, ltb,
  leb, any, find, count_by, ◌=ˢ◌, if◌then◌else◌,
}
use ai_client_acquisition_os.Common.Rows.{update_where}

pub data SearchStatus : Type 0 where
  pending running complete failed cancelled : SearchStatus

abbrev pub max_search_attempts : ℕ
max_search_attempts = 3

abbrev pub search_valid_transitions : SearchStatus → List SearchStatus
search_valid_transitions pending = running ∷ cancelled ∷ []
search_valid_transitions running = complete ∷ failed ∷ cancelled ∷ []
search_valid_transitions complete = []
search_valid_transitions failed = []
search_valid_transitions cancelled = []

-- `===` on statuses.
abbrev pub same_status : SearchStatus → SearchStatus → Bool
same_status pending pending = true
same_status running running = true
same_status complete complete = true
same_status failed failed = true
same_status cancelled cancelled = true
same_status _ _ = false

unfoldable pub is_valid_search_transition : SearchStatus → SearchStatus → Bool
is_valid_search_transition from to = any (same_status to) (search_valid_transitions from)

-- The snapshot of the profile.
pub record ServiceProfileFields : Type 0 where
  pub service : String
  pub target_customer : String
  pub geography : String
  pub min_project_value_paise : ℕ
  pub triggers : List String
  pub keywords : List String
  pub rationale : String

pub record StoredSearch : Type 0 where
  pub id : String
  pub user_id : String
  pub service_profile_id : String
  pub status : SearchStatus
  pub parameters : ServiceProfileFields
  pub attempts : ℕ
  pub last_error : Option String
  pub lease_owner : Option String
  pub lease_expires_at : Option ℕ
  pub idempotency_key : Option String
  pub created_at : ℕ
  pub updated_at : ℕ

abbrev pub is_of : String → String → StoredSearch → Bool
is_of user_id id r = (r.id =ˢ id) && (r.user_id =ˢ user_id)

unfoldable pub get_by_id : String → String → List StoredSearch → Option StoredSearch
get_by_id user_id id rows = find (is_of user_id id) rows

-- `CASE WHEN $4 = 'FAILED' …` and `CASE WHEN $4 = 'RUNNING' …`.
abbrev pub moved_to : SearchStatus → Option String → ℕ → StoredSearch → StoredSearch
moved_to to error now r = record r {
  status = to;
  last_error = if same_status to failed then error else r.last_error;
  attempts = if same_status to running then r.attempts + 1 else r.attempts;
  updated_at = now;
}

abbrev pub is_at : String → String → SearchStatus → StoredSearch → Bool
is_at user_id id from r = is_of user_id id r && same_status r.status from

abbrev pub moved_row : SearchStatus → Option String → ℕ → Option StoredSearch → Option StoredSearch
moved_row to error now none = none
moved_row to error now (some r) = some (moved_to to error now r)

-- The compare-and-swap; the answer is the row after it.
unfoldable pub transition :
    String
    → String
    → SearchStatus
    → SearchStatus
    → Option String
    → ℕ
    → List StoredSearch
    → List StoredSearch × Option StoredSearch
unfolding update_where
transition user_id id from to error now rows = (
  update_where (is_at user_id id from) (moved_to to error now) rows,
  moved_row to error now (find (is_at user_id id from) rows),
)

-- `ORDER BY created_at ASC LIMIT 1` over the pending rows that no other statement holds.
abbrev pub earlier : StoredSearch → Option StoredSearch → Option StoredSearch
earlier r none = some r
earlier r (some s) = if ltb s.created_at r.created_at then some s else some r

unfoldable pub next_pending : (String → Bool) → List StoredSearch → Option StoredSearch
next_pending locked [] = none
next_pending locked (r ∷ rows) =
    let rest = next_pending locked rows in
    if same_status r.status pending && not (locked r.id) then earlier r rest else rest

abbrev pub lease_to : String → ℕ → ℕ → StoredSearch → StoredSearch
lease_to worker_id now lease_expires_at r = record r {
  status = running;
  lease_owner = some worker_id;
  lease_expires_at = some lease_expires_at;
  attempts = r.attempts + 1;
  updated_at = now;
}

abbrev pub claim_picked :
    String
    → ℕ
    → ℕ
    → List StoredSearch
    → Option StoredSearch
    → List StoredSearch × Option StoredSearch
claim_picked worker_id now lease_expires_at rows none = (rows, none)
claim_picked worker_id now lease_expires_at rows (some picked) = (
  update_where (λ r. r.id =ˢ picked.id) (lease_to worker_id now lease_expires_at) rows,
  some (lease_to worker_id now lease_expires_at picked),
)

unfoldable pub claim_next_pending :
    (String → Bool) → String → ℕ → ℕ → List StoredSearch → List StoredSearch × Option StoredSearch
unfolding next_pending
claim_next_pending locked worker_id now lease_expires_at rows =
    claim_picked worker_id now lease_expires_at rows (next_pending locked rows)

abbrev pub is_expired : ℕ → Option ℕ → Bool
is_expired now none = false
is_expired now (some at) = leb at now

abbrev pub is_abandoned : ℕ → StoredSearch → Bool
is_abandoned now r = same_status r.status running && is_expired now r.lease_expires_at

unfoldable pub release_expired_leases : ℕ → List StoredSearch → List StoredSearch × ℕ
unfolding update_where
release_expired_leases now rows = (
  update_where (is_abandoned now)
      (λ r. record r {
        status = pending;
        lease_owner = none;
        lease_expires_at = none;
        updated_at = now;
      })
      rows,
  count_by (is_abandoned now) rows,
)

abbrev pub is_owner : String → Option String → Bool
is_owner worker none = false
is_owner worker (some owner) = owner =ˢ worker

-- The fence: `id = $1 AND status = 'RUNNING' AND lease_owner = $2`.
abbrev pub owns : String → String → StoredSearch → Bool
owns id worker_id r =
    (r.id =ˢ id) && same_status r.status running && is_owner worker_id r.lease_owner

abbrev pub completed_row : ℕ → StoredSearch → StoredSearch
completed_row now r = record r {
  status = complete;
  lease_owner = none;
  lease_expires_at = none;
  updated_at = now;
}

unfoldable pub complete_claimed : String → String → ℕ → List StoredSearch → List StoredSearch × Bool
unfolding update_where
complete_claimed id worker_id now rows =
    (update_where (owns id worker_id) (completed_row now) rows, any (owns id worker_id) rows)

abbrev pub status_after_failure : ℕ → StoredSearch → SearchStatus
status_after_failure max_attempts r = if leb max_attempts r.attempts then failed else pending

abbrev pub failed_row : ℕ → String → ℕ → StoredSearch → StoredSearch
failed_row now error max_attempts r = record r {
  status = status_after_failure max_attempts r;
  last_error = some error;
  lease_owner = none;
  lease_expires_at = none;
  updated_at = now;
}

-- The answer is the new status of the row, or `none` where the fence holds.
unfoldable pub record_attempt_failure :
    String → String → ℕ → String → ℕ → List StoredSearch → List StoredSearch × Option SearchStatus
unfolding update_where
record_attempt_failure id worker_id now error max_attempts rows = (
  update_where (owns id worker_id) (failed_row now error max_attempts) rows,
  elim (find (owns id worker_id) rows) [
    | none ↦ none
    | some r ↦ some (status_after_failure max_attempts r)
  ],
)
