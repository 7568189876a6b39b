-- ===== src/Search/Service.antt =====
-- packages/core-search/src/service.ts, for a caller whose session token has been resolved.
pub mod Owned
use ai_client_acquisition_os.Common.{
  ℕ, Bool, true, false, not, ◌&&◌, List, [], ◌∷◌, ◌++◌, Option, none, some, String, any, find, ◌=ˢ◌,
  if◌then◌else◌, or_else,
}
use ai_client_acquisition_os.Common.Text.{trim, is_blank}
use ai_client_acquisition_os.Search.Repository.{
  SearchStatus, pending, running, failed, ServiceProfileFields, StoredSearch,
  is_valid_search_transition, same_status, get_by_id, transition,
}

-- A service profile of the caller: its id and its fields.
pub record ServiceProfile : Type 0 where
  pub id : String
  pub fields : ServiceProfileFields

-- The input of `createSearch` behind its validation.
pub record CreateSearchInput : Type 0 where
  pub service_profile_id : String
  pub idempotency_key : Option String

pub data SearchError : Type 0 where
  key_conflict profile_not_found : SearchError
  invalid_transition : SearchStatus → SearchStatus → SearchError
  unique_violation : SearchError

pub data Answer : Type 0 where
  ok : StoredSearch → Answer
  not_found : Answer
  threw : SearchError → Answer

-- `NULL` equals nothing.
abbrev pub has_key : String → String → StoredSearch → Bool
has_key user_id key r =
    (r.user_id =ˢ user_id) && elim r.idempotency_key [ none ↦ false | some k ↦ k =ˢ key ]

unfoldable pub find_by_idempotency_key : String → String → List StoredSearch → Option StoredSearch
find_by_idempotency_key user_id key rows = find (has_key user_id key) rows

abbrev pub new_search : String → String → ServiceProfile → Option String → ℕ → StoredSearch
new_search row_id user_id profile key now = record {
  id = row_id;
  user_id = user_id;
  service_profile_id = profile.id;
  status = pending;
  parameters = profile.fields;
  attempts = 0;
  last_error = none;
  lease_owner = none;
  lease_expires_at = none;
  idempotency_key = key;
  created_at = now;
  updated_at = now;
}

abbrev pub key_is_taken : String → Option String → List StoredSearch → Bool
key_is_taken user_id none rows = false
key_is_taken user_id (some key) rows = any (has_key user_id key) rows

-- The insert, over the table as others have left it by then.
unfoldable pub create :
    String
    → String
    → ServiceProfile
    → Option String
    → ℕ
    → List StoredSearch
    → List StoredSearch × Answer
create row_id user_id profile key now rows =
    let row = new_search row_id user_id profile key now in
    if key_is_taken user_id key rows
    then (rows, threw unique_violation)
    else (rows ++ row ∷ [], ok row)

-- What one call does not decide: the caller's profiles, the generated id, the clock, and what other
-- calls commit between its read and its write.
pub record World : Type 0 where
  pub profile_of : String → String → Option ServiceProfile
  pub row_id : String
  pub now : ℕ
  pub meanwhile : List StoredSearch → List StoredSearch

abbrev pub with_profile :
    World
    → String
    → Option String
    → List StoredSearch
    → Option ServiceProfile
    → List StoredSearch × Answer
with_profile w user_id key rows none = (rows, threw profile_not_found)
with_profile w user_id key rows (some profile) =
    create w.row_id user_id profile key w.now (w.meanwhile rows)

abbrev pub from_profile :
    World → String → CreateSearchInput → List StoredSearch → List StoredSearch × Answer
from_profile w user_id input rows =
    with_profile w user_id input.idempotency_key rows
      (w.profile_of user_id input.service_profile_id)

abbrev pub replay :
    World
    → String
    → CreateSearchInput
    → List StoredSearch
    → Option StoredSearch
    → List StoredSearch × Answer
replay w user_id input rows none = from_profile w user_id input rows
replay w user_id input rows (some existing) =
    if existing.service_profile_id =ˢ input.service_profile_id
    then (rows, ok existing)
    else (rows, threw key_conflict)

abbrev pub by_key :
    World
    → String
    → CreateSearchInput
    → List StoredSearch
    → Option String
    → List StoredSearch × Answer
by_key w user_id input rows none = from_profile w user_id input rows
by_key w user_id input rows (some key) =
    replay w user_id input rows (find_by_idempotency_key user_id key rows)

unfoldable pub create_search :
    World → String → CreateSearchInput → List StoredSearch → List StoredSearch × Answer
unfolding create find_by_idempotency_key
create_search w user_id input rows = by_key w user_id input rows input.idempotency_key

abbrev pub error_text : String → Option String
error_text text = if is_blank text then some "unknown error" else some text

-- `input.error?.trim() || 'unknown error'`, for a transition to FAILED.
abbrev pub error_of : SearchStatus → Option String → Option String
error_of to error = if same_status to failed then error_text (trim (or_else error "")) else none

abbrev pub after_swap :
    SearchStatus
    → SearchStatus
    → List StoredSearch × Option StoredSearch
    → List StoredSearch × Answer
after_swap from to (rows, none) = (rows, threw (invalid_transition from to))
after_swap from to (rows, some updated) = (rows, ok updated)

abbrev pub move_current :
    World
    → String
    → String
    → SearchStatus
    → Option String
    → List StoredSearch
    → Option StoredSearch
    → List StoredSearch × Answer
move_current w user_id id to error rows none = (rows, not_found)
move_current w user_id id to error rows (some current) =
    if not (is_valid_search_transition current.status to)
    then (rows, threw (invalid_transition current.status to))
    else after_swap current.status to
        (transition user_id id current.status to (error_of to error) w.now (w.meanwhile rows))

unfoldable pub transition_search :
    World
    → String
    → String
    → SearchStatus
    → Option String
    → List StoredSearch
    → List StoredSearch × Answer
unfolding is_valid_search_transition get_by_id transition
transition_search w user_id id to error rows =
    move_current w user_id id to error rows (get_by_id user_id id rows)
