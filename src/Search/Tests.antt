-- ===== src/Search/Tests.antt =====
-- Two searches of two users, and the theorems at these inputs.
use ai_client_acquisition_os.Common.{
  ◌≡◌, refl, List, [], ◌∷◌, none, some, arith, if◌then◌else◌, ◌=ˢ◌, =ˢ_iff,
}
use ai_client_acquisition_os.Search.Repository.{
  pending, running, cancelled, failed, ServiceProfileFields, StoredSearch, record_attempt_failure,
}
use ai_client_acquisition_os.Search.Service.{
  ServiceProfile, CreateSearchInput, ok, World, create_search, create, find_by_idempotency_key,
  transition_search,
}
use ai_client_acquisition_os.Search.Service.Owned.{
  Transitioned, transition_search-Transitioned, AnswersById, create_search_retry,
}

abbrev fields : ServiceProfileFields
fields = record {
  service = "web";
  target_customer = "clinics";
  geography = "Pune";
  min_project_value_paise = 5000000;
  triggers = [];
  keywords = [];
  rationale = "";
}

abbrev waiting : StoredSearch
waiting = record {
  id = "s1";
  user_id = "u1";
  service_profile_id = "p1";
  status = pending;
  parameters = fields;
  attempts = 0;
  last_error = none;
  lease_owner = none;
  lease_expires_at = none;
  idempotency_key = none;
  created_at = 10;
  updated_at = 10;
}

abbrev held : StoredSearch
held = record waiting {
  id = "s2";
  user_id = "u2";
  status = running;
  attempts = 3;
  lease_owner = some "w1";
  lease_expires_at = some 100;
}

abbrev table : List StoredSearch
table = waiting ∷ held ∷ []

-- The third attempt's failure is final.
third_failure : (record_attempt_failure "s2" "w1" 50 "boom" 3 table).1 ≡ some failed
unfolding record_attempt_failure
third_failure = refl

abbrev leased : StoredSearch
leased = record waiting {
  status = running;
  attempts = 1;
  lease_owner = some "w2";
  lease_expires_at = some 100;
  updated_at = 20;
}

abbrev profile : ServiceProfile
profile = record { id = "p1"; fields = fields }

abbrev world : World
world = record {
  profile_of = λ user_id id. if id =ˢ "p1" then some profile else none;
  row_id = "s3";
  now = 60;
  meanwhile = λ rows. rows;
}

transition_search-Transitioned_example :
    Transitioned world "u1" "s1" cancelled table
      (transition_search world "u1" "s1" cancelled none table)
transition_search-Transitioned_example =
    transition_search-Transitioned world "u1" "s1" cancelled none table

abbrev input : CreateSearchInput
input = record { service_profile_id = "p1"; idempotency_key = some "k" }

abbrev started : StoredSearch
started = record waiting { id = "s3"; idempotency_key = some "k"; created_at = 60; updated_at = 60 }

by_id : AnswersById world
by_id user_id id p h = ground (arith, h, =ˢ_iff id "p1")

search_started : create_search world "u1" input table ≡ (waiting ∷ held ∷ started ∷ [], ok started)
unfolding create_search create find_by_idempotency_key
search_started = refl

create_search_retry_example :
    create_search (record world { now = 99 }) "u1" input (waiting ∷ held ∷ started ∷ [])
    ≡ (waiting ∷ held ∷ started ∷ [], ok started)
create_search_retry_example =
    create_search_retry world (record world { now = 99 }) "u1" "k" input table
      (waiting ∷ held ∷ started ∷ []) started by_id refl search_started
