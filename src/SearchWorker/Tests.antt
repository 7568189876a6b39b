-- ===== src/SearchWorker/Tests.antt =====
-- A waiting search, domain calls that note for whom they are made, and the theorems at these inputs.
use ai_client_acquisition_os.Common.{
  ◌≡◌, refl, ◌∙◌, false, List, [], ◌∷◌, none, some, String, inr, count_by, ◌=ˢ◌,
}
use ai_client_acquisition_os.Common.{inl, Memᴰ, true, ◌+◌, ◌≤◌}
use ai_client_acquisition_os.SearchWorker.{settle_failure}
use ai_client_acquisition_os.Search.Repository.{record_attempt_failure, release_expired_leases}
use ai_client_acquisition_os.Search.Repository.{
  pending, complete, StoredSearch, ServiceProfileFields, claim_next_pending, next_pending,
  complete_claimed,
}
use ai_client_acquisition_os.Common.Rows.{update_where}
use ai_client_acquisition_os.SearchWorker.{
  SearchWorld, empty, completed, retry, failed, claim_and_process_next_search, process_claimed,
  settle, settle_success,
}
use ai_client_acquisition_os.SearchWorker.Pipeline.{
  Call, SearchWorkerDeps, run_canonical_pipeline, process_prospects, process_prospect,
  find_or_create_opportunity, prepare,
}
use ai_client_acquisition_os.SearchWorker.Pipeline.Scope.{
  CallsWithin, run_canonical_pipeline-Within,
}
use ai_client_acquisition_os.SearchWorker.Answers.{
  Answered, claim_of, claim_and_process_next_search-Answered,
}
use ai_client_acquisition_os.SearchWorker.PollLoop.{PollRound, run_search_worker_poll_loop}
use ai_client_acquisition_os.SearchWorker.PollLoop.Backlog.{backlog, has_distinct_ids}
use ai_client_acquisition_os.SearchWorker.PollLoop.Paid.{attempts_of}
use ai_client_acquisition_os.SearchWorker.PollLoop.Attempts.{run_search_worker_poll_loop-attempts}

abbrev noted : {A : Type 0} → A → String → String → Call (List String) A
noted answer user_id id users = (user_id ∷ users, inr answer)

abbrev deps : SearchWorkerDeps (List String)
deps = record {
  run_discovery_for_owner = noted ("p1" ∷ "p2" ∷ []);
  run_research_for_owner = noted tt;
  find_by_prospect_id = noted none;
  create_opportunity_for_owner = noted "o1";
  evaluate_qualification_for_owner = some (noted tt);
  evaluate_personalization_for_owner = some (noted tt);
  prepare_outreach_for_owner = none;
  prepare_follow_up_for_owner = none;
}

abbrev fields : ServiceProfileFields
fields = record {
  service = "web";
  target_customer = "clinics";
  geography = "Pune";
  min_project_value_paise = 5000000;
  triggers = [];
  keywords = [];
  rationale = "";
}

abbrev waiting : StoredSearch
waiting = record {
  id = "s1";
  user_id = "u1";
  service_profile_id = "sp1";
  status = pending;
  parameters = fields;
  attempts = 0;
  last_error = none;
  lease_owner = none;
  lease_expires_at = none;
  idempotency_key = none;
  created_at = 10;
  updated_at = 10;
}

abbrev world : SearchWorld
world = record {
  worker_id = "w1";
  lease_duration_ms = none;
  claim_now = 100;
  settle_now = 200;
  locked = λ id. false;
  meanwhile = λ rows. rows;
  complete_error = none;
}

abbrev finished : StoredSearch
finished = record waiting { status = complete; attempts = 1; updated_at = 200 }

-- One discovery, and five calls for each of the two prospects, all for the owner.
run_completed : claim_and_process_next_search deps world [] (waiting ∷ []) ≡ (
  "u1" ∷ "u1" ∷ "u1" ∷ "u1" ∷ "u1" ∷ "u1" ∷ "u1" ∷ "u1" ∷ "u1" ∷ "u1" ∷ "u1" ∷ [],
  (finished ∷ [], completed "s1" 2),
)
unfolding claim_and_process_next_search process_claimed settle settle_success claim_next_pending
    next_pending complete_claimed update_where run_canonical_pipeline process_prospects
    process_prospect find_or_create_opportunity prepare
run_completed = refl

claim_and_process_next_search-Answered_example :
    Answered deps world []
      (waiting ∷ [])
      (claim_of deps world (waiting ∷ []))
      (claim_and_process_next_search deps world [] (waiting ∷ []))
claim_and_process_next_search-Answered_example =
    claim_and_process_next_search-Answered deps world [] (waiting ∷ [])

-- The notes on the other user are as many as before.
abbrev SameForOther : List String → List String → Type 0
SameForOther s t = count_by (λ u. u =ˢ "u2") t ≡ count_by (λ u. u =ˢ "u2") s

calls_of_owner : CallsWithin deps SameForOther "u1"
calls_of_owner = record {
  discovery = λ id s. refl;
  research = λ id s. refl;
  lookup = λ id s. refl;
  creation = λ id s. refl;
  qualification = λ id s. refl;
  personalization = λ id s. refl;
  outreach = tt;
  follow_up = tt;
}

run_canonical_pipeline-Within_example :
    SameForOther ("u2" ∷ []) (run_canonical_pipeline deps waiting ("u2" ∷ [])).0
run_canonical_pipeline-Within_example =
    run_canonical_pipeline-Within SameForOther (λ s. refl) (λ s t u p q. q ∙ p) deps waiting
      calls_of_owner ("u2" ∷ [])

-- The discovery that always throws.
abbrev failing : SearchWorkerDeps (List String)
failing = record deps {
  run_discovery_for_owner = λ user_id id users. (user_id ∷ users, inl "boom");
}

abbrev round : PollRound
round = record {
  aborted_before = false;
  aborted_released = false;
  aborted_after = false;
  release_now = 50;
  world = world;
}

abbrev rounds : List PollRound
rounds = round ∷ round ∷ round ∷ round ∷ []

-- The search has failed for good after three runs, and the loop sleeps.
loop_sleeps :
    (run_search_worker_poll_loop failing rounds [] (waiting ∷ [])).outcomes
    ≡ retry "s1" 1 "boom" ∷ retry "s1" 2 "boom" ∷ failed "s1" 3 "boom" ∷ empty ∷ []
unfolding run_search_worker_poll_loop claim_and_process_next_search process_claimed settle
    settle_failure claim_next_pending next_pending record_attempt_failure update_where
    run_canonical_pipeline release_expired_leases
loop_sleeps = refl

in_rounds : {other : PollRound} → Memᴰ other rounds → other ≡ round
in_rounds (Memᴰ.head e) = e
in_rounds (Memᴰ.tail (Memᴰ.head e)) = e
in_rounds (Memᴰ.tail (Memᴰ.tail (Memᴰ.head e))) = e
in_rounds (Memᴰ.tail (Memᴰ.tail (Memᴰ.tail (Memᴰ.head e)))) = e
in_rounds (Memᴰ.tail (Memᴰ.tail (Memᴰ.tail (Memᴰ.tail m)))) = elim m [ ]

alone_of :
    (other : PollRound)
    → other ≡ round
    → (rows : List StoredSearch) → other.world.meanwhile rows ≡ rows
alone_of other e rows = rw e refl

alone :
    (round : PollRound)
    → Memᴰ round rounds
    → (rows : List StoredSearch) → round.world.meanwhile rows ≡ rows
alone other m = alone_of other (in_rounds m)

distinct : has_distinct_ids (waiting ∷ []) ≡ true
unfolding has_distinct_ids
distinct = refl

run_search_worker_poll_loop-attempts_example :
    attempts_of (run_search_worker_poll_loop failing rounds [] (waiting ∷ [])).outcomes
      + backlog (run_search_worker_poll_loop failing rounds [] (waiting ∷ [])).rows
    ≤ backlog (waiting ∷ [])
run_search_worker_poll_loop-attempts_example =
    run_search_worker_poll_loop-attempts failing rounds [] (waiting ∷ []) alone distinct
