-- ===== src/MetaEvents/Repository.antt =====
-- apps/worker/src/metaEvents/repository.ts and pgRepository.ts: the table of events, and the SQL
-- statements of the queue. Each statement is one pass over the rows, as the database runs it.
pub mod Keys
pub mod Moves
pub mod History
pub mod Fencing
pub mod Claims
use ai_client_acquisition_os.Common.{
  ℕ, zero, suc, ◌+◌, Bool, true, false, not, ◌&&◌, ◌||◌, List, [], ◌∷◌, Option, none, some, map,
  String, ltb, leb, ◌==◌, ◌=ˢ◌, if◌then◌else◌, keep, any, take, count_by,
}
use ai_client_acquisition_os.Common.Rows.{update_where}

pub data Status : Type 0 where
  pending processing sent failed dead_letter : Status

-- The text of `last_error`: one constructor for each template in the source, with what it prints.
pub data Note : Type 0 where
  unsupported_event : String → Note
  no_dispatch_context : String → Note
  invalid_payload : String → Note
  failure : String → Note
  delivered_unconfirmed : String → String → ℕ → Note

pub record MetaEventRow : Type 0 where
  pub id : String
  pub meta_event_id : String
  pub order_id : String
  pub event_name : String
  pub product : String
  pub value_paise : ℕ
  pub currency : String
  pub status : Status
  pub attempts : ℕ
  pub next_attempt_at : ℕ
  pub created_at : ℕ
  pub lease_owner : Option String
  pub lease_expires_at : Option ℕ
  pub last_error : Option Note
  pub updated_at : ℕ

pub record ClaimedMetaEvent : Type 0 where
  pub id : String
  pub meta_event_id : String
  pub order_id : String
  pub event_name : String
  pub product : String
  pub value_paise : ℕ
  pub currency : String
  pub attempts : ℕ

pub record ClaimInput : Type 0 where
  pub worker_id : String
  pub now : ℕ
  pub lease_expires_at : ℕ
  pub limit : ℕ

pub record CompleteInput : Type 0 where
  pub id : String
  pub worker_id : String
  pub now : ℕ

pub record RetryInput : Type 0 where
  pub complete : CompleteInput
  pub open complete use *
  pub attempts : ℕ
  pub next_attempt_at : ℕ
  pub last_error : Note

pub record DeadLetterInput : Type 0 where
  pub complete : CompleteInput
  pub open complete use *
  pub attempts : ℕ
  pub last_error : Note

pub record AmbiguousSendInput : Type 0 where
  pub complete : CompleteInput
  pub open complete use *
  pub meta_event_id : String

abbrev pub is_pending : Status → Bool
is_pending pending = true
is_pending _ = false

abbrev pub is_processing : Status → Bool
is_processing processing = true
is_processing _ = false

unfoldable pub map_row : MetaEventRow → ClaimedMetaEvent
map_row r = record {
  id = r.id;
  meta_event_id = r.meta_event_id;
  order_id = r.order_id;
  event_name = r.event_name;
  product = r.product;
  value_paise = r.value_paise;
  currency = r.currency;
  attempts = r.attempts;
}

-- `ORDER BY next_attempt_at ASC, created_at ASC`.
abbrev pub is_before : MetaEventRow → MetaEventRow → Bool
is_before a b =
    ltb a.next_attempt_at b.next_attempt_at
    || ((a.next_attempt_at == b.next_attempt_at) && ltb a.created_at b.created_at)

pub insert_row : MetaEventRow → List MetaEventRow → List MetaEventRow
insert_row r [] = r ∷ []
insert_row r (s ∷ rows) =
    let later = s ∷ insert_row r rows in if is_before s r then later else r ∷ s ∷ rows

pub order_rows : List MetaEventRow → List MetaEventRow
unfolding insert_row
order_rows [] = []
order_rows (r ∷ rows) = insert_row r (order_rows rows)

-- `status = 'PENDING' AND next_attempt_at <= now`, and the row is not locked by another statement.
abbrev pub is_claimable : (String → Bool) → ℕ → MetaEventRow → Bool
is_claimable locked now r = is_pending r.status && leb r.next_attempt_at now && not (locked r.id)

-- The inner `SELECT … FOR UPDATE SKIP LOCKED LIMIT`.
unfoldable pub select_claimable : (String → Bool) → ClaimInput → List MetaEventRow → List String
unfolding order_rows
select_claimable locked input rows =
    map (λ (r : MetaEventRow). r.id)
      (take input.limit (order_rows (keep (is_claimable locked input.now) rows)))

abbrev pub is_picked : List String → MetaEventRow → Bool
is_picked ids r = any (λ id. id =ˢ r.id) ids

abbrev pub lease_to : ClaimInput → ℕ → MetaEventRow → MetaEventRow
lease_to input db_now r = record r {
  status = processing;
  lease_owner = some input.worker_id;
  lease_expires_at = some input.lease_expires_at;
  updated_at = db_now;
}

-- `claim`: `locked` tells which rows other statements hold at that moment, `db_now` is SQL's `now()`.
unfoldable pub claim :
    (String → Bool) → ℕ → ClaimInput → List MetaEventRow → List MetaEventRow × List ClaimedMetaEvent
unfolding select_claimable map_row
claim locked db_now input rows =
    let ids = select_claimable locked input rows in
    (
      update_where (is_picked ids) (lease_to input db_now) rows,
      map map_row (keep (is_picked ids) rows),
    )

abbrev pub is_owner : String → Option String → Bool
is_owner worker none = false
is_owner worker (some owner) = owner =ˢ worker

-- The fence: `id = $1 AND status = 'PROCESSING' AND lease_owner = $2`.
abbrev pub owns : CompleteInput → MetaEventRow → Bool
owns input r =
    (r.id =ˢ input.id) && is_processing r.status && is_owner input.worker_id r.lease_owner

-- `updatedOne`: runs an UPDATE and says whether a row matched.
unfoldable pub updated_one :
    (MetaEventRow → Bool)
    → (MetaEventRow → MetaEventRow)
    → List MetaEventRow
    → List MetaEventRow × Bool
updated_one test change rows = (update_where test change rows, any test rows)

unfoldable pub mark_sent : CompleteInput → List MetaEventRow → List MetaEventRow × Bool
unfolding updated_one
mark_sent input = updated_one (owns input) λ r. record r {
  status = sent;
  lease_owner = none;
  lease_expires_at = none;
  last_error = none;
  updated_at = input.now;
}

unfoldable pub mark_for_retry : RetryInput → List MetaEventRow → List MetaEventRow × Bool
unfolding updated_one
mark_for_retry input = updated_one (owns input.complete) λ r. record r {
  status = pending;
  attempts = input.attempts;
  next_attempt_at = input.next_attempt_at;
  last_error = some input.last_error;
  lease_owner = none;
  lease_expires_at = none;
  updated_at = input.now;
}

unfoldable pub mark_dead_letter : DeadLetterInput → List MetaEventRow → List MetaEventRow × Bool
unfolding updated_one
mark_dead_letter input = updated_one (owns input.complete) λ r. record r {
  status = dead_letter;
  attempts = input.attempts;
  last_error = some input.last_error;
  lease_owner = none;
  lease_expires_at = none;
  updated_at = input.now;
}

-- Not fenced: only the note and the time of the row change.
unfoldable pub record_ambiguous_send :
    AmbiguousSendInput → List MetaEventRow → List MetaEventRow × Bool
unfolding updated_one
record_ambiguous_send input =
    updated_one (λ r. r.id =ˢ input.id)
      λ r. record r {
        last_error = some (delivered_unconfirmed input.worker_id input.meta_event_id input.now);
        updated_at = input.now;
      }

abbrev pub is_expired : ℕ → Option ℕ → Bool
is_expired now none = false
is_expired now (some at) = leb at now

abbrev pub is_abandoned : ℕ → MetaEventRow → Bool
is_abandoned now r = is_processing r.status && is_expired now r.lease_expires_at

unfoldable pub release_expired_leases : ℕ → List MetaEventRow → List MetaEventRow × ℕ
release_expired_leases now rows = (
  update_where (is_abandoned now)
      (λ r. record r {
        status = pending;
        lease_owner = none;
        lease_expires_at = none;
        updated_at = now;
      })
      rows,
  count_by (is_abandoned now) rows,
)
