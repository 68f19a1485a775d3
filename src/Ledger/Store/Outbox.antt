-- ===== src/Ledger/Store/Outbox.antt =====
-- The outbox of services/ledger_store/store.py: claiming events, and acknowledging or returning them.
use mathlib.Core.List.{flat_map}
use cryptogpt_one_intent_wal.Base.{
  ℕ, ◌+◌, zero, suc, String, Bool, true, false, not, ◌&&◌, ◌||◌, Option, none, some, List, [], ◌∷◌,
  leb, ltb, ◌==◌, if◌then◌else◌, Result, ok, err, ◌>>=◌, ◌>>◌, guard, find, select, sorted,
  update_where, map,
}
use cryptogpt_one_intent_wal.Base.Int.{ℤ, pos}
use cryptogpt_one_intent_wal.Base.Text.{codes}
use cryptogpt_one_intent_wal.Canonical.Value.{Value}
use cryptogpt_one_intent_wal.Canonical.Bytes.{utf8, leb_units}
use cryptogpt_one_intent_wal.Ledger.Rows.{
  LedgerError, validation, not_found, conflict, unsafe_store, Db, Operation, OutboxRow,
  OperationState, OutboxState, leased, delivered, reconciliation_required, confirmed, reversed,
}
use cryptogpt_one_intent_wal.Ledger.Checks.{
  LedgerHost, validate_text, validate_time, validate_positive_int, max_text, is_object,
  is_error_code,
}
use cryptogpt_one_intent_wal.Ledger.Tables.{is_event, is_operation, same_text}
use cryptogpt_one_intent_wal.Ledger.Health.{
  outbox_is_pending, outbox_is_leased, is_delivered, expired_by,
}
use cryptogpt_one_intent_wal.Ledger.Store.{LedgerStore, begin, transact}

pub record OutboxEvent : Type 0 where
  pub event_id : String
  pub operation_id : String
  pub topic : String
  pub dedupe_key : String
  pub payload : Value
  pub state : OutboxState
  pub attempts : ℕ
  pub available_at : ℕ
  pub lease_until : Option ℕ

-- `state = 'PENDING' AND available_at <= now`
abbrev pub is_ready : ℕ → OutboxRow → Bool
is_ready now e = outbox_is_pending e && leb e.available_at now

-- ORDER BY created_at, event_id
abbrev pub leb_events : OutboxRow → OutboxRow → Bool
leb_events e f =
    ltb e.created_at f.created_at
    || e.created_at == f.created_at && leb_units (codes e.event_id) (codes f.event_id)

-- LIMIT
abbrev pub take {ℓ} : {A : Type ℓ} → ℕ → List A → List A
take zero xs = []
take (suc n) [] = []
take (suc n) (x ∷ xs) = x ∷ take n xs

abbrev pub ready_ids : ℕ → ℕ → Db → List String
ready_ids now limit db =
    map (λ (e : OutboxRow). e.event_id)
      (take limit (sorted leb_events (select (is_ready now) db.outbox)))

abbrev pub lease : String → ℕ → ℕ → OutboxRow → OutboxRow
lease worker_id lease_until now e = record e {
  state = leased;
  worker_id = some worker_id;
  lease_until = some lease_until;
  attempts = e.attempts + 1;
  updated_at = now;
}

-- the loop of UPDATE statements
unfoldable pub lease_events : List String → String → ℕ → ℕ → List OutboxRow → List OutboxRow
lease_events [] worker_id lease_until now es = es
lease_events (id ∷ ids) worker_id lease_until now es =
    lease_events ids worker_id lease_until now (
      update_where (λ e. is_event id e && outbox_is_pending e) (lease worker_id lease_until now) es)

module _ (host : LedgerHost) where
  -- `_outbox_event`
  unfoldable pub outbox_event : String → Db → Result LedgerError OutboxEvent
  outbox_event id db = elim (find (is_event id) db.outbox) [
    | none ↦ err not_found
    | some e ↦ do
      let payload = host.json_loads (flat_map utf8 e.payload_json)
      guard (is_object payload) unsafe_store
      ok (record {
        event_id = e.event_id;
        operation_id = e.operation_id;
        topic = e.topic;
        dedupe_key = e.dedupe_key;
        payload = payload;
        state = e.state;
        attempts = e.attempts;
        available_at = e.available_at;
        lease_until = e.lease_until;
      })
  ]

  unfoldable pub outbox_events : List String → Db → Result LedgerError (List OutboxEvent)
  unfolding outbox_event
  outbox_events [] db = ok []
  outbox_events (id ∷ ids) db = do e ← outbox_event id db; es ← outbox_events ids db; ok (e ∷ es)

  -- the transaction of `claim_outbox`
  unfoldable pub claim_in : String × ℕ × ℕ → ℕ → Db → Result LedgerError (List OutboxEvent × Db)
  unfolding lease_events outbox_events
  claim_in (worker_id, lease_until, limit) now db = do
    let ids = ready_ids now limit db
    let db' = record db { outbox = lease_events ids worker_id lease_until now db.outbox }
    events ← outbox_events ids db'
    ok (events, db')

  unfoldable pub check_claim : String → ℤ → ℤ → ℤ → Result LedgerError (ℕ × (String × ℕ × ℕ))
  check_claim worker_id now lease_seconds limit = do
    validate_text worker_id max_text
    time ← validate_time now
    seconds ← validate_positive_int lease_seconds 3600
    count ← validate_positive_int limit 100
    lease_until ← validate_time (pos (time + seconds))
    ok (time, (worker_id, lease_until, count))

  unfoldable pub claim_outbox :
      String → ℤ → ℤ → ℤ → LedgerStore → Result LedgerError (List OutboxEvent) × LedgerStore
  unfolding claim_in check_claim begin
  claim_outbox worker_id now lease_seconds limit =
      transact (check_claim worker_id now lease_seconds limit) claim_in

-- the event is leased by the worker
abbrev pub is_owned : String → OutboxRow → Bool
is_owned worker_id e = outbox_is_leased e && same_text e.worker_id (some worker_id)

-- `lease_until > now`; an event that is leased has a `lease_until`
abbrev pub is_live : ℕ → OutboxRow → Bool
is_live now e = not (expired_by now e.lease_until)

abbrev pub deliver : ℕ → OutboxRow → OutboxRow
deliver now e = record e {
  state = delivered;
  worker_id = none;
  lease_until = none;
  delivered_at = some now;
  last_error_code = none;
  updated_at = now;
}

abbrev pub is_pending_operation : Operation → Bool
is_pending_operation o = elim (o.state) [
  | OperationState.pending ↦ true
  | confirmed ↦ false
  | reversed ↦ false
  | reconciliation_required ↦ false
]

abbrev pub require_reconciliation : ℕ → Operation → Operation
require_reconciliation now o = record o { state = reconciliation_required; updated_at = now }

abbrev pub delivered_db : OutboxRow → ℕ → Db → Db
delivered_db row now db = record db {
  outbox = update_where (is_event row.event_id) (deliver now) db.outbox;
  operations =
      update_where (λ o. is_operation row.operation_id o && is_pending_operation o)
        (require_reconciliation now) db.operations;
}

-- the transaction of `mark_outbox_delivered`
unfoldable pub deliver_in : String × String → ℕ → Db → Result LedgerError (Bool × Db)
deliver_in (event_id, worker_id) now db = elim (find (is_event event_id) db.outbox) [
  | none ↦ err not_found
  | some row ↦ if is_delivered row.state then ok (false, db) else (do
    guard (is_owned worker_id row) conflict
    guard (is_live now row) conflict
    ok (true, delivered_db row now db))
]

unfoldable pub check_delivery : String → String → ℤ → Result LedgerError (ℕ × (String × String))
check_delivery event_id worker_id now = do
  validate_text event_id max_text
  validate_text worker_id max_text
  time ← validate_time now
  ok (time, (event_id, worker_id))

unfoldable pub mark_outbox_delivered :
    String → String → ℤ → LedgerStore → Result LedgerError Bool × LedgerStore
unfolding deliver_in check_delivery begin
mark_outbox_delivered event_id worker_id now =
    transact (check_delivery event_id worker_id now) deliver_in

abbrev pub requeue : ℕ → String → ℕ → OutboxRow → OutboxRow
requeue retry_at error_code now e = record e {
  state = OutboxState.pending;
  available_at = retry_at;
  worker_id = none;
  lease_until = none;
  last_error_code = some error_code;
  updated_at = now;
}

-- the arguments of `mark_outbox_retry`, checked
pub record Retry : Type 0 where
  pub event_id : String
  pub worker_id : String
  pub retry_at : ℕ
  pub error_code : String

-- the transaction of `mark_outbox_retry`
unfoldable pub retry_in : Retry → ℕ → Db → Result LedgerError (Unit {0} × Db)
retry_in r now db = elim (find (is_event r.event_id) db.outbox) [
  | none ↦ err not_found
  | some row ↦ do
    guard (is_owned r.worker_id row) conflict
    guard (is_live now row) conflict
    ok (
      tt,
      record db {
        outbox = update_where (is_event r.event_id) (requeue r.retry_at r.error_code now) db.outbox;
      },
    )
]

unfoldable pub check_retry : String → String → ℤ → ℤ → String → Result LedgerError (ℕ × Retry)
check_retry event_id worker_id now retry_at error_code = do
  validate_text event_id max_text
  validate_text worker_id max_text
  time ← validate_time now
  next ← validate_time retry_at
  guard (leb time next) validation
  validate_text error_code 128
  guard (is_error_code (codes error_code)) validation
  ok (
    time,
    record { event_id = event_id; worker_id = worker_id; retry_at = next; error_code = error_code },
  )

unfoldable pub mark_outbox_retry :
    String → String → ℤ → ℤ → String → LedgerStore → Result LedgerError (Unit {0}) × LedgerStore
unfolding retry_in check_retry begin
mark_outbox_retry event_id worker_id now retry_at error_code =
    transact (check_retry event_id worker_id now retry_at error_code) retry_in
