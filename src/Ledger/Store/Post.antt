-- ===== src/Ledger/Store/Post.antt =====
-- `post_operation` of services/ledger_store/store.py.
use cryptogpt_one_intent_wal.Base.{
  ℕ, ◌+◌, String, Bool, false, ◌&&◌, Option, none, some, List, [], ◌∷◌, ◌++◌, str_eq, Result, ok,
  err, ◌>>=◌, ◌>>◌, guard, all, find,
}
use mathlib.Core.List.{flat_map}
use cryptogpt_one_intent_wal.Base.Int.{ℤ}
use cryptogpt_one_intent_wal.Canonical.Value.{
  Value, Items, int, str, arr, obj, nil, cons, end, field,
}
use cryptogpt_one_intent_wal.Canonical.Bytes.{utf8}
use cryptogpt_one_intent_wal.Ledger.Rows.{
  LedgerError, not_found, conflict, Db, Account, Operation, Transaction, Entry, OutboxRow,
  OutboxMessage, LedgerLine, OperationState, OutboxState, original,
}
use cryptogpt_one_intent_wal.Ledger.Checks.{
  LedgerHost, validate_texts, validate_time, canonical_json, hash_json,
}
use cryptogpt_one_intent_wal.Ledger.Lines.{normalize_lines}
use cryptogpt_one_intent_wal.Ledger.Tables.{
  is_account, is_operation, insert_operation, insert_transaction, insert_entries, insert_outbox,
}
use cryptogpt_one_intent_wal.Ledger.Store.{
  LedgerStore, OperationSnapshot, operation_snapshot, begin, transact, catch_constraint,
}

-- the arguments of `post_operation`, but the time
pub record PostRequest : Type 0 where
  pub operation_id : String
  pub idempotency_key : String
  pub transaction_id : String
  pub lines : List LedgerLine
  pub outbox : OutboxMessage

-- what the checks before the transaction make of a request
pub record Prepared : Type 0 where
  pub request : PostRequest
  pub lines : List LedgerLine
  pub payload_json : List ℕ
  pub fingerprint : String

abbrev pub line_values : List LedgerLine → Items
line_values [] = nil
line_values (l ∷ ls) =
    cons
      (obj (
        field "accountId" (str l.account_id)
          (field "assetId" (str l.asset_id) (field "amountMinor" (int l.amount_minor) end))))
      (line_values ls)

-- the material of the fingerprint
abbrev pub post_material : PostRequest → List LedgerLine → Value → Value
post_material r lines payload = obj (
    field "operationId" (str r.operation_id) (
      field "idempotencyKey" (str r.idempotency_key) (
        field "transactionId" (str r.transaction_id) (
          field "lines" (arr (line_values lines)) (
            field "outbox"
              (obj (
                field "eventId" (str r.outbox.event_id) (
                  field "topic" (str r.outbox.topic)
                    (field "dedupeKey" (str r.outbox.dedupe_key) (field "payload" payload end)))))
              end)))))

abbrev pub has_key : String → Operation → Bool
has_key key o = str_eq o.idempotency_key key

abbrev pub same_request : Prepared → Operation → Bool
same_request p o =
    str_eq o.operation_id p.request.operation_id && str_eq o.request_fingerprint p.fingerprint

-- the row found, as a list
abbrev pub found {ℓ} : {A : Type ℓ} → Option A → List A
found none = []
found (some x) = x ∷ []

-- `by_operation` and `by_key`, where they are found
abbrev pub earlier : Prepared → Db → List Operation
earlier p db =
    found (find (is_operation p.request.operation_id) db.operations)
    ++ found (find (has_key p.request.idempotency_key) db.operations)

-- the loop over the lines: each names a registered account of its asset
unfoldable pub check_accounts : List LedgerLine → List Account → Result LedgerError (Unit {0})
check_accounts [] accounts = ok tt
check_accounts (l ∷ ls) accounts = elim (find (is_account l.account_id) accounts) [
  | none ↦ err not_found
  | some a ↦ guard (str_eq a.asset_id l.asset_id) conflict >> check_accounts ls accounts
]

abbrev pub posted_operation : Prepared → ℕ → Operation
posted_operation p now = record {
  operation_id = p.request.operation_id;
  idempotency_key = p.request.idempotency_key;
  request_fingerprint = p.fingerprint;
  state = OperationState.pending;
  original_transaction_id = p.request.transaction_id;
  reversal_transaction_id = none;
  external_reference = none;
  reconciliation_conflict = false;
  created_at = now;
  updated_at = now;
}

abbrev pub posted_transaction : Prepared → ℕ → Transaction
posted_transaction p now = record {
  transaction_id = p.request.transaction_id;
  operation_id = p.request.operation_id;
  kind = original;
  reverses_transaction_id = none;
  created_at = now;
}

-- `enumerate`
abbrev pub posted_entries : String → ℕ → List LedgerLine → List Entry
posted_entries id index [] = []
posted_entries id index (l ∷ ls) =
    (record {
      transaction_id = id;
      line_number = index;
      account_id = l.account_id;
      asset_id = l.asset_id;
      amount_minor = l.amount_minor;
    })
    ∷ posted_entries id (index + 1) ls

abbrev pub posted_event : Prepared → ℕ → OutboxRow
posted_event p now = record {
  event_id = p.request.outbox.event_id;
  operation_id = p.request.operation_id;
  topic = p.request.outbox.topic;
  dedupe_key = p.request.outbox.dedupe_key;
  payload_json = p.payload_json;
  state = OutboxState.pending;
  attempts = 0;
  available_at = now;
  worker_id = none;
  lease_until = none;
  delivered_at = none;
  last_error_code = none;
  created_at = now;
  updated_at = now;
}

-- the inserts of a new operation
unfoldable pub insert_posting : Prepared → ℕ → Db → Result LedgerError Db
unfolding insert_operation insert_transaction insert_entries insert_outbox
insert_posting p now db = do
  check_accounts p.lines db.accounts
  with_operation ← insert_operation (posted_operation p now) db
  with_transaction ← insert_transaction (posted_transaction p now) with_operation
  with_entries ← insert_entries (posted_entries p.request.transaction_id 0 p.lines) with_transaction
  insert_outbox (posted_event p now) with_entries

-- the transaction of `post_operation`
unfoldable pub post_in : Prepared → ℕ → Db → Result LedgerError (OperationSnapshot × Db)
unfolding insert_posting operation_snapshot
post_in p now db = elim (earlier p db) [
  | [] ↦ do
    db' ← insert_posting p now db
    answer ← operation_snapshot p.request.operation_id db'
    ok (answer, db')
  | row ∷ rows ↦ do
    guard (all (same_request p) (row ∷ rows)) conflict
    answer ← operation_snapshot p.request.operation_id db
    ok (answer, db)
]

module _ (host : LedgerHost) where
  unfoldable pub prepare : PostRequest → Result LedgerError Prepared
  unfolding normalize_lines hash_json canonical_json
  prepare r = do
    validate_texts (r.outbox.event_id ∷ r.outbox.topic ∷ r.outbox.dedupe_key ∷ [])
    payload_json ← canonical_json r.outbox.payload
    lines ← normalize_lines r.lines
    let payload = host.json_loads (flat_map utf8 payload_json)
    ok (record {
      request = r;
      lines = lines;
      payload_json = payload_json;
      fingerprint = hash_json host (post_material r lines payload);
    })

  unfoldable pub check_post : PostRequest → ℤ → Result LedgerError (ℕ × Prepared)
  unfolding prepare
  check_post r now = do
    validate_texts (r.operation_id ∷ r.idempotency_key ∷ r.transaction_id ∷ [])
    time ← validate_time now
    p ← prepare r
    ok (time, p)

  unfoldable pub post_operation :
      PostRequest → ℤ → LedgerStore → Result LedgerError OperationSnapshot × LedgerStore
  unfolding check_post post_in begin
  post_operation r now =
      transact (check_post r now) (λ p time db. catch_constraint (post_in p time db))
