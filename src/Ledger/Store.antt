-- ===== src/Ledger/Store.antt =====
-- `LedgerStore` of services/ledger_store/store.py: the clock, the health check and the transaction that
-- every writing method runs in, and the methods that only read. A method returns its result or
-- exception beside the store; an exception inside the transaction rolls it back.
pub mod Post
pub mod Outbox
pub mod Reconcile
pub mod Recover
use mathlib.Core.List.{flat_map}
use cryptogpt_one_intent_wal.Base.{
  ℕ, ◌+◌, String, Bool, true, false, not, ◌&&◌, ◌||◌, Option, none, some, List, [], ◌∷◌, leb, ltb,
  ◌==◌, str_eq, Result, ok, err, ◌>>=◌, ◌>>◌, guard, length, any, find,
}
use cryptogpt_one_intent_wal.Base.Int.{ℤ, pos, ◌+ℤ◌}
use cryptogpt_one_intent_wal.Base.Totals.{total_where}
use cryptogpt_one_intent_wal.Canonical.Value.{Value}
use cryptogpt_one_intent_wal.Ledger.Rows.{
  LedgerError, store_closed, not_found, unsafe_store, conflict, constraint, Db, Account, Operation,
  Entry, OutboxRow, OperationState, OutboxState,
}
use cryptogpt_one_intent_wal.Ledger.Checks.{
  LedgerHost, validate_text, validate_time, max_text, is_object,
}
use cryptogpt_one_intent_wal.Ledger.Tables.{
  is_account, is_operation, is_event, is_event_of, insert_account,
}
use cryptogpt_one_intent_wal.Ledger.Health.{
  FileReport, HealthReport, HealthStatus, unhealthy, collect_health,
}

pub record LedgerStore : Type 0 where
  pub closed : Bool
  pub file : FileReport
  pub db : Db

abbrev pub is_unhealthy : HealthReport → Bool
is_unhealthy h = elim (h.status) [
  | unhealthy ↦ true
  | HealthStatus.degraded ↦ false
  | HealthStatus.healthy ↦ false
]

abbrev pub ensure_open : LedgerStore → Result LedgerError (Unit {0})
ensure_open st = guard (not st.closed) store_closed

unfoldable pub require_structural_health : ℕ → LedgerStore → Result LedgerError (Unit {0})
require_structural_health now st =
    guard (not (is_unhealthy (collect_health st.file now st.db))) unsafe_store

unfoldable pub advance_clock : ℕ → Db → Result LedgerError Db
advance_clock now db =
    guard (leb db.clock_high_water now) unsafe_store >> ok (record db { clock_high_water = now })

-- `_ensure_open`, `_require_structural_health` and the start of `_write_transaction`
unfoldable pub begin : ℕ → LedgerStore → Result LedgerError Db
unfolding require_structural_health
begin now st = do ensure_open st; require_structural_health now st; advance_clock now st.db

-- COMMIT, or ROLLBACK and the exception
abbrev pub settle {ℓ} :
    {A : Type ℓ} → LedgerStore → Result LedgerError (A × Db) → Result LedgerError A × LedgerStore
settle st (err e) = (err e, st)
settle st (ok (a, db)) = (ok a, record st { db = db })

-- A writing method: its checks, which give the time and the checked arguments, then the transaction.
abbrev pub transact {ℓ κ} :
    {X : Type ℓ} {A : Type κ}
    → Result LedgerError (ℕ × X)
    → (X → ℕ → Db → Result LedgerError (A × Db))
    → LedgerStore
    → Result LedgerError A × LedgerStore
transact checked body st = settle st (checked >>= λ (time, x). begin time st >>= body x time)

-- `except sqlite3.IntegrityError`
abbrev pub constraint_to_conflict : LedgerError → LedgerError
constraint_to_conflict constraint = conflict
constraint_to_conflict e = e

abbrev pub catch_constraint {ℓ} : {A : Type ℓ} → Result LedgerError A → Result LedgerError A
catch_constraint (ok a) = ok a
catch_constraint (err e) = err (constraint_to_conflict e)

-- the transaction of `register_account`
unfoldable pub register_in : String × String → ℕ → Db → Result LedgerError (Bool × Db)
unfolding insert_account
register_in (account_id, asset_id) now db = elim (find (is_account account_id) db.accounts) [
  | some a ↦ guard (str_eq a.asset_id asset_id) conflict >> ok (false, db)
  | none ↦ do
    db' ←
        insert_account (record { account_id = account_id; asset_id = asset_id; created_at = now })
          db
    ok (true, db')
]

unfoldable pub check_register : String → String → ℤ → Result LedgerError (ℕ × (String × String))
check_register account_id asset_id now = do
  validate_text account_id max_text
  validate_text asset_id max_text
  time ← validate_time now
  ok (time, (account_id, asset_id))

unfoldable pub register_account :
    String → String → ℤ → LedgerStore → Result LedgerError Bool × LedgerStore
unfolding register_in begin check_register
register_account account_id asset_id now =
    transact (check_register account_id asset_id now) register_in

pub record OperationSnapshot : Type 0 where
  pub operation_id : String
  pub idempotency_key : String
  pub state : OperationState
  pub original_transaction_id : String
  pub reversal_transaction_id : Option String
  pub external_reference : Option String
  pub reconciliation_conflict : Bool
  pub outbox_state : OutboxState

-- `_operation_snapshot`: the join of the operation and its event
abbrev pub snapshot : Operation → OutboxRow → OperationSnapshot
snapshot o e = record {
  operation_id = o.operation_id;
  idempotency_key = o.idempotency_key;
  state = o.state;
  original_transaction_id = o.original_transaction_id;
  reversal_transaction_id = o.reversal_transaction_id;
  external_reference = o.external_reference;
  reconciliation_conflict = o.reconciliation_conflict;
  outbox_state = e.state;
}

unfoldable pub operation_snapshot : String → Db → Result LedgerError OperationSnapshot
operation_snapshot id db = elim (find (is_operation id) db.operations) [
  | none ↦ err not_found
  | some o ↦ elim (find (is_event_of id) db.outbox) [
    | none ↦ err not_found
    | some e ↦ ok (snapshot o e)
  ]
]

unfoldable pub get_operation : String → LedgerStore → Result LedgerError OperationSnapshot
unfolding operation_snapshot
get_operation id st = do validate_text id max_text; ensure_open st; operation_snapshot id st.db

abbrev pub sum_of : String → List Entry → ℤ
sum_of account_id es = total_where (λ e. str_eq e.account_id account_id) (λ e. e.amount_minor) es

unfoldable pub account_balance : String → LedgerStore → Result LedgerError ℤ
account_balance account_id st = do
  validate_text account_id max_text
  ensure_open st
  guard (any (is_account account_id) st.db.accounts) not_found
  ok (sum_of account_id st.db.entries)

unfoldable pub monitor_health : ℤ → LedgerStore → Result LedgerError HealthReport
monitor_health now st = do
  time ← validate_time now
  ensure_open st
  ok (collect_health st.file time st.db)

abbrev pub close : LedgerStore → LedgerStore
close st = record st { closed = true }
