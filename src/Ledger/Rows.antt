-- ===== src/Ledger/Rows.antt =====
-- The tables of services/ledger_store/store.py, a record for each row, and its exceptions.
use cryptogpt_one_intent_wal.Base.{ℕ, String, Bool, Option, List, []}
use cryptogpt_one_intent_wal.Base.Int.{ℤ}
use cryptogpt_one_intent_wal.Canonical.Value.{Value}

pub data LedgerError : Type 0 where
  store_closed validation conflict not_found unsafe_store : LedgerError
  -- `sqlite3.IntegrityError`: a constraint of the schema refused a statement
  constraint : LedgerError

pub data OperationState : Type 0 where
  pending confirmed reversed reconciliation_required : OperationState

pub data OutboxState : Type 0 where
  pending leased delivered cancelled : OutboxState

pub data ReconciliationResult : Type 0 where
  confirmed not_applied unknown : ReconciliationResult

pub data Kind : Type 0 where
  original reversal : Kind

pub record LedgerLine : Type 0 where
  pub account_id : String
  pub asset_id : String
  pub amount_minor : ℤ

pub record OutboxMessage : Type 0 where
  pub event_id : String
  pub topic : String
  pub dedupe_key : String
  pub payload : Value

-- ledger_accounts
pub record Account : Type 0 where
  pub account_id : String
  pub asset_id : String
  pub created_at : ℕ

-- operations
pub record Operation : Type 0 where
  pub operation_id : String
  pub idempotency_key : String
  pub request_fingerprint : String
  pub state : OperationState
  pub original_transaction_id : String
  pub reversal_transaction_id : Option String
  pub external_reference : Option String
  pub reconciliation_conflict : Bool
  pub created_at : ℕ
  pub updated_at : ℕ

-- ledger_transactions
pub record Transaction : Type 0 where
  pub transaction_id : String
  pub operation_id : String
  pub kind : Kind
  pub reverses_transaction_id : Option String
  pub created_at : ℕ

-- ledger_entries
pub record Entry : Type 0 where
  pub transaction_id : String
  pub line_number : ℕ
  pub account_id : String
  pub asset_id : String
  pub amount_minor : ℤ

-- outbox_events
pub record OutboxRow : Type 0 where
  pub event_id : String
  pub operation_id : String
  pub topic : String
  pub dedupe_key : String
  pub payload_json : List ℕ
  pub state : OutboxState
  pub attempts : ℕ
  pub available_at : ℕ
  pub worker_id : Option String
  pub lease_until : Option ℕ
  pub delivered_at : Option ℕ
  pub last_error_code : Option String
  pub created_at : ℕ
  pub updated_at : ℕ

-- reconciliation_observations
pub record Observation : Type 0 where
  pub observation_id : String
  pub operation_id : String
  pub result : ReconciliationResult
  pub external_reference : Option String
  pub observation_fingerprint : String
  pub conflicting : Bool
  pub observed_at : ℕ

-- The database: the rows in the order of insertion, and the durable clock of `schema_metadata`.
pub record Db : Type 0 where
  pub clock_high_water : ℕ
  pub accounts : List Account
  pub operations : List Operation
  pub transactions : List Transaction
  pub entries : List Entry
  pub outbox : List OutboxRow
  pub observations : List Observation

-- what `_initialize_or_verify_schema` creates
abbrev pub empty_db : Db
empty_db = record {
  clock_high_water = 0;
  accounts = [];
  operations = [];
  transactions = [];
  entries = [];
  outbox = [];
  observations = [];
}

-- `str` values of the enumerations, as the fingerprints have them
abbrev pub result_value : ReconciliationResult → String
result_value ReconciliationResult.confirmed = "CONFIRMED"
result_value not_applied = "NOT_APPLIED"
result_value unknown = "UNKNOWN"
