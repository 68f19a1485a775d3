-- ===== src/Ledger/Tables.antt =====
-- The INSERT statements of services/ledger_store/store.py with the constraints of its schema that
-- can fail: keys, unique columns, references and the ranges of an entry. The other CHECK clauses hold
-- of every row that the code writes.
use cryptogpt_one_intent_wal.Base.{
  String, Bool, true, false, not, ◌&&◌, ◌||◌, Option, none, some, List, [], ◌∷◌, ◌++◌, ltb, ◌==◌,
  str_eq, Result, ok, ◌>>=◌, ◌>>◌, guard, any,
}
use cryptogpt_one_intent_wal.Ledger.Rows.{
  LedgerError, constraint, Db, Account, Operation, Transaction, Entry, OutboxRow, Observation, Kind,
  original, reversal,
}
use cryptogpt_one_intent_wal.Ledger.Checks.{max_lines}
use cryptogpt_one_intent_wal.Ledger.Lines.{is_amount}

abbrev pub same_text : Option String → Option String → Bool
same_text (some s) (some t) = str_eq s t
same_text _ _ = false

abbrev pub same_kind : Kind → Kind → Bool
same_kind original original = true
same_kind reversal reversal = true
same_kind _ _ = false

abbrev pub is_account : String → Account → Bool
is_account id a = str_eq a.account_id id

abbrev pub is_operation : String → Operation → Bool
is_operation id o = str_eq o.operation_id id

abbrev pub is_transaction : String → Transaction → Bool
is_transaction id t = str_eq t.transaction_id id

abbrev pub is_event : String → OutboxRow → Bool
is_event id e = str_eq e.event_id id

abbrev pub is_event_of : String → OutboxRow → Bool
is_event_of id e = str_eq e.operation_id id

abbrev pub is_observation : String → Observation → Bool
is_observation id o = str_eq o.observation_id id

unfoldable pub insert_account : Account → Db → Result LedgerError Db
insert_account a db = do
  guard (not (any (is_account a.account_id) db.accounts)) constraint
  ok (record db { accounts = db.accounts ++ a ∷ [] })

abbrev pub operation_clashes : Operation → Operation → Bool
operation_clashes o p =
    str_eq p.operation_id o.operation_id
    || str_eq p.idempotency_key o.idempotency_key
    || str_eq p.original_transaction_id o.original_transaction_id
    || same_text p.reversal_transaction_id o.reversal_transaction_id
    || same_text p.external_reference o.external_reference

unfoldable pub insert_operation : Operation → Db → Result LedgerError Db
insert_operation o db = do
  guard (not (any (operation_clashes o) db.operations)) constraint
  ok (record db { operations = db.operations ++ o ∷ [] })

abbrev pub transaction_clashes : Transaction → Transaction → Bool
transaction_clashes t u =
    str_eq u.transaction_id t.transaction_id
    || str_eq u.operation_id t.operation_id && same_kind u.kind t.kind

-- the reference to the transaction that is reversed
abbrev pub reverses_exists : Option String → List Transaction → Bool
reverses_exists none ts = true
reverses_exists (some id) ts = any (is_transaction id) ts

unfoldable pub insert_transaction : Transaction → Db → Result LedgerError Db
insert_transaction t db = do
  guard (not (any (transaction_clashes t) db.transactions)) constraint
  guard (any (is_operation t.operation_id) db.operations) constraint
  guard (reverses_exists t.reverses_transaction_id (db.transactions ++ t ∷ [])) constraint
  ok (record db { transactions = db.transactions ++ t ∷ [] })

abbrev pub entry_clashes : Entry → Entry → Bool
entry_clashes e f =
    str_eq f.transaction_id e.transaction_id
    && (f.line_number == e.line_number || str_eq f.account_id e.account_id)

abbrev pub holds_asset : String → String → Account → Bool
holds_asset account_id asset_id a = str_eq a.account_id account_id && str_eq a.asset_id asset_id

unfoldable pub insert_entry : Entry → Db → Result LedgerError Db
insert_entry e db = do
  guard (ltb e.line_number max_lines && is_amount e.amount_minor) constraint
  guard (not (any (entry_clashes e) db.entries)) constraint
  guard (any (is_transaction e.transaction_id) db.transactions) constraint
  guard (any (holds_asset e.account_id e.asset_id) db.accounts) constraint
  ok (record db { entries = db.entries ++ e ∷ [] })

-- `executemany`
unfoldable pub insert_entries : List Entry → Db → Result LedgerError Db
insert_entries [] db = ok db
insert_entries (e ∷ es) db = insert_entry e db >>= insert_entries es

abbrev pub event_clashes : OutboxRow → OutboxRow → Bool
event_clashes e f =
    str_eq f.event_id e.event_id
    || str_eq f.operation_id e.operation_id
    || str_eq f.dedupe_key e.dedupe_key

unfoldable pub insert_outbox : OutboxRow → Db → Result LedgerError Db
insert_outbox e db = do
  guard (not (any (event_clashes e) db.outbox)) constraint
  guard (any (is_operation e.operation_id) db.operations) constraint
  ok (record db { outbox = db.outbox ++ e ∷ [] })

unfoldable pub insert_observation : Observation → Db → Result LedgerError Db
insert_observation o db = do
  guard (not (any (is_observation o.observation_id) db.observations)) constraint
  guard (any (is_operation o.operation_id) db.operations) constraint
  ok (record db { observations = db.observations ++ o ∷ [] })
