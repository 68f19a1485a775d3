-- ===== src/Ledger/Store/Reconcile.antt =====
-- `reconcile_operation` and `_create_reversal` of services/ledger_store/store.py.
use mathlib.Core.List.{flat_map}
use Prim.Native.String.{◌++◌ as ◌+++◌, slice}
use cryptogpt_one_intent_wal.Base.{
  ℕ, String, Bool, true, false, not, ◌&&◌, ◌||◌, Option, none, some, ◌∷◌, ◌++◌, leb, str_eq,
  if◌then◌else◌, Result, ok, err, ◌>>=◌, ◌>>◌, guard, any, find, sorted, update_where, length, map,
}
use cryptogpt_one_intent_wal.Base.Int.{ℤ, pos, negate}
use cryptogpt_one_intent_wal.Base.Text.{codes}
use cryptogpt_one_intent_wal.Canonical.Value.{Value, null, int, str, obj, end, field}
use cryptogpt_one_intent_wal.Canonical.Bytes.{utf8}
use cryptogpt_one_intent_wal.Ledger.Rows.{
  LedgerError, validation, not_found, conflict, constraint, unsafe_store, Db, Operation,
  Transaction, Entry, OutboxRow, Observation, OperationState, ReconciliationResult, delivered,
  cancelled, reconciliation_required, confirmed, reversed, not_applied, unknown, reversal,
  result_value,
}
use cryptogpt_one_intent_wal.Ledger.Checks.{
  LedgerHost, validate_text, validate_time, max_text, hash_json,
}
use cryptogpt_one_intent_wal.Ledger.Tables.{
  is_operation, is_event_of, is_observation, same_text, insert_transaction, insert_entries,
  insert_observation,
}
use cryptogpt_one_intent_wal.Ledger.Health.{entries_of, is_some, is_cancelled}
use cryptogpt_one_intent_wal.Ledger.Store.{
  LedgerStore, OperationSnapshot, operation_snapshot, begin, transact, catch_constraint,
}

-- `_set_operation_state`, with the `conflict` that every call gives
abbrev pub set_operation_state : String → OperationState → ℕ → Bool → Db → Db
set_operation_state id state now in_conflict db = record db {
  operations =
      update_where (is_operation id)
        (λ o. record o { state = state; reconciliation_conflict = in_conflict; updated_at = now })
        db.operations;
}

-- ORDER BY line_number
abbrev pub leb_entries : Entry → Entry → Bool
leb_entries e f = leb e.line_number f.line_number

abbrev pub negated : String → Entry → Entry
negated id e = record e { transaction_id = id; amount_minor = negate e.amount_minor }

abbrev pub reversal_transaction : String → Operation → ℕ → Transaction
reversal_transaction id o now = record {
  transaction_id = id;
  operation_id = o.operation_id;
  kind = reversal;
  reverses_transaction_id = some o.original_transaction_id;
  created_at = now;
}

-- the UPDATE of `reversal_transaction_id`, a unique column
unfoldable pub set_reversal : String → String → Db → Result LedgerError Db
set_reversal operation_id id db = do
  guard
      (not (
        any
          (λ o. not (is_operation operation_id o) && same_text o.reversal_transaction_id (some id))
          db.operations))
      constraint
  ok (record db {
    operations =
        update_where (is_operation operation_id)
          (λ o. record o { reversal_transaction_id = some id }) db.operations;
  })

abbrev pub is_reversed : Operation → Bool
is_reversed o = elim (o.state) [
  | OperationState.pending ↦ false
  | confirmed ↦ false
  | reversed ↦ true
  | reconciliation_required ↦ false
]

abbrev pub is_confirmed : Operation → Bool
is_confirmed o = elim (o.state) [
  | OperationState.pending ↦ false
  | confirmed ↦ true
  | reversed ↦ false
  | reconciliation_required ↦ false
]

-- another operation has the external reference
abbrev pub has_other_owner : String → Option String → Db → Bool
has_other_owner id reference db =
    any (λ o. same_text o.external_reference reference && not (is_operation id o)) db.operations

-- `external_reference` is set, and is another
abbrev pub differs : Option String → Option String → Bool
differs none reference = false
differs (some s) reference = not (same_text (some s) reference)

abbrev pub confirm_operation : Option String → ℕ → Operation → Operation
confirm_operation reference now o = record o {
  state = confirmed;
  external_reference = reference;
  reconciliation_conflict = false;
  updated_at = now;
}

abbrev pub coalesce : Option ℕ → ℕ → Option ℕ
coalesce none n = some n
coalesce (some m) n = some m

abbrev pub confirm_event : ℕ → OutboxRow → OutboxRow
confirm_event now e = record e {
  state = delivered;
  worker_id = none;
  lease_until = none;
  delivered_at = coalesce e.delivered_at now;
  last_error_code = none;
  updated_at = now;
}

abbrev pub cancel_event : ℕ → OutboxRow → OutboxRow
cancel_event now e = record e {
  state = cancelled;
  worker_id = none;
  lease_until = none;
  delivered_at = none;
  updated_at = now;
}

abbrev pub confirmed_db : String → Option String → ℕ → Db → Db
confirmed_db id reference now db = record db {
  operations = update_where (is_operation id) (confirm_operation reference now) db.operations;
  outbox =
      update_where (λ e. is_event_of id e && not (is_cancelled e.state)) (confirm_event now)
        db.outbox;
}

abbrev pub cancelled_db : String → ℕ → Db → Db
cancelled_db id now db = record db {
  outbox = update_where (is_event_of id) (cancel_event now) db.outbox;
}

-- What a branch of `reconcile_operation` decides: `conflicting`, and `reversal_created`.
pub record Decision : Type 0 where
  pub conflicting : Bool
  pub reversal_created : Bool
  pub db : Db

abbrev pub agreed : Db → Decision
agreed db = record { conflicting = false; reversal_created = false; db = db }

-- the branches that only record a conflict, and those that lock the operation in it
abbrev pub stays_locked : Db → Decision
stays_locked db = record { conflicting = true; reversal_created = false; db = db }

abbrev pub lock_conflict : String → ℕ → Db → Decision
lock_conflict id now db = record {
  conflicting = true;
  reversal_created = false;
  db = set_operation_state id reconciliation_required now true db;
}

-- the branch UNKNOWN
abbrev pub observe_unknown : Operation → ℕ → Db → Decision
observe_unknown o now db =
    if o.reconciliation_conflict
    then stays_locked db
    else if is_confirmed o || is_reversed o
    then agreed db
    else agreed (set_operation_state o.operation_id reconciliation_required now false db)

-- the branch CONFIRMED
abbrev pub observe_confirmed : Operation → Option String → ℕ → Db → Decision
observe_confirmed o reference now db =
    if o.reconciliation_conflict || has_other_owner o.operation_id reference db
    then lock_conflict o.operation_id now db
    else if is_some o.reversal_transaction_id || is_reversed o
    then lock_conflict o.operation_id now db
    else if differs o.external_reference reference
    then lock_conflict o.operation_id now db
    else agreed (confirmed_db o.operation_id reference now db)

-- the arguments of `reconcile_operation`, checked
pub record Observed : Type 0 where
  pub operation_id : String
  pub observation_id : String
  pub result : ReconciliationResult
  pub external_reference : Option String
  pub observed_at : ℕ

pub record ReconciliationReport : Type 0 where
  pub operation : OperationSnapshot
  pub result : ReconciliationResult
  pub duplicate_observation : Bool
  pub conflicting_observation : Bool
  pub reversal_created : Bool

abbrev pub optional_text : Option String → Value
optional_text none = null
optional_text (some s) = str s

-- the material of `observation_fingerprint`
abbrev pub observation_material : Observed → Value
observation_material x = obj (
    field "operationId" (str x.operation_id) (
      field "observationId" (str x.observation_id) (
        field "result" (str (result_value x.result)) (
          field "observedAt" (int (pos x.observed_at))
            (field "externalReference" (optional_text x.external_reference) end)))))

abbrev pub observation_row : Observed → String → Observation
observation_row x fingerprint = record {
  observation_id = x.observation_id;
  operation_id = x.operation_id;
  result = x.result;
  external_reference = x.external_reference;
  observation_fingerprint = fingerprint;
  conflicting = false;
  observed_at = x.observed_at;
}

abbrev pub mark_conflicting : String → Bool → Db → Db
mark_conflicting id conflicting db =
    if conflicting
    then record db {
      observations =
          update_where (is_observation id) (λ o. record o { conflicting = true }) db.observations;
    }
    else db

-- the tests of `observed_at`, the reference and the result
abbrev pub is_confirmation : ReconciliationResult → Bool
is_confirmation ReconciliationResult.confirmed = true
is_confirmation not_applied = false
is_confirmation unknown = false

unfoldable pub check_reference : Option String → Result LedgerError (Unit {0})
check_reference none = ok tt
check_reference (some s) = validate_text s max_text >> ok tt

module _ (host : LedgerHost) where
  -- `reversal-` and the first 32 digits of the digest
  abbrev pub reversal_id : Operation → String
  reversal_id o =
      "reversal-"
      +++ slice
          (host.sha256
            (flat_map utf8 (codes o.operation_id ++ 0 ∷ codes o.original_transaction_id)))
          0 32

  -- `_create_reversal`
  unfoldable pub create_reversal : String → ℕ → Db → Result LedgerError Db
  unfolding insert_transaction insert_entries set_reversal
  create_reversal operation_id now db = elim (find (is_operation operation_id) db.operations) [
    | none ↦ err not_found
    | some o ↦ do
      let entries = sorted leb_entries (entries_of o.original_transaction_id db.entries)
      guard (leb 2 (length entries)) unsafe_store
      with_transaction ← insert_transaction (reversal_transaction (reversal_id o) o now) db
      with_entries ← insert_entries (map (negated (reversal_id o)) entries) with_transaction
      set_reversal operation_id (reversal_id o) with_entries
  ]

  -- the reversal, unless there is one
  unfoldable pub ensure_reversal : Operation → ℕ → Db → Result LedgerError Db
  unfolding create_reversal
  ensure_reversal o now db =
      if is_some o.reversal_transaction_id then ok db else create_reversal o.operation_id now db

  -- the branch NOT_APPLIED
  unfoldable pub observe_not_applied : Operation → ℕ → Db → Result LedgerError Decision
  unfolding ensure_reversal
  observe_not_applied o now db =
      if o.reconciliation_conflict
      then ok (stays_locked db)
      else if is_confirmed o && not (is_some o.reversal_transaction_id)
      then ok (lock_conflict o.operation_id now db)
      else (do
        with_reversal ← ensure_reversal o now db
        ok (record {
          conflicting = false;
          reversal_created = not (is_some o.reversal_transaction_id);
          db =
              cancelled_db o.operation_id now
                (set_operation_state o.operation_id reversed now false with_reversal);
        }))

  unfoldable pub decide : Observed → Operation → ℕ → Db → Result LedgerError Decision
  unfolding observe_not_applied
  decide x o now db = elim (x.result) [
    | unknown ↦ ok (observe_unknown o now db)
    | ReconciliationResult.confirmed ↦ ok (observe_confirmed o x.external_reference now db)
    | not_applied ↦ observe_not_applied o now db
  ]

  -- a new observation
  unfoldable pub record_observation :
      Observed → String → Operation → ℕ → Db → Result LedgerError (ReconciliationReport × Db)
  unfolding decide insert_observation operation_snapshot
  record_observation x fingerprint o now db = do
    with_observation ← insert_observation (observation_row x fingerprint) db
    d ← decide x o now with_observation
    let db' = mark_conflicting x.observation_id d.conflicting d.db
    answer ← operation_snapshot x.operation_id db'
    ok (
      record {
        operation = answer;
        result = x.result;
        duplicate_observation = false;
        conflicting_observation = d.conflicting;
        reversal_created = d.reversal_created;
      },
      db',
    )

  -- an observation that is there already
  unfoldable pub repeat_observation :
      Observed → String → Observation → Db → Result LedgerError (ReconciliationReport × Db)
  unfolding operation_snapshot
  repeat_observation x fingerprint seen db = do
    guard (str_eq seen.observation_fingerprint fingerprint) conflict
    answer ← operation_snapshot x.operation_id db
    ok (
      record {
        operation = answer;
        result = x.result;
        duplicate_observation = true;
        conflicting_observation = seen.conflicting;
        reversal_created = false;
      },
      db,
    )

  -- the transaction of `reconcile_operation`
  unfoldable pub reconcile_in :
      Observed → String → ℕ → Db → Result LedgerError (ReconciliationReport × Db)
  unfolding repeat_observation record_observation
  reconcile_in x fingerprint now db = elim (find (is_operation x.operation_id) db.operations) [
    | none ↦ err not_found
    | some o ↦ do
      guard (leb o.created_at x.observed_at) validation
      elim (find (is_observation x.observation_id) db.observations) [
        | some seen ↦ repeat_observation x fingerprint seen db
        | none ↦ record_observation x fingerprint o now db
      ]
  ]

  -- the checked observation and its fingerprint
  unfoldable pub check_reconcile :
      String
      → String
      → ReconciliationResult
      → ℤ
      → ℤ
      → Option String
      → Result LedgerError (ℕ × (Observed × String))
  unfolding hash_json check_reference
  check_reconcile operation_id observation_id result observed_at now external_reference = do
    validate_text operation_id max_text
    validate_text observation_id max_text
    seen_at ← validate_time observed_at
    time ← validate_time now
    guard (leb seen_at time) validation
    check_reference external_reference
    guard (not (is_confirmation result) || is_some external_reference) validation
    let x : Observed = record {
      operation_id = operation_id;
      observation_id = observation_id;
      result = result;
      external_reference = external_reference;
      observed_at = seen_at;
    }
    ok (time, (x, hash_json host (observation_material x)))

  unfoldable pub reconcile_operation :
      String
      → String
      → ReconciliationResult
      → ℤ
      → ℤ
      → Option String
      → LedgerStore
      → Result LedgerError ReconciliationReport × LedgerStore
  unfolding reconcile_in begin check_reconcile
  reconcile_operation operation_id observation_id result observed_at now external_reference =
      transact
        (check_reconcile operation_id observation_id result observed_at now external_reference)
        (λ (x, fingerprint) time db. catch_constraint (reconcile_in x fingerprint time db))
