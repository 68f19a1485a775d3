-- ===== src/Ledger/Health.antt =====
-- `_collect_health` of services/ledger_store/store.py and the two inspections it makes. Where the
-- source has a sentence for an issue, the model has a constructor with the row's name; issues stand in
-- the order of the tables' rows.
use cryptogpt_one_intent_wal.Base.{
  ℕ, String, Bool, true, false, not, ◌&&◌, ◌||◌, Option, none, some, List, [], ◌∷◌, ◌++◌, leb, ltb,
  ◌==◌, str_eq, if◌then◌else◌, length, any, all, find, select, count_where,
}
use cryptogpt_one_intent_wal.Base.Int.{eq_ℤ, negate}
use cryptogpt_one_intent_wal.Base.Dict.{Dict}
use cryptogpt_one_intent_wal.Ledger.Rows.{
  Db, Operation, Transaction, Entry, OutboxRow, OperationState, OutboxState, original, reversal,
  reconciliation_required, confirmed, reversed, leased, delivered, cancelled,
}
use cryptogpt_one_intent_wal.Ledger.Lines.{Tally, tally_line, is_balanced}
use cryptogpt_one_intent_wal.Ledger.Tables.{same_text, same_kind, is_transaction, is_event_of}

pub data Issue : Type 0 where
  inspection_failed quick_check_failed foreign_key_check_failed clock_behind : Issue
  too_few_entries : (transaction_id : String) → Issue
  unbalanced : (transaction_id asset_id : String) → Issue
  no_local_original not_exact_inverse : (transaction_id : String) → Issue
  no_original_transaction no_exact_reversal no_outbox_event : (operation_id : String) → Issue
  unsafe_conflict not_delivered not_fully_reversed terminal_outbox : (operation_id : String) → Issue

abbrev pub entries_of : String → List Entry → List Entry
entries_of id es = select (λ e. str_eq e.transaction_id id) es

abbrev pub tally_entries : List Entry → Dict Tally → Dict Tally
tally_entries [] tallies = tallies
tally_entries (e ∷ es) tallies = tally_entries es (tally_line e.asset_id e.amount_minor tallies)

abbrev pub unbalanced_assets : String → Dict Tally → List Issue
unbalanced_assets id [] = []
unbalanced_assets id ((asset_id, t) ∷ ts) =
    let rest = unbalanced_assets id ts in
    if is_balanced t then rest else unbalanced id asset_id ∷ rest

unfoldable pub entry_issues : String → List Entry → List Issue
entry_issues id es =
    if ltb (length es) 2
    then too_few_entries id ∷ []
    else unbalanced_assets id (tally_entries es [])

unfoldable pub balance_issues : List Transaction → List Entry → List Issue
balance_issues [] es = []
balance_issues (t ∷ ts) es =
    entry_issues t.transaction_id (entries_of t.transaction_id es) ++ balance_issues ts es

abbrev pub is_inverse_of : Entry → Entry → Bool
is_inverse_of e f =
    str_eq f.account_id e.account_id
    && str_eq f.asset_id e.asset_id
    && eq_ℤ f.amount_minor (negate e.amount_minor)

-- Equality of the two dictionaries: an account stands once in a transaction, so the keys are distinct.
abbrev pub exact_inverse : List Entry → List Entry → Bool
exact_inverse es fs = length es == length fs && all (λ e. any (is_inverse_of e) fs) es

abbrev pub reversal_issue : Transaction → List Transaction → List Entry → List Issue
reversal_issue t ts es = elim (t.reverses_transaction_id) [
  | none ↦ no_local_original t.transaction_id ∷ []
  | some original_id ↦
      if not (any (is_transaction original_id) ts)
      then no_local_original t.transaction_id ∷ []
      else if exact_inverse (entries_of original_id es) (entries_of t.transaction_id es)
      then []
      else not_exact_inverse t.transaction_id ∷ []
]

unfoldable pub reversal_issues : List Transaction → List Transaction → List Entry → List Issue
reversal_issues [] all_transactions es = []
reversal_issues (t ∷ ts) all_transactions es =
    (if same_kind t.kind reversal then reversal_issue t all_transactions es else [])
    ++ reversal_issues ts all_transactions es

-- `_ledger_invariant_issues`
abbrev pub ledger_invariant_issues : Db → List Issue
ledger_invariant_issues db =
    balance_issues db.transactions db.entries
    ++ reversal_issues db.transactions db.transactions db.entries

abbrev pub is_original_of : Operation → Transaction → Bool
is_original_of o t =
    str_eq t.operation_id o.operation_id
    && same_kind t.kind original
    && str_eq t.transaction_id o.original_transaction_id

abbrev pub is_reversal_of : Operation → String → Transaction → Bool
is_reversal_of o id t =
    str_eq t.operation_id o.operation_id
    && same_kind t.kind reversal
    && str_eq t.transaction_id id
    && same_text t.reverses_transaction_id (some o.original_transaction_id)

abbrev pub has_original : List Transaction → Operation → Bool
has_original ts o = count_where (is_original_of o) ts == 1

abbrev pub has_its_reversal : List Transaction → Operation → Bool
has_its_reversal ts o = elim (o.reversal_transaction_id) [
  | none ↦ true
  | some id ↦ count_where (is_reversal_of o id) ts == 1
]

abbrev pub is_some {ℓ} : {A : Type ℓ} → Option A → Bool
is_some none = false
is_some (some x) = true

-- A conflict stands only beside RECONCILIATION_REQUIRED.
abbrev pub conflict_is_safe : Bool → OperationState → Bool
conflict_is_safe conflict reconciliation_required = true
conflict_is_safe conflict _ = not conflict

-- What a state of an operation asks of its event.
abbrev pub is_delivered : OutboxState → Bool
is_delivered delivered = true
is_delivered _ = false

abbrev pub is_cancelled : OutboxState → Bool
is_cancelled cancelled = true
is_cancelled _ = false

abbrev pub state_issues : String → OperationState → OutboxState → Bool → List Issue
state_issues id confirmed outbox has_reversal =
    if is_delivered outbox then [] else not_delivered id ∷ []
state_issues id reversed outbox has_reversal =
    if is_cancelled outbox && has_reversal then [] else not_fully_reversed id ∷ []
state_issues id OperationState.pending outbox has_reversal =
    if is_delivered outbox || is_cancelled outbox then terminal_outbox id ∷ [] else []
state_issues id reconciliation_required outbox has_reversal = []

abbrev pub when_not : Bool → Issue → List Issue
when_not b issue = if b then [] else issue ∷ []

abbrev pub outbox_issues : Operation → Option OutboxRow → List Issue
outbox_issues o none = no_outbox_event o.operation_id ∷ []
outbox_issues o (some e) =
    when_not (conflict_is_safe o.reconciliation_conflict o.state) (unsafe_conflict o.operation_id)
    ++ state_issues o.operation_id o.state e.state (is_some o.reversal_transaction_id)

unfoldable pub operation_issues : Db → Operation → List Issue
operation_issues db o =
    when_not (has_original db.transactions o) (no_original_transaction o.operation_id)
    ++ when_not (has_its_reversal db.transactions o) (no_exact_reversal o.operation_id)
    ++ outbox_issues o (find (is_event_of o.operation_id) db.outbox)

-- `_state_invariant_issues`
unfoldable pub state_invariant_issues : Db → List Operation → List Issue
state_invariant_issues db [] = []
state_invariant_issues db (o ∷ os) = operation_issues db o ++ state_invariant_issues db os

-- What SQLite says of the file: `_verify_schema` returns, and `quick_check` and `foreign_key_check`
-- find nothing.
pub record FileReport : Type 0 where
  pub schema_verified : Bool
  pub quick_check_ok : Bool
  pub foreign_keys_ok : Bool

pub data HealthStatus : Type 0 where
  unhealthy degraded healthy : HealthStatus

pub record HealthReport : Type 0 where
  pub status : HealthStatus
  -- none for "unknown", else whether it is "ok"
  pub integrity_check : Option Bool
  pub pending_outbox : ℕ
  pub leased_outbox : ℕ
  pub expired_leases : ℕ
  pub reconciliation_required : ℕ
  pub issues : List Issue

abbrev pub outbox_is_pending : OutboxRow → Bool
outbox_is_pending e = elim (e.state) [
  | OutboxState.pending ↦ true
  | leased ↦ false
  | delivered ↦ false
  | cancelled ↦ false
]

abbrev pub outbox_is_leased : OutboxRow → Bool
outbox_is_leased e = elim (e.state) [
  | OutboxState.pending ↦ false
  | leased ↦ true
  | delivered ↦ false
  | cancelled ↦ false
]

-- `lease_until <= now`, which is not true of NULL
abbrev pub expired_by : ℕ → Option ℕ → Bool
expired_by now none = false
expired_by now (some t) = leb t now

abbrev pub lease_expired : ℕ → OutboxRow → Bool
lease_expired now e = outbox_is_leased e && expired_by now e.lease_until

abbrev pub is_reconciliation_required : Operation → Bool
is_reconciliation_required o = elim (o.state) [
  | OperationState.pending ↦ false
  | confirmed ↦ false
  | reversed ↦ false
  | reconciliation_required ↦ true
]

abbrev pub status_of : List Issue → ℕ → ℕ → HealthStatus
status_of (i ∷ is) expired required = unhealthy
status_of [] expired required = if not (expired == 0 && required == 0) then degraded else healthy

abbrev pub all_issues : FileReport → ℕ → Db → List Issue
all_issues file now db =
    when_not file.quick_check_ok quick_check_failed
    ++ when_not file.foreign_keys_ok foreign_key_check_failed
    ++ ledger_invariant_issues db
    ++ state_invariant_issues db db.operations
    ++ when_not (leb db.clock_high_water now) clock_behind

-- `_collect_health`
unfoldable pub collect_health : FileReport → ℕ → Db → HealthReport
collect_health file now db =
    if not file.schema_verified
    then record {
      status = unhealthy;
      integrity_check = none;
      pending_outbox = 0;
      leased_outbox = 0;
      expired_leases = 0;
      reconciliation_required = 0;
      issues = inspection_failed ∷ [];
    }
    else let expired = count_where (lease_expired now) db.outbox in
      let required = count_where is_reconciliation_required db.operations in
      record {
        status = status_of (all_issues file now db) expired required;
        integrity_check = some file.quick_check_ok;
        pending_outbox = count_where outbox_is_pending db.outbox;
        leased_outbox = count_where outbox_is_leased db.outbox;
        expired_leases = expired;
        reconciliation_required = required;
        issues = all_issues file now db;
      }
