-- ===== src/Ledger/Tests.antt =====
-- The ledger store on a concrete run, and the theorems at it. The two host functions are stand-ins: a
-- constant digest, and a payload that is always read as the empty object.
use cryptogpt_one_intent_wal.Base.{◌≡◌, refl, ok, true, false, some, none, List, [], ◌∷◌, length}
use mathlib.Core.List.{flat_map}
use cryptogpt_one_intent_wal.Base.Int.{pos, negsuc, ◌+ℤ◌}
use cryptogpt_one_intent_wal.Canonical.Value.{obj, end}
use cryptogpt_one_intent_wal.Canonical.Bytes.{leb_units}
use cryptogpt_one_intent_wal.Ledger.Rows.{
  empty_db, LedgerLine, not_applied, ReconciliationResult, OutboxState, OperationState,
}
use cryptogpt_one_intent_wal.Ledger.Checks.{
  LedgerHost, validate_text, validate_texts, validate_time, validate_positive_int, canonical_json,
  validate_node,
}
use cryptogpt_one_intent_wal.Ledger.Lines.{normalize_lines, check_lines}
use cryptogpt_one_intent_wal.Ledger.Lines.Balance.{asset_total, normalize_lines-balanced}
use cryptogpt_one_intent_wal.Ledger.Tables.{
  insert_account, insert_operation, insert_transaction, insert_entry, insert_entries, insert_outbox,
  insert_observation,
}
use cryptogpt_one_intent_wal.Ledger.Health.{
  collect_health, state_invariant_issues, operation_issues, reversal_issues, balance_issues,
  entry_issues,
}
use cryptogpt_one_intent_wal.Ledger.Store.{
  LedgerStore, OperationSnapshot, begin, require_structural_health, advance_clock, register_in,
  check_register, register_account, operation_snapshot,
}
use cryptogpt_one_intent_wal.Ledger.Store.Post.{
  PostRequest, prepare, check_post, post_in, insert_posting, check_accounts, post_operation,
}
use cryptogpt_one_intent_wal.Ledger.Store.Outbox.{
  claim_in, check_claim, lease_events, outbox_event, outbox_events, claim_outbox, deliver_in,
  check_delivery, mark_outbox_delivered,
}
use cryptogpt_one_intent_wal.Ledger.Store.Reconcile.{
  reconcile_operation, reconcile_in, check_reconcile, check_reference, record_observation, decide,
  observe_not_applied, ensure_reversal, create_reversal, set_reversal, repeat_observation,
  ReconciliationReport,
}
use cryptogpt_one_intent_wal.Ledger.Retries.{IsNew, posting_is_idempotent}
use cryptogpt_one_intent_wal.Ledger.Balance.{IsBalanced}
use cryptogpt_one_intent_wal.Ledger.Balance.Books.{
  here, after_call, register_call, post_call, reconcile_call, claim_call, deliver_call,
  books_balance,
}
use cryptogpt_one_intent_wal.Ledger.Delivery.{delivered_at_most_once}
use cryptogpt_one_intent_wal.Ledger.Conflicts.{IsFinal, conflict-IsFinal}

program : Unit {0}
unfolding register_account register_in check_register validate_text validate_texts validate_time
    validate_positive_int begin require_structural_health advance_clock collect_health
    state_invariant_issues operation_issues reversal_issues balance_issues entry_issues
    insert_account post_operation check_post prepare post_in insert_posting check_accounts
    insert_operation insert_transaction insert_entry insert_entries insert_outbox insert_observation
    normalize_lines check_lines leb_units canonical_json validate_node operation_snapshot ◌+ℤ◌
    claim_outbox claim_in check_claim lease_events outbox_event outbox_events reconcile_operation
    reconcile_in check_reconcile check_reference record_observation decide observe_not_applied
    ensure_reversal create_reversal set_reversal deliver_in flat_map mark_outbox_delivered
    check_delivery repeat_observation
program = tt

abbrev host : LedgerHost
host = record { sha256 = λ _. "digest"; json_loads = λ _. obj end }

abbrev start : LedgerStore
start = record {
  closed = false;
  file = record { schema_verified = true; quick_check_ok = true; foreign_keys_ok = true };
  db = empty_db;
}

abbrev lines : List LedgerLine
lines =
    record { account_id = "user"; asset_id = "JPYC"; amount_minor = pos 500 }
    ∷ record { account_id = "pool"; asset_id = "JPYC"; amount_minor = negsuc 499 }
    ∷ []

abbrev request : PostRequest
request = record {
  operation_id = "op-1";
  idempotency_key = "key-1";
  transaction_id = "tx-1";
  lines = lines;
  outbox = record { event_id = "ev-1"; topic = "transfer"; dedupe_key = "dd-1"; payload = obj end };
}

abbrev with_user : LedgerStore
with_user = (register_account "user" "JPYC" (pos 1) start).1

abbrev with_pool : LedgerStore
with_pool = (register_account "pool" "JPYC" (pos 2) with_user).1

abbrev posted : LedgerStore
posted = (post_operation host request (pos 3) with_pool).1

abbrev leased : LedgerStore
leased = (claim_outbox host "worker" (pos 4) (pos 30) (pos 10) posted).1

abbrev reversed : LedgerStore
reversed = (reconcile_operation host "op-1" "obs-1" not_applied (pos 3) (pos 5) none posted).1

posted_entries_test : length posted.db.entries ≡ 2
unfolding program
posted_entries_test = refl

reversed_entries_test : length reversed.db.entries ≡ 4
unfolding program
reversed_entries_test = refl

books_balance_example : IsBalanced reversed.db.entries
books_balance_example = books_balance host {st = start} refl (
    after_call
      (after_call
        (after_call (after_call here (register_call "user" "JPYC" (pos 1)))
          (register_call "pool" "JPYC" (pos 2)))
        (post_call request (pos 3)))
      (reconcile_call "op-1" "obs-1" not_applied (pos 3) (pos 5) none))

abbrev ordered_lines : List LedgerLine
ordered_lines =
    record { account_id = "pool"; asset_id = "JPYC"; amount_minor = negsuc 499 }
    ∷ record { account_id = "user"; asset_id = "JPYC"; amount_minor = pos 500 }
    ∷ []

normalize_lines-balanced_example : asset_total "JPYC" ordered_lines ≡ pos 0
unfolding program
normalize_lines-balanced_example = normalize_lines-balanced "JPYC" lines ordered_lines refl

abbrev delivered : LedgerStore
delivered = (mark_outbox_delivered "ev-1" "worker" (pos 6) leased).1

delivered_test : (mark_outbox_delivered "ev-1" "worker" (pos 6) leased).0 ≡ ok true
unfolding program
delivered_test = refl

delivered_at_most_once_example :
    ¬ ((mark_outbox_delivered "ev-1" "worker" (pos 7) delivered).0 ≡ ok true)
delivered_at_most_once_example =
    delivered_at_most_once host "ev-1" "worker" "worker" (pos 6) (pos 7) leased delivered_test here

abbrev reversed_snapshot : OperationSnapshot
reversed_snapshot = record {
  operation_id = "op-1";
  idempotency_key = "key-1";
  state = OperationState.reversed;
  original_transaction_id = "tx-1";
  reversal_transaction_id = some "reversal-digest";
  external_reference = none;
  reconciliation_conflict = false;
  outbox_state = OutboxState.cancelled;
}

abbrev conflict_snapshot : OperationSnapshot
conflict_snapshot = record reversed_snapshot {
  state = OperationState.reconciliation_required;
  reconciliation_conflict = true;
}

-- a confirmation after the reversal conflicts with it
abbrev conflict_report : ReconciliationReport
conflict_report = record {
  operation = conflict_snapshot;
  result = ReconciliationResult.confirmed;
  duplicate_observation = false;
  conflicting_observation = true;
  reversal_created = false;
}

abbrev in_conflict : LedgerStore
in_conflict =
    (reconcile_operation host "op-1" "obs-2" ReconciliationResult.confirmed (pos 5) (pos 6)
      (some "ref") reversed).1

conflict_test :
    (operation_snapshot "op-1" reversed.db ≡ ok reversed_snapshot)
    × ((reconcile_operation host "op-1" "obs-2" ReconciliationResult.confirmed
          (pos 5)
          (pos 6)
          (some "ref")
          reversed).0
        ≡ ok conflict_report)
unfolding program
conflict_test = (refl, refl)

abbrev third_report : ReconciliationReport
third_report = record conflict_report { result = not_applied }

third_test :
    (reconcile_operation host "op-1" "obs-3" not_applied (pos 6) (pos 7) none in_conflict).0
    ≡ ok third_report
unfolding program
third_test = refl

conflict-IsFinal_example :
    IsFinal third_report in_conflict.db
      (reconcile_operation host "op-1" "obs-3" not_applied (pos 6) (pos 7) none in_conflict).1.db
conflict-IsFinal_example =
    conflict-IsFinal host "op-1" "obs-2" ReconciliationResult.confirmed (pos 5) (pos 6) (some "ref")
      "obs-3" not_applied (pos 6) (pos 7) none reversed conflict_test.0 refl conflict_test.1 refl
      refl here third_test

abbrev first_answer : OperationSnapshot
first_answer = record {
  operation_id = "op-1";
  idempotency_key = "key-1";
  state = OperationState.pending;
  original_transaction_id = "tx-1";
  reversal_transaction_id = none;
  external_reference = none;
  reconciliation_conflict = false;
  outbox_state = OutboxState.pending;
}

posted_test :
    ((post_operation host request (pos 3) with_pool).0 ≡ ok first_answer)
    × IsNew request with_pool.db
    × (validate_time (pos 9) ≡ ok 9)
    × (begin 9 delivered ≡ ok (record delivered.db { clock_high_water = 9 }))
unfolding program
posted_test = (refl, (refl, refl), refl, refl)

posting_is_idempotent_example :
    (again : OperationSnapshot) × (operation_snapshot "op-1" delivered.db ≡ ok again)
    × (post_operation host request (pos 9) delivered
        ≡ (ok again, record delivered { db = record delivered.db { clock_high_water = 9 } }))
posting_is_idempotent_example =
    posting_is_idempotent host request (pos 3) (pos 9) with_pool posted_test.1 posted_test.0
      (after_call (after_call here (claim_call "worker" (pos 4) (pos 30) (pos 10)))
        (deliver_call "ev-1" "worker" (pos 6)))
      posted_test.2 posted_test.3
