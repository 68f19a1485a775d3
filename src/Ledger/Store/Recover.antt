-- ===== src/Ledger/Store/Recover.antt =====
-- `recover` of services/ledger_store/store.py.
use cryptogpt_one_intent_wal.Base.{
  ℕ, Bool, false, ◌&&◌, ◌||◌, none, some, List, if◌then◌else◌, Result, ok, err, any, update_where,
  count_where,
}
use cryptogpt_one_intent_wal.Base.Int.{ℤ}
use cryptogpt_one_intent_wal.Ledger.Rows.{
  LedgerError, unsafe_store, Db, Operation, OutboxRow, OutboxState, reconciliation_required,
}
use cryptogpt_one_intent_wal.Ledger.Checks.{validate_time}
use cryptogpt_one_intent_wal.Ledger.Tables.{is_event_of}
use cryptogpt_one_intent_wal.Ledger.Health.{
  HealthReport, collect_health, is_delivered, is_cancelled, lease_expired,
}
use cryptogpt_one_intent_wal.Ledger.Store.{LedgerStore, begin, is_unhealthy}
use cryptogpt_one_intent_wal.Ledger.Store.Outbox.{is_pending_operation}

pub record RecoveryReport : Type 0 where
  pub requeued_expired_leases : ℕ
  pub operations_flagged_for_reconciliation : ℕ
  pub health : HealthReport

abbrev pub expire_lease : ℕ → OutboxRow → OutboxRow
expire_lease now e = record e {
  state = OutboxState.pending;
  worker_id = none;
  lease_until = none;
  available_at = now;
  last_error_code = some "LEASE_EXPIRED";
  updated_at = now;
}

abbrev pub is_stranded : List OutboxRow → Operation → Bool
is_stranded es o =
    is_pending_operation o
    && any (λ e. is_event_of o.operation_id e && (is_delivered e.state || is_cancelled e.state)) es

-- the transaction of `recover`: the two counts, and the database
unfoldable pub recover_in : ℕ → Db → ℕ × ℕ × Db
recover_in now db =
    let outbox = update_where (lease_expired now) (expire_lease now) db.outbox in
    (
      count_where (lease_expired now) db.outbox,
      count_where (is_stranded outbox) db.operations,
      record db {
        outbox = outbox;
        operations =
            update_where (is_stranded outbox)
              (λ o. record o {
                state = reconciliation_required;
                reconciliation_conflict = false;
                updated_at = now;
              })
              db.operations;
      },
    )

-- The transaction is committed before the health check, so its exception keeps the changes.
abbrev pub recovered :
    ℕ → ℕ × ℕ × Db → LedgerStore → Result LedgerError RecoveryReport × LedgerStore
recovered now (requeued, flagged, db) st =
    let health = collect_health st.file now db in
    let st' = record st { db = db } in
    if is_unhealthy health then (err unsafe_store, st') else (
      ok (record {
        requeued_expired_leases = requeued;
        operations_flagged_for_reconciliation = flagged;
        health = health;
      }),
      st',
    )

unfoldable pub recover : ℤ → LedgerStore → Result LedgerError RecoveryReport × LedgerStore
unfolding recover_in begin
recover now st = elim (validate_time now) [
  | err e ↦ (err e, st)
  | ok time ↦ elim (begin time st) [
    | err e ↦ (err e, st)
    | ok db ↦ recovered time (recover_in time db) st
  ]
]
