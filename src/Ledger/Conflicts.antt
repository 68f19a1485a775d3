-- ===== src/Ledger/Conflicts.antt =====
-- Conflicting observations in `reconcile_operation` of services/ledger_store/store.py, over any calls.
use cryptogpt_one_intent_wal.Base.{
  ℕ, ◌≡◌, refl, sym, ◌∙◌, ◌⊎◌, String, Bool, true, false, some, Option, Result, ok, arith, find,
  Option-cases, Result-cases, Bool-cases, inl, inr, ap, ok-injective, eq_refl, subst, str_eq, leb,
  not, ◌&&◌, ◌||◌,
}
use cryptogpt_one_intent_wal.Base.Int.{ℤ}
use cryptogpt_one_intent_wal.Base.Ensures.{Ensures, Ensures-ok}
use cryptogpt_one_intent_wal.Base.Holds.{holds, holds-found, find-updated}
use cryptogpt_one_intent_wal.Ledger.Rows.{
  LedgerError, Db, Operation, Observation, ReconciliationResult, not_applied, unknown,
  reconciliation_required,
}
use cryptogpt_one_intent_wal.Ledger.Checks.{LedgerHost}
use cryptogpt_one_intent_wal.Ledger.Tables.{is_operation, is_observation, insert_observation}
use cryptogpt_one_intent_wal.Ledger.Health.{is_some}
use cryptogpt_one_intent_wal.Ledger.Store.{
  LedgerStore, OperationSnapshot, operation_snapshot, catch_constraint,
}
use cryptogpt_one_intent_wal.Ledger.Store.Reconcile.{
  Observed, Decision, decide, observe_not_applied, observe_unknown, observe_confirmed, stays_locked,
  reconcile_in, reconcile_operation, record_observation, repeat_observation, check_reconcile,
  ReconciliationReport, observation_row, mark_conflicting, lock_conflict, ensure_reversal,
  is_confirmed, is_reversed, has_other_owner, differs,
}
use cryptogpt_one_intent_wal.Ledger.Grows.{is_locked}
use cryptogpt_one_intent_wal.Ledger.Grows.Posting.{SameRows, SecondGrows}
use cryptogpt_one_intent_wal.Ledger.Grows.Reconciling.{
  insert_observation-SameRows, reconcile_in-Grows,
}
use cryptogpt_one_intent_wal.Ledger.Grows.Steps.{steps-Grows}
use cryptogpt_one_intent_wal.Ledger.Balance.Books.{StoreSteps}
use cryptogpt_one_intent_wal.Ledger.Calls.{transact-Committed, begin-eq, catch-ok, snapshot_row}

-- the operation is locked in conflict
abbrev IsLocked : String → Db → Type 0
IsLocked id db = holds (is_operation id) is_locked db.operations ≡ true

-- A decision that only records the conflict.
pub record Locked (db : Db) (d : Decision) : Type 0 where
  pub conflicting : d.conflicting ≡ true
  pub no_reversal : d.reversal_created ≡ false
  pub transactions : d.db.transactions ≡ db.transactions
  pub entries : d.db.entries ≡ db.entries
  pub outbox : d.db.outbox ≡ db.outbox

abbrev pub DecidesLocked : Db → Result LedgerError Decision → Type 0
DecidesLocked db m = (d : Decision) × (m ≡ ok d) × Locked db d

confirmed_lem :
    (o : Operation) (reference : Option String) (now : ℕ) (db : Db)
    → o.reconciliation_conflict ≡ true
    → Locked db (observe_confirmed o reference now db)
confirmed_lem o reference now db h = rw h (record {
  conflicting = refl;
  no_reversal = refl;
  transactions = refl;
  entries = refl;
  outbox = refl;
})

unknown_lem :
    (o : Operation) (now : ℕ) (db : Db)
    → o.reconciliation_conflict ≡ true
    → Locked db (observe_unknown o now db)
unknown_lem o now db h = rw h (record {
  conflicting = refl;
  no_reversal = refl;
  transactions = refl;
  entries = refl;
  outbox = refl;
})

decide-Locked :
    (host : LedgerHost) (x : Observed) (o : Operation) (now : ℕ) (db : Db)
    → o.reconciliation_conflict ≡ true
    → DecidesLocked db (decide host x o now db)
unfolding decide observe_not_applied
decide-Locked host x o now db h = by_result x.result refl
  where
    by_result :
        (r : ReconciliationResult) → x.result ≡ r → DecidesLocked db (decide host x o now db)
    by_result ReconciliationResult.confirmed e = (
      observe_confirmed o x.external_reference now db,
      rw (decide, e),
      confirmed_lem o x.external_reference now db h,
    )
    by_result unknown e = (observe_unknown o now db, rw (decide, e), unknown_lem o now db h)
    by_result not_applied e = (
      stays_locked db,
      rw (decide, e) (rw (observe_not_applied, h)),
      record {
        conflicting = refl;
        no_reversal = refl;
        transactions = refl;
        entries = refl;
        outbox = refl;
      },
    )

-- A decision that reports a conflict of an operation without one locks it.
abbrev Locks : Operation → ℕ → Db → Decision → Type 0
Locks o now db d = (d.conflicting ≡ false) ⊎ (d.db ≡ (lock_conflict o.operation_id now db).db)

module _ (host : LedgerHost) (o : Operation) (now : ℕ) (db : Db)
    (free : o.reconciliation_conflict ≡ false) where
  unknown-Locks : Locks o now db (observe_unknown o now db)
  unknown-Locks = elim (Bool-cases (is_confirmed o || is_reversed o)) [
    | inl ended ↦ rw (free, ended) (inl refl)
    | inr open_ ↦ rw (free, open_) (inl refl)
  ]

  confirmed-Locks :
      (reference : Option String) → Locks o now db (observe_confirmed o reference now db)
  confirmed-Locks reference = elim (Bool-cases (has_other_owner o.operation_id reference db)) [
    | inl other ↦ rw (free, other) (inr refl)
    | inr a ↦ elim (Bool-cases (is_some o.reversal_transaction_id || is_reversed o)) [
      | inl two ↦ rw (free, a, two) (inr refl)
      | inr b ↦ elim (Bool-cases (differs o.external_reference reference)) [
        | inl three ↦ rw (free, a, b, three) (inr refl)
        | inr c ↦ rw (free, a, b, c) (inl refl)
      ]
    ]
  ]

  not_applied-Locks : Ensures (Locks o now db) (observe_not_applied host o now db)
  unfolding observe_not_applied
  not_applied-Locks =
      elim (Bool-cases (is_confirmed o && not (is_some o.reversal_transaction_id))) [
        | inl done ↦ rw (observe_not_applied, free, done) (inr refl)
        | inr unsettled ↦ elim (Result-cases (ensure_reversal host o now db)) [
          | inr (x, e) ↦ rw (observe_not_applied, free, unsettled, e) tt
          | inl (db', e) ↦ rw (observe_not_applied, free, unsettled, e) (inl refl)
        ]
      ]

  decide-Locks : (x : Observed) → Ensures (Locks o now db) (decide host x o now db)
  unfolding decide
  decide-Locks x = by_result x.result refl
    where
      by_result :
          (r : ReconciliationResult)
          → x.result ≡ r
          → Ensures (Locks o now db) (decide host x o now db)
      by_result ReconciliationResult.confirmed e =
          rw (decide, e) (confirmed-Locks x.external_reference)
      by_result not_applied e = rw (decide, e) not_applied-Locks
      by_result unknown e = rw (decide, e) unknown-Locks

-- What an observation that is recorded has done.
record IsRecorded (host : LedgerHost) (x : Observed) (fingerprint : String) (o : Operation)
    (now : ℕ) (db : Db) (report : ReconciliationReport) (after : Db) : Type 0 where
  start : Db
  started : insert_observation (observation_row x fingerprint) db ≡ ok start
  decision : Decision
  decided : decide host x o now start ≡ ok decision
  result : after ≡ mark_conflicting x.observation_id decision.conflicting decision.db
  fresh : report.duplicate_observation ≡ false
  conflicting : report.conflicting_observation ≡ decision.conflicting
  reversal : report.reversal_created ≡ decision.reversal_created
  shown : operation_snapshot x.operation_id after ≡ ok report.operation

record-inv :
    (host : LedgerHost) (x : Observed) (fingerprint : String) (o : Operation) (now : ℕ) (db : Db)
    {report : ReconciliationReport} {after : Db}
    → record_observation host x fingerprint o now db ≡ ok (report, after)
    → IsRecorded host x fingerprint o now db report after
unfolding record_observation
record-inv host x fingerprint o now db {report} {after} h =
    elim (Result-cases (insert_observation (observation_row x fingerprint) db)) [
      | inr (y, e) ↦ absurd (cc (rw (record_observation, e) at h))
      | inl (d1, e1) ↦ elim (Result-cases (decide host x o now d1)) [
        | inr (y, e) ↦ absurd (cc (rw (record_observation, e1, e) at h))
        | inl (d, e2) ↦
            let d' = mark_conflicting x.observation_id d.conflicting d.db in
            elim (Result-cases (operation_snapshot x.operation_id d')) [
              | inr (y, e) ↦ absurd (cc (rw (record_observation, e1, e2, e) at h))
              | inl (s, e3) ↦
                  let out =
                    ok-injective _ (report, after) (rw (record_observation, e1, e2, e3) at h) in
                  let same : d' ≡ after = ap (λ p. p.1) out in
                  record {
                    start = d1;
                    started = e1;
                    decision = d;
                    decided = e2;
                    result = sym same;
                    fresh = ap (λ p. p.0.duplicate_observation) (sym out);
                    conflicting = ap (λ p. p.0.conflicting_observation) (sym out);
                    reversal = ap (λ p. p.0.reversal_created) (sym out);
                    shown =
                        subst (λ y. operation_snapshot x.operation_id y ≡ ok report.operation) same
                          (e3 ∙ ap (λ p. ok p.0.operation) out);
                  }
            ]
      ]
    ]

-- What an observation that was there has done: nothing.
record IsRepeated (x : Observed) (db : Db) (report : ReconciliationReport) (after : Db)
    : Type 0 where
  same : after ≡ db
  duplicate : report.duplicate_observation ≡ true
  reversal : report.reversal_created ≡ false
  shown : operation_snapshot x.operation_id after ≡ ok report.operation

repeat-inv :
    (host : LedgerHost) (x : Observed) (fingerprint : String) (seen : Observation) (db : Db)
    {report : ReconciliationReport} {after : Db}
    → repeat_observation host x fingerprint seen db ≡ ok (report, after)
    → IsRepeated x db report after
unfolding repeat_observation
repeat-inv host x fingerprint seen db {report} {after} h =
    elim (Bool-cases (str_eq seen.observation_fingerprint fingerprint)) [
      | inr other ↦ absurd (cc (rw (repeat_observation, other) at h))
      | inl same ↦ elim (Result-cases (operation_snapshot x.operation_id db)) [
        | inr (y, e) ↦ absurd (cc (rw (repeat_observation, same, e) at h))
        | inl (s, e) ↦
            let out = ok-injective _ (report, after) (rw (repeat_observation, same, e) at h) in
            let kept : db ≡ after = ap (λ p. p.1) out in
            record {
              same = sym kept;
              duplicate = ap (λ p. p.0.duplicate_observation) (sym out);
              reversal = ap (λ p. p.0.reversal_created) (sym out);
              shown =
                  subst (λ y. operation_snapshot x.operation_id y ≡ ok report.operation) kept
                    (e ∙ ap (λ p. ok p.0.operation) out);
            }
      ]
    ]

reconcile-inv :
    (host : LedgerHost) (x : Observed) (fingerprint : String) (now : ℕ) (db : Db)
    {report : ReconciliationReport} {after : Db}
    → reconcile_in host x fingerprint now db ≡ ok (report, after)
    → (o : Operation) × (find (is_operation x.operation_id) db.operations ≡ some o)
      × (IsRepeated x db report after ⊎ IsRecorded host x fingerprint o now db report after)
unfolding reconcile_in
reconcile-inv host x fingerprint now db h =
    elim (Option-cases (find (is_operation x.operation_id) db.operations)) [
      | inl missing ↦ absurd (cc (rw (reconcile_in, missing) at h))
      | inr (o, e0) ↦ elim (Bool-cases (leb o.created_at x.observed_at)) [
        | inr early ↦ absurd (cc (rw (reconcile_in, e0, early) at h))
        | inl e1 ↦ elim (Option-cases (find (is_observation x.observation_id) db.observations)) [
          | inl new ↦ (
            o,
            e0,
            inr (record-inv host x fingerprint o now db (rw (reconcile_in, e0, e1, new) at h)),
          )
          | inr (seen, e2) ↦ (
            o,
            e0,
            inl (repeat-inv host x fingerprint seen db (rw (reconcile_in, e0, e1, e2) at h)),
          )
        ]
      ]
    ]

mark-same :
    (id : String) (c : Bool) (db : Db)
    → ((mark_conflicting id c db).operations ≡ db.operations)
      × ((mark_conflicting id c db).transactions ≡ db.transactions)
      × ((mark_conflicting id c db).entries ≡ db.entries)
      × ((mark_conflicting id c db).outbox ≡ db.outbox)
mark-same id true db = (refl, refl, refl, refl)
mark-same id false db = (refl, refl, refl, refl)

-- The first conflict locks the operation.
first_locks :
    (host : LedgerHost) (x : Observed) (fingerprint : String) (o : Operation) (now : ℕ) (db : Db)
    {report : ReconciliationReport} {after : Db}
    → find (is_operation x.operation_id) db.operations ≡ some o
    → o.reconciliation_conflict ≡ false
    → IsRecorded host x fingerprint o now db report after
    → report.conflicting_observation ≡ true
    → IsLocked x.operation_id after
first_locks host x fingerprint o now db found free r conflicts =
    elim (Ensures-ok (Locks o now r.start) (decide-Locks host o now r.start free x) r.decided) [
      | inl agreed ↦ absurd (cc (conflicts, r.conflicting, agreed))
      | inr locks ↦
          let (ops, _) =
            Ensures-ok (SameRows db)
              (insert_observation-SameRows host (observation_row x fingerprint) db) r.started in
          let row : find (is_operation x.operation_id) r.start.operations ≡ some o = rw ops found in
          rw
            (
              r.result,
              (mark-same x.observation_id r.decision.conflicting r.decision.db).0,
              locks,
              find-updated (is_operation x.operation_id) (is_operation o.operation_id)
                  (λ y. record y {
                    state = reconciliation_required;
                    reconciliation_conflict = true;
                    updated_at = now;
                  })
                  r.start.operations o (λ y. refl) row (eq_refl o.operation_id),
            )
            refl
    ]

-- the books and the outbox are as they were
abbrev SameBooks : Db → Db → Type 0
SameBooks db after =
    (after.transactions ≡ db.transactions)
    × (after.entries ≡ db.entries)
    × (after.outbox ≡ db.outbox)

insert_observation-SameBooks :
    (o : Observation) (db : Db) → Ensures (SameBooks db) (insert_observation o db)
unfolding insert_observation
insert_observation-SameBooks o db = ground arith

-- What an observation of a locked operation comes to.
pub record IsFinal (report : ReconciliationReport) (db after : Db) : Type 0 where
  pub shown : report.operation.reconciliation_conflict ≡ true
  pub counted : (report.duplicate_observation ≡ true) ⊎ (report.conflicting_observation ≡ true)
  pub no_reversal : report.reversal_created ≡ false
  pub transactions : after.transactions ≡ db.transactions
  pub entries : after.entries ≡ db.entries
  pub outbox : after.outbox ≡ db.outbox

-- a locked operation is shown in conflict
shown_locked :
    (id : String) (db : Db) {s : OperationSnapshot}
    → operation_snapshot id db ≡ ok s
    → IsLocked id db
    → s.reconciliation_conflict ≡ true
shown_locked id db e locked =
    let (o, found, same) = snapshot_row id db e in
    let (q, found', in_conflict) = holds-found (is_operation id) is_locked db.operations locked in
    same ∙ (ground (arith, found, found', in_conflict))

locked-IsFinal :
    (host : LedgerHost) (x : Observed) (fingerprint : String) (now : ℕ) (db : Db)
    {report : ReconciliationReport} {after : Db}
    → reconcile_in host x fingerprint now db ≡ ok (report, after)
    → IsLocked x.operation_id db
    → IsFinal report db after
locked-IsFinal host x fingerprint now db {report} {after} h locked =
    let still : IsLocked x.operation_id after =
      let grows = Ensures-ok (SecondGrows db) (reconcile_in-Grows host x fingerprint now db) h in
      grows.operations.locked x.operation_id locked in
    let (o, found, outcome) = reconcile-inv host x fingerprint now db h in
    let (q, found', in_conflict) =
      holds-found (is_operation x.operation_id) is_locked db.operations locked in
    elim outcome [
      | inl r ↦ record {
        shown = shown_locked x.operation_id after r.shown still;
        counted = inl r.duplicate;
        no_reversal = r.reversal;
        transactions = ap (λ (d : Db). d.transactions) r.same;
        entries = ap (λ (d : Db). d.entries) r.same;
        outbox = ap (λ (d : Db). d.outbox) r.same;
      }
      | inr r ↦
          let conflict : o.reconciliation_conflict ≡ true =
            ground (arith, found, found', in_conflict) in
          let (d, decided, l) = decide-Locked host x o now r.start conflict in
          let same : d ≡ r.decision = ok-injective d r.decision (sym decided ∙ r.decided) in
          let (t, e, b) =
            Ensures-ok (SameBooks db)
              (insert_observation-SameBooks (observation_row x fingerprint) db) r.started in
          let (_, t', e', b') = mark-same x.observation_id r.decision.conflicting r.decision.db in
          let l' : Locked r.start r.decision = subst (Locked r.start) same l in
          record {
            shown = shown_locked x.operation_id after r.shown still;
            counted = inr (r.conflicting ∙ l'.conflicting);
            no_reversal = r.reversal ∙ l'.no_reversal;
            transactions = ap (λ (y : Db). y.transactions) r.result ∙ t' ∙ l'.transactions ∙ t;
            entries = ap (λ (y : Db). y.entries) r.result ∙ e' ∙ l'.entries ∙ e;
            outbox = ap (λ (y : Db). y.outbox) r.result ∙ b' ∙ l'.outbox ∙ b;
          }
    ]

check_reconcile-id :
    (host : LedgerHost) (id observation_id : String) (result : ReconciliationResult)
    (observed_at now : ℤ) (reference : Option String) {out : ℕ × (Observed × String)}
    → check_reconcile host id observation_id result observed_at now reference ≡ ok out
    → out.1.0.operation_id ≡ id
unfolding check_reconcile
check_reconcile-id host id observation_id result observed_at now reference h = ground arith

-- the transaction of `reconcile_operation`
abbrev body :
    LedgerHost → Observed × String → ℕ → Db → Result LedgerError (ReconciliationReport × Db)
body host (x, fingerprint) time db = catch_constraint (reconcile_in host x fingerprint time db)

module _ (host : LedgerHost) (id : String) where
  -- A call for an operation that was not in conflict, and that reported one, leaves it locked.
  call_locks :
      (observation_id : String) (result : ReconciliationResult) (observed_at now : ℤ)
      (reference : Option String) (st : LedgerStore) {before : OperationSnapshot}
      {report : ReconciliationReport}
      → operation_snapshot id st.db ≡ ok before
      → before.reconciliation_conflict ≡ false
      → (reconcile_operation host id observation_id result observed_at now reference st).0
        ≡ ok report
      → report.duplicate_observation ≡ false
      → report.conflicting_observation ≡ true
      → IsLocked id
          (reconcile_operation host id observation_id result observed_at now reference st).1.db
  unfolding reconcile_operation
  call_locks observation_id result observed_at now reference st {before} {report} seen free h new
        conflicts =
      let c =
        transact-Committed (check_reconcile host id observation_id result observed_at now reference)
          (body host) st h in
      let same =
        check_reconcile-id host id observation_id result observed_at now reference c.passed in
      let (q, shown, flag) = snapshot_row id st.db seen in
      let done = catch-ok (reconcile_in host c.x.0 c.x.1 c.time c.db) c.done in
      let (o, found, outcome) = reconcile-inv host c.x.0 c.x.1 c.time c.db done in
      let there : find (is_operation id) st.db.operations ≡ some o =
        rw (same, begin-eq c.time st c.begun) at found in
      let one : o.reconciliation_conflict ≡ false = ground (arith, there, shown, flag, free) in
      elim outcome [
        | inl r ↦ absurd (cc (new, r.duplicate))
        | inr r ↦
            let locked = first_locks host c.x.0 c.x.1 o c.time c.db found one r conflicts in
            rw same at locked
      ]

  -- Once a call of reconcile_operation has reported a new observation as conflicting, for an
  -- operation that was not in conflict before it, then after any calls every call for this
  -- operation that returns shows the conflict, reports a duplicate or a conflict, makes no
  -- reversal, and leaves the transactions, the entries and the outbox alone.
  pub conflict-IsFinal :
      (observation_id : String) (result : ReconciliationResult) (observed_at now : ℤ)
      (reference : Option String) (observation_id' : String) (result' : ReconciliationResult)
      (observed_at' now' : ℤ) (reference' : Option String) (st : LedgerStore) {later : LedgerStore}
      {before : OperationSnapshot} {report again : ReconciliationReport}
      → operation_snapshot id st.db ≡ ok before
      → before.reconciliation_conflict ≡ false
      → (reconcile_operation host id observation_id result observed_at now reference st).0
        ≡ ok report
      → report.duplicate_observation ≡ false
      → report.conflicting_observation ≡ true
      → StoreSteps host
          (reconcile_operation host id observation_id result observed_at now reference st).1
          later
      → (reconcile_operation host id observation_id' result' observed_at' now' reference' later).0
        ≡ ok again
      → IsFinal again later.db
          (reconcile_operation host id observation_id' result' observed_at' now' reference'
            later).1.db
  unfolding reconcile_operation
  conflict-IsFinal observation_id result observed_at now reference observation_id' result'
        observed_at' now' reference' st {later} {before} {report} {again} seen free first new
        conflicts steps second =
      let c =
        transact-Committed
          (check_reconcile host id observation_id' result' observed_at' now' reference') (body host)
          later second in
      let same =
        check_reconcile-id host id observation_id' result' observed_at' now' reference' c.passed in
      let started = begin-eq c.time later c.begun in
      let locked : IsLocked id later.db = (steps-Grows host steps).operations.locked id (
        call_locks observation_id result observed_at now reference st seen free first new
          conflicts) in
      let final =
        locked-IsFinal host c.x.0 c.x.1 c.time c.db
          (catch-ok (reconcile_in host c.x.0 c.x.1 c.time c.db) c.done)
          (rw (same, started) locked) in
      record {
        shown = final.shown;
        counted = final.counted;
        no_reversal = final.no_reversal;
        transactions = final.transactions ∙ ap (λ (d : Db). d.transactions) started;
        entries = final.entries ∙ ap (λ (d : Db). d.entries) started;
        outbox = final.outbox ∙ ap (λ (d : Db). d.outbox) started;
      }
