-- ===== src/Ledger/Grows/Reconciling.antt =====
-- `reconcile_operation` of services/ledger_store/store.py, and the relation Grows.
use cryptogpt_one_intent_wal.Base.{
  ℕ, ◌≡◌, refl, ◌∙◌, String, Bool, true, false, not, ◌&&◌, ◌||◌, some, Option, any, leb, length,
  sorted, find, arith, Bool-cases, Option-cases, Result-cases, inl, inr, str_eq, map, eq_iff,
}
use cryptogpt_one_intent_wal.Base.RowLaws.{find-holds}
use cryptogpt_one_intent_wal.Base.Holds.{holds, holds-update}
use cryptogpt_one_intent_wal.Base.Ensures.{Ensures, Ensures-ok, Ensures-imp}
use cryptogpt_one_intent_wal.Ledger.Rows.{
  Db, Operation, Observation, OperationState, ReconciliationResult, not_applied, unknown, reversed,
  reconciliation_required,
}
use cryptogpt_one_intent_wal.Ledger.Checks.{LedgerHost}
use cryptogpt_one_intent_wal.Ledger.Tables.{
  insert_transaction, insert_entries, insert_observation, is_operation, is_observation, same_text,
}
use cryptogpt_one_intent_wal.Ledger.Health.{entries_of, is_some}
use cryptogpt_one_intent_wal.Ledger.Store.{operation_snapshot}
use cryptogpt_one_intent_wal.Ledger.Store.Reconcile.{
  set_reversal, create_reversal, reversal_id, reversal_transaction, leb_entries, negated,
  ensure_reversal, Decision, decide, observe_not_applied, observe_unknown, observe_confirmed,
  is_confirmed, is_reversed, has_other_owner, differs, Observed, record_observation,
  repeat_observation, reconcile_in, observation_row, mark_conflicting, set_operation_state,
  lock_conflict, confirmed_db, cancelled_db, confirm_event, cancel_event,
}
use cryptogpt_one_intent_wal.Ledger.Grows.{
  Grows, is_free, same_Grows, then_Grows, same_operations, same_outbox, update_operations,
  update_free, update_outbox,
}
use cryptogpt_one_intent_wal.Ledger.Grows.Posting.{
  SameRows, SecondGrows, insert_transaction-SameRows, insert_entries-SameRows,
}

-- the operation is there, and not in conflict
abbrev pub Free : String → Db → Type 0
Free id db = holds (is_operation id) is_free db.operations ≡ true

-- it stays so
abbrev GrowsFree : String → Db → Db → Type 0
GrowsFree id db db' = Grows db db' × (Free id db → Free id db')

set_reversal-GrowsFree :
    (id rid : String) (db : Db) → Ensures (GrowsFree id db) (set_reversal id rid db)
unfolding set_reversal
set_reversal-GrowsFree id rid db =
    elim (Bool-cases (
      any (λ o. not (is_operation id o) && same_text o.reversal_transaction_id (some rid))
        db.operations)) [
          | inl taken ↦ rw taken tt
          | inr unused ↦ rw unused (
            record {
              operations =
                  update_operations (is_operation id) _ db.operations (λ o. (refl, refl, refl))
                    (λ i x e q h. h);
              outbox = same_outbox db.outbox;
            },
            holds-update (is_operation id) is_free (is_operation id) _ db.operations (λ o. refl)
                (λ x e q h. h),
          )
        ]

lock-Grows : (id : String) (now : ℕ) (db : Db) → Grows db (lock_conflict id now db).db
lock-Grows id now db = record {
  operations =
      update_operations (is_operation id) _ db.operations (λ o. (refl, refl, refl))
        (λ i x e q h. refl);
  outbox = same_outbox db.outbox;
}

-- an operation that is not in conflict may be set to any state
state-Grows :
    (id : String) (state : OperationState) (now : ℕ) (db : Db)
    → Free id db
    → Grows db (set_operation_state id state now false db)
state-Grows id state now db free = record {
  operations = update_free id _ db.operations (λ o. (refl, refl, refl)) free;
  outbox = same_outbox db.outbox;
}

confirmed-Grows :
    (id : String) (reference : Option String) (now : ℕ) (db : Db)
    → Free id db
    → Grows db (confirmed_db id reference now db)
confirmed-Grows id reference now db free = record {
  operations = update_free id _ db.operations (λ o. (refl, refl, refl)) free;
  outbox = update_outbox _ (confirm_event now) db.outbox (λ e. (refl, refl)) (λ i e f q h. refl);
}

cancelled-Grows : (id : String) (now : ℕ) (db : Db) → Grows db (cancelled_db id now db)
cancelled-Grows id now db = record {
  operations = same_operations db.operations;
  outbox = update_outbox _ (cancel_event now) db.outbox (λ e. (refl, refl)) (λ i e f q h. refl);
}

-- the row that a decision is about
found-Free :
    (id : String) (o : Operation) (db : Db)
    → find (is_operation id) db.operations ≡ some o
    → o.reconciliation_conflict ≡ false
    → Free o.operation_id db
found-Free id o db e c =
    let same = (eq_iff o.operation_id id).0 (find-holds (is_operation id) db.operations o e) in
    rw same (rw e (rw c refl))

unknown-Grows :
    (id : String) (o : Operation) (now : ℕ) (db : Db)
    → find (is_operation id) db.operations ≡ some o
    → Grows db (observe_unknown o now db).db
unknown-Grows id o now db e = elim (Bool-cases o.reconciliation_conflict) [
  | inl locked ↦ rw locked (same_Grows refl refl)
  | inr free ↦ elim (Bool-cases (is_confirmed o || is_reversed o)) [
    | inl ended ↦ rw (free, ended) (same_Grows refl refl)
    | inr open_ ↦
        rw (free, open_)
          (state-Grows o.operation_id reconciliation_required now db (found-Free id o db e free))
  ]
]

confirm-Grows :
    (id : String) (o : Operation) (reference : Option String) (now : ℕ) (db : Db)
    → find (is_operation id) db.operations ≡ some o
    → Grows db (observe_confirmed o reference now db).db
confirm-Grows id o reference now db e =
    elim (Bool-cases (o.reconciliation_conflict || has_other_owner o.operation_id reference db)) [
      | inl one ↦ rw one (lock-Grows o.operation_id now db)
      | inr a ↦ elim (Bool-cases (is_some o.reversal_transaction_id || is_reversed o)) [
        | inl two ↦ rw (a, two) (lock-Grows o.operation_id now db)
        | inr b ↦ elim (Bool-cases (differs o.external_reference reference)) [
          | inl three ↦ rw (a, b, three) (lock-Grows o.operation_id now db)
          | inr c ↦
              rw (a, b, c)
                (confirmed-Grows o.operation_id reference now db
                  (found-Free id o db e (ground arith)))
        ]
      ]
    ]

same-Free : (id : String) (db db' : Db) → db'.operations ≡ db.operations → Free id db → Free id db'
same-Free id db db' e free = rw e free

module _ (host : LedgerHost) where
  create_reversal-GrowsFree :
      (id : String) (now : ℕ) (db : Db) → Ensures (GrowsFree id db) (create_reversal host id now db)
  unfolding create_reversal
  create_reversal-GrowsFree id now db = elim (Option-cases (find (is_operation id) db.operations)) [
    | inl missing ↦ rw (create_reversal, missing) tt
    | inr (o, e0) ↦
        let rid = reversal_id host o in
        let entries = sorted leb_entries (entries_of o.original_transaction_id db.entries) in
        elim (Bool-cases (leb 2 (length entries))) [
          | inr few ↦ rw (create_reversal, e0, few) tt
          | inl e1 ↦ elim (Result-cases (insert_transaction (reversal_transaction rid o now) db)) [
            | inr (x, e) ↦ rw (create_reversal, e0, e1, e) tt
            | inl (d2, e2) ↦ elim (Result-cases (insert_entries (map (negated rid) entries) d2)) [
              | inr (x, e) ↦ rw (create_reversal, e0, e1, e2, e) tt
              | inl (d3, e3) ↦
                  rw (create_reversal, e0, e1, e2, e3)
                    (Ensures-imp (GrowsFree id d3) (GrowsFree id db) (set_reversal id rid d3)
                      (set_reversal-GrowsFree id rid d3)
                      (λ d4 (grows, free).
                        let (o2, b2) =
                          Ensures-ok (SameRows db)
                            (insert_transaction-SameRows (reversal_transaction rid o now) db) e2 in
                        let (o3, b3) =
                          Ensures-ok (SameRows d2)
                            (insert_entries-SameRows (map (negated rid) entries) d2) e3 in
                        (
                          then_Grows (same_Grows (o3 ∙ o2) (b3 ∙ b2)) grows,
                          λ f. free (same-Free id db d3 (o3 ∙ o2) f),
                        )))
            ]
          ]
        ]
  ]

  -- a decision that keeps what is kept
  abbrev DecidesGrows : Db → Decision → Type 0
  DecidesGrows db d = Grows db d.db

  reversed-Grows :
      (id : String) (now : ℕ) (db : Db)
      → Free id db
      → Grows db (cancelled_db id now (set_operation_state id reversed now false db))
  reversed-Grows id now db free =
      then_Grows (state-Grows id reversed now db free)
        (cancelled-Grows id now (set_operation_state id reversed now false db))

  not_applied-Grows :
      (id : String) (o : Operation) (now : ℕ) (db : Db)
      → find (is_operation id) db.operations ≡ some o
      → Ensures (DecidesGrows db) (observe_not_applied host o now db)
  unfolding observe_not_applied ensure_reversal
  not_applied-Grows id o now db found = elim (Bool-cases o.reconciliation_conflict) [
    | inl locked ↦ rw (observe_not_applied, locked) (same_Grows refl refl)
    | inr free ↦
        let free_row = found-Free id o db found free in
        elim (Bool-cases (is_confirmed o && not (is_some o.reversal_transaction_id))) [
          | inl done ↦ rw (observe_not_applied, free, done) (lock-Grows o.operation_id now db)
          | inr unsettled ↦ elim (Bool-cases (is_some o.reversal_transaction_id)) [
            | inl there ↦
                rw (observe_not_applied, free, unsettled, ensure_reversal, there)
                  (reversed-Grows o.operation_id now db free_row)
            | inr absent ↦ elim (Result-cases (create_reversal host o.operation_id now db)) [
              | inr (x, e) ↦
                  rw (observe_not_applied, free, unsettled, ensure_reversal, absent, e) tt
              | inl (db', e) ↦
                  let (grows, still) =
                    Ensures-ok (GrowsFree o.operation_id db)
                      (create_reversal-GrowsFree o.operation_id now db) e in
                  rw (observe_not_applied, free, unsettled, ensure_reversal, absent, e)
                    (then_Grows grows (reversed-Grows o.operation_id now db' (still free_row)))
            ]
          ]
        ]
  ]

  decide-Grows :
      (x : Observed) (o : Operation) (now : ℕ) (db : Db)
      → find (is_operation x.operation_id) db.operations ≡ some o
      → Ensures (DecidesGrows db) (decide host x o now db)
  unfolding decide
  decide-Grows x o now db found = by_result x.result refl
    where
      by_result :
          (r : ReconciliationResult)
          → x.result ≡ r
          → Ensures (DecidesGrows db) (decide host x o now db)
      by_result ReconciliationResult.confirmed e =
          rw (decide, e) (confirm-Grows x.operation_id o x.external_reference now db found)
      by_result not_applied e = rw (decide, e) (not_applied-Grows x.operation_id o now db found)
      by_result unknown e = rw (decide, e) (unknown-Grows x.operation_id o now db found)

  pub insert_observation-SameRows :
      (o : Observation) (db : Db) → Ensures (SameRows db) (insert_observation o db)
  unfolding insert_observation
  insert_observation-SameRows o db = ground arith

  mark-Grows : (id : String) (c : Bool) (db : Db) → Grows db (mark_conflicting id c db)
  mark-Grows id true db = same_Grows refl refl
  mark-Grows id false db = same_Grows refl refl

  record_observation-Grows :
      (x : Observed) (fingerprint : String) (o : Operation) (now : ℕ) (db : Db)
      → find (is_operation x.operation_id) db.operations ≡ some o
      → Ensures (SecondGrows db) (record_observation host x fingerprint o now db)
  unfolding record_observation
  record_observation-Grows x fingerprint o now db found =
      elim (Result-cases (insert_observation (observation_row x fingerprint) db)) [
        | inr (y, e) ↦ rw (record_observation, e) tt
        | inl (d1, e1) ↦
            let (ops, events) =
              Ensures-ok (SameRows db)
                (insert_observation-SameRows (observation_row x fingerprint) db) e1 in
            elim (Result-cases (decide host x o now d1)) [
              | inr (y, e) ↦ rw (record_observation, e1, e) tt
              | inl (d, e2) ↦
                  let d' = mark_conflicting x.observation_id d.conflicting d.db in
                  let grows : Grows db d' = then_Grows (same_Grows ops events) (
                    then_Grows
                      (Ensures-ok (DecidesGrows d1) (decide-Grows x o now d1 (rw ops found)) e2)
                      (mark-Grows x.observation_id d.conflicting d.db)) in
                  elim (Result-cases (operation_snapshot x.operation_id d')) [
                    | inr (y, e) ↦ rw (record_observation, e1, e2, e) tt
                    | inl (answer, e3) ↦ rw (record_observation, e1, e2, e3) grows
                  ]
            ]
      ]

  repeat_observation-Grows :
      (x : Observed) (fingerprint : String) (seen : Observation) (db : Db)
      → Ensures (SecondGrows db) (repeat_observation host x fingerprint seen db)
  unfolding repeat_observation
  repeat_observation-Grows x fingerprint seen db =
      elim (Bool-cases (str_eq seen.observation_fingerprint fingerprint)) [
        | inr other ↦ rw (repeat_observation, other) tt
        | inl same ↦ elim (Result-cases (operation_snapshot x.operation_id db)) [
          | inr (y, e) ↦ rw (repeat_observation, same, e) tt
          | inl (answer, e) ↦ rw (repeat_observation, same, e) (same_Grows refl refl)
        ]
      ]

  pub reconcile_in-Grows :
      (x : Observed) (fingerprint : String) (now : ℕ) (db : Db)
      → Ensures (SecondGrows db) (reconcile_in host x fingerprint now db)
  unfolding reconcile_in
  reconcile_in-Grows x fingerprint now db =
      elim (Option-cases (find (is_operation x.operation_id) db.operations)) [
        | inl missing ↦ rw (reconcile_in, missing) tt
        | inr (o, e0) ↦ elim (Bool-cases (leb o.created_at x.observed_at)) [
          | inr early ↦ rw (reconcile_in, e0, early) tt
          | inl e1 ↦ elim (Option-cases (find (is_observation x.observation_id) db.observations)) [
            | inl new ↦
                rw (reconcile_in, e0, e1, new) (record_observation-Grows x fingerprint o now db e0)
            | inr (seen, e2) ↦
                rw (reconcile_in, e0, e1, e2) (repeat_observation-Grows x fingerprint seen db)
          ]
        ]
      ]
