-- ===== src/Ledger/Balance/Reversals.antt =====
-- What `reconcile_operation` adds to the entries: the inverse of a transaction in balance, or nothing.
use cryptogpt_one_intent_wal.Base.{
  ℕ, ◌≡◌, refl, String, Bool, List, Option, arith, sorted, leb, length, ◌&&◌, not, Bool-cases,
  Option-cases, Result-cases, inl, inr, find, str_eq,
}
use cryptogpt_one_intent_wal.Base.Ensures.{Ensures, Ensures-ok, Ensures-imp}
use cryptogpt_one_intent_wal.Ledger.Rows.{
  Db, Entry, Transaction, Operation, Observation, ReconciliationResult, not_applied, unknown,
}
use cryptogpt_one_intent_wal.Ledger.Checks.{LedgerHost}
use cryptogpt_one_intent_wal.Ledger.Tables.{
  insert_transaction, insert_entries, insert_observation, is_operation, is_observation,
}
use cryptogpt_one_intent_wal.Ledger.Health.{entries_of, is_some}
use cryptogpt_one_intent_wal.Ledger.Store.Reconcile.{
  set_reversal, create_reversal, reversal_id, reversal_transaction, leb_entries, ensure_reversal,
  Decision, decide, observe_not_applied, observe_unknown, observe_confirmed, is_confirmed, Observed,
  record_observation, repeat_observation, reconcile_in, observation_row, mark_conflicting,
}
use cryptogpt_one_intent_wal.Ledger.Balance.{inverse-IsBalanced, inverse_entries}
use cryptogpt_one_intent_wal.Ledger.Balance.Postings.{
  SameEntries, Balanced, keep, with_entries, Second, snapshot-Balanced,
  insert_observation-SameEntries,
}

set_reversal-SameEntries :
    (id rid : String) (db : Db) → Ensures (SameEntries db) (set_reversal id rid db)
unfolding set_reversal
set_reversal-SameEntries id rid db = ground arith

module _ (host : LedgerHost) where
  abbrev reversal_of : Operation → ℕ → Transaction
  reversal_of o now = reversal_transaction (reversal_id host o) o now

  abbrev reversed_entries : Operation → Db → List Entry
  reversed_entries o db = inverse_entries (reversal_id host o) o.original_transaction_id db.entries

  create_reversal-Balanced :
      (id : String) (now : ℕ) (db : Db)
      → Balanced db
      → Ensures Balanced (create_reversal host id now db)
  unfolding create_reversal
  create_reversal-Balanced id now db b =
      elim (Option-cases (find (is_operation id) db.operations)) [
        | inl missing ↦ rw (create_reversal, missing) tt
        | inr (o, e0) ↦
            elim (Bool-cases (
              leb 2
                (length (sorted leb_entries (entries_of o.original_transaction_id db.entries))))) [
                  | inr few ↦ rw (create_reversal, e0, few) tt
                  | inl e1 ↦ elim (Result-cases (insert_transaction (reversal_of o now) db)) [
                    | inr (x, e) ↦ rw (create_reversal, e0, e1, e) tt
                    | inl (d2, e2) ↦
                        elim (Result-cases (insert_entries (reversed_entries o db) d2)) [
                          | inr (x, e) ↦ rw (create_reversal, e0, e1, e2, e) tt
                          | inl (d3, e3) ↦
                              rw (create_reversal, e0, e1, e2, e3)
                                (Ensures-imp (SameEntries d3) Balanced
                                  (set_reversal id (reversal_id host o) d3)
                                  (set_reversal-SameEntries id (reversal_id host o) d3)
                                  (λ d4 same. keep d3 d4 same (
                                    with_entries (reversal_of o now) (reversed_entries o db) db d2
                                      d3 b
                                      (inverse-IsBalanced (reversal_id host o)
                                        o.original_transaction_id db.entries b)
                                      e2 e3)))
                        ]
                  ]
                ]
      ]

  abbrev DecidesBalanced : Decision → Type 0
  DecidesBalanced d = Balanced (d.db)

  observe_not_applied-Balanced :
      (o : Operation) (now : ℕ) (db : Db)
      → Balanced db
      → Ensures DecidesBalanced (observe_not_applied host o now db)
  unfolding observe_not_applied ensure_reversal
  observe_not_applied-Balanced o now db b = elim (Bool-cases o.reconciliation_conflict) [
    | inl locked ↦ rw (observe_not_applied, locked) b
    | inr free ↦ elim (Bool-cases (is_confirmed o && not (is_some o.reversal_transaction_id))) [
      | inl done ↦ rw (observe_not_applied, free, done) b
      | inr unsettled ↦ elim (Bool-cases (is_some o.reversal_transaction_id)) [
        | inl there ↦ rw (observe_not_applied, free, unsettled, ensure_reversal, there) b
        | inr absent ↦ elim (Result-cases (create_reversal host o.operation_id now db)) [
          | inr (x, e) ↦ rw (observe_not_applied, free, unsettled, ensure_reversal, absent, e) tt
          | inl (db', e) ↦
              rw (observe_not_applied, free, unsettled, ensure_reversal, absent, e)
                (Ensures-ok Balanced (create_reversal-Balanced o.operation_id now db b) e)
        ]
      ]
    ]
  ]

  observe_unknown-SameEntries :
      (o : Operation) (now : ℕ) (db : Db) → (observe_unknown o now db).db.entries ≡ db.entries
  observe_unknown-SameEntries o now db = ground arith

  observe_confirmed-SameEntries :
      (o : Operation) (reference : Option String) (now : ℕ) (db : Db)
      → (observe_confirmed o reference now db).db.entries ≡ db.entries
  observe_confirmed-SameEntries o reference now db = ground arith

  decide-Balanced :
      (x : Observed) (o : Operation) (now : ℕ) (db : Db)
      → Balanced db
      → Ensures DecidesBalanced (decide host x o now db)
  unfolding decide
  decide-Balanced x o now db b = by_result x.result refl
    where
      by_result :
          (r : ReconciliationResult)
          → x.result ≡ r
          → Ensures DecidesBalanced (decide host x o now db)
      by_result ReconciliationResult.confirmed e =
          rw (decide, e)
            (keep db (observe_confirmed o x.external_reference now db).db
              (observe_confirmed-SameEntries o x.external_reference now db) b)
      by_result not_applied e = rw (decide, e) (observe_not_applied-Balanced o now db b)
      by_result unknown e =
          rw (decide, e)
            (keep db (observe_unknown o now db).db (observe_unknown-SameEntries o now db) b)

  mark_conflicting-SameEntries :
      (id : String) (c : Bool) (db : Db) → (mark_conflicting id c db).entries ≡ db.entries
  mark_conflicting-SameEntries id c db = ground arith

  record_observation-Balanced :
      (x : Observed) (fingerprint : String) (o : Operation) (now : ℕ) (db : Db)
      → Balanced db
      → Ensures (Second Balanced) (record_observation host x fingerprint o now db)
  unfolding record_observation
  record_observation-Balanced x fingerprint o now db b =
      elim (Result-cases (insert_observation (observation_row x fingerprint) db)) [
        | inr (y, e) ↦ rw (record_observation, e) tt
        | inl (d1, e1) ↦ elim (Result-cases (decide host x o now d1)) [
          | inr (y, e) ↦ rw (record_observation, e1, e) tt
          | inl (d, e2) ↦
              rw (record_observation, e1, e2)
                (snapshot-Balanced x.operation_id
                  (mark_conflicting x.observation_id d.conflicting d.db) _
                  (keep (d.db) (mark_conflicting x.observation_id d.conflicting d.db)
                    (mark_conflicting-SameEntries x.observation_id d.conflicting d.db)
                    (Ensures-ok DecidesBalanced
                      (decide-Balanced x o now d1 (
                        keep db d1
                          (Ensures-ok (SameEntries db)
                            (insert_observation-SameEntries (observation_row x fingerprint) db) e1)
                          b))
                      e2)))
        ]
      ]

  repeat_observation-Balanced :
      (x : Observed) (fingerprint : String) (seen : Observation) (db : Db)
      → Balanced db
      → Ensures (Second Balanced) (repeat_observation host x fingerprint seen db)
  unfolding repeat_observation
  repeat_observation-Balanced x fingerprint seen db b =
      elim (Bool-cases (str_eq seen.observation_fingerprint fingerprint)) [
        | inl same ↦ rw (repeat_observation, same) (snapshot-Balanced x.operation_id db _ b)
        | inr other ↦ rw (repeat_observation, other) tt
      ]

  -- `reconcile_operation` keeps the balance.
  pub reconcile_in-Balanced :
      (x : Observed) (fingerprint : String) (now : ℕ) (db : Db)
      → Balanced db
      → Ensures (Second Balanced) (reconcile_in host x fingerprint now db)
  unfolding reconcile_in
  reconcile_in-Balanced x fingerprint now db b =
      elim (Option-cases (find (is_operation x.operation_id) db.operations)) [
        | inl missing ↦ rw (reconcile_in, missing) tt
        | inr (o, e0) ↦ elim (Bool-cases (leb o.created_at x.observed_at)) [
          | inr early ↦ rw (reconcile_in, e0, early) tt
          | inl e1 ↦ elim (Option-cases (find (is_observation x.observation_id) db.observations)) [
            | inl new ↦
                rw (reconcile_in, e0, e1, new)
                  (record_observation-Balanced x fingerprint o now db b)
            | inr (seen, e2) ↦
                rw (reconcile_in, e0, e1, e2) (repeat_observation-Balanced x fingerprint seen db b)
          ]
        ]
      ]
