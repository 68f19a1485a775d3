-- ===== src/Ledger/Grows/Steps.antt =====
-- The methods of services/ledger_store/store.py, and the relation Grows.
use cryptogpt_one_intent_wal.Base.{
  ℕ, ◌≡◌, refl, String, some, List, [], ◌∷◌, Result, ok, err, arith, find, Option-cases, Bool-cases,
  Result-cases, inl, inr, eq_iff, ◌∙◌, sym, subst,
}
use cryptogpt_one_intent_wal.Base.Int.{ℤ}
use cryptogpt_one_intent_wal.Base.RowLaws.{find-holds}
use cryptogpt_one_intent_wal.Base.Ensures.{Ensures, Ensures-ok, Ensures-imp}
use cryptogpt_one_intent_wal.Ledger.Rows.{LedgerError, Db, OutboxRow}
use cryptogpt_one_intent_wal.Ledger.Checks.{LedgerHost, validate_time}
use cryptogpt_one_intent_wal.Ledger.Tables.{insert_account, is_event}
use cryptogpt_one_intent_wal.Ledger.Health.{is_delivered, lease_expired, collect_health}
use cryptogpt_one_intent_wal.Ledger.Store.{
  LedgerStore, advance_clock, begin, transact, register_in, register_account, is_unhealthy,
}
use cryptogpt_one_intent_wal.Ledger.Store.Post.{post_in, post_operation}
use cryptogpt_one_intent_wal.Ledger.Store.Outbox.{
  claim_in, claim_outbox, deliver_in, mark_outbox_delivered, retry_in, mark_outbox_retry, Retry,
  lease, lease_events, ready_ids, outbox_events, deliver, is_owned, is_live, requeue,
  require_reconciliation, delivered_db,
}
use cryptogpt_one_intent_wal.Ledger.Store.Reconcile.{reconcile_in, reconcile_operation}
use cryptogpt_one_intent_wal.Ledger.Store.Recover.{recover_in, recover, expire_lease, recovered}
use cryptogpt_one_intent_wal.Ledger.Balance.Books.{
  catch_constraint-Ensures, StoreStep, register_call, post_call, claim_call, deliver_call,
  retry_call, reconcile_call, recover_call, close_call, StoreSteps, here, after_call,
}
use cryptogpt_one_intent_wal.Ledger.Grows.{
  Grows, GrowsOutbox, same_Grows, then_Grows, then_outbox, same_outbox, same_operations,
  update_operations, update_outbox,
}
use cryptogpt_one_intent_wal.Ledger.Grows.Posting.{SecondGrows, post_in-Grows, SameRows}
use cryptogpt_one_intent_wal.Ledger.Grows.Reconciling.{reconcile_in-Grows}

-- the second part has the two tables as they were
abbrev SecondSame {ℓ} : {A : Type ℓ} → Db → A × Db → Type 0
SecondSame db (a, db') = SameRows db db'

register_in-SameRows :
    (x : String × String) (now : ℕ) (db : Db) → Ensures (SecondSame db) (register_in x now db)
unfolding register_in insert_account
register_in-SameRows (account_id, asset_id) now db = ground arith

register_in-Grows :
    (x : String × String) (now : ℕ) (db : Db) → Ensures (SecondGrows db) (register_in x now db)
register_in-Grows x now db =
    Ensures-imp (SecondSame db) (SecondGrows db) (register_in x now db)
      (register_in-SameRows x now db) (λ (_, db') (o, e). same_Grows o e)

lease_events-Grows :
    (ids : List String) (worker_id : String) (lease_until now : ℕ) (es : List OutboxRow)
    → GrowsOutbox es (lease_events ids worker_id lease_until now es)
unfolding lease_events
lease_events-Grows [] worker_id lease_until now es = same_outbox es
lease_events-Grows (id ∷ ids) worker_id lease_until now es =
    then_outbox
      (update_outbox _ (lease worker_id lease_until now) es (λ e. (refl, refl))
        (λ i e f q h. absurd (ground arith)))
      (lease_events-Grows ids worker_id lease_until now _)

claim_in-Grows :
    (host : LedgerHost) (x : String × ℕ × ℕ) (now : ℕ) (db : Db)
    → Ensures (SecondGrows db) (claim_in host x now db)
unfolding claim_in
claim_in-Grows host (worker_id, lease_until, limit) now db =
    let ids = ready_ids now limit db in
    let db' = record db { outbox = lease_events ids worker_id lease_until now db.outbox } in
    elim (Result-cases (outbox_events host ids db')) [
      | inr (x, e) ↦ rw (claim_in, e) tt
      | inl (events, e) ↦
          rw (claim_in, e)
            (record {
              operations = same_operations db.operations;
              outbox = lease_events-Grows ids worker_id lease_until now db.outbox;
            })
    ]

delivered-Grows : (row : OutboxRow) (now : ℕ) (db : Db) → Grows db (delivered_db row now db)
delivered-Grows row now db = record {
  operations =
      update_operations _ (require_reconciliation now) db.operations (λ o. (refl, refl, refl))
        (λ i x e q h. ground arith);
  outbox = update_outbox _ (deliver now) db.outbox (λ e. (refl, refl)) (λ i e f q h. refl);
}

deliver_in-Grows :
    (x : String × String) (now : ℕ) (db : Db) → Ensures (SecondGrows db) (deliver_in x now db)
unfolding deliver_in
deliver_in-Grows (event_id, worker_id) now db =
    elim (Option-cases (find (is_event event_id) db.outbox)) [
      | inl missing ↦ rw (deliver_in, missing) tt
      | inr (row, e) ↦ elim (Bool-cases (is_delivered row.state)) [
        | inl already ↦ rw (deliver_in, e, already) (same_Grows refl refl)
        | inr waiting ↦ elim (Bool-cases (is_owned worker_id row)) [
          | inr other ↦ rw (deliver_in, e, waiting, other) tt
          | inl owned ↦ elim (Bool-cases (is_live now row)) [
            | inr expired ↦ rw (deliver_in, e, waiting, owned, expired) tt
            | inl live ↦ rw (deliver_in, e, waiting, owned, live) (delivered-Grows row now db)
          ]
        ]
      ]
    ]

retry_in-Grows : (r : Retry) (now : ℕ) (db : Db) → Ensures (SecondGrows db) (retry_in r now db)
unfolding retry_in
retry_in-Grows r now db = elim (Option-cases (find (is_event r.event_id) db.outbox)) [
  | inl missing ↦ rw (retry_in, missing) tt
  | inr (row, e) ↦ elim (Bool-cases (is_owned r.worker_id row)) [
    | inr other ↦ rw (retry_in, e, other) tt
    | inl owned ↦ elim (Bool-cases (is_live now row)) [
      | inr expired ↦ rw (retry_in, e, owned, expired) tt
      | inl live ↦
          rw (retry_in, e, owned, live)
            (record {
              operations = same_operations db.operations;
              outbox =
                  update_outbox (is_event r.event_id) (requeue r.retry_at r.error_code now)
                    db.outbox (λ x. (refl, refl))
                    (λ i x f q h.
                      let one : i ≡ r.event_id =
                        sym ((eq_iff x.event_id i).0 (find-holds (is_event i) db.outbox x f))
                        ∙ (eq_iff x.event_id r.event_id).0 q in
                      absurd (
                        ground (
                          arith,
                          subst (λ k. find (is_event k) db.outbox ≡ some x) one f,
                          e,
                          owned,
                          h,
                        )));
            })
    ]
  ]
]

recover_in-Grows : (now : ℕ) (db : Db) → Grows db (recover_in now db).2
unfolding recover_in
recover_in-Grows now db = record {
  operations =
      update_operations _ _ db.operations (λ o. (refl, refl, refl))
        (λ i x e q h. absurd (ground arith));
  outbox =
      update_outbox (lease_expired now) (expire_lease now) db.outbox (λ e. (refl, refl))
        (λ i e f q h. absurd (ground arith));
}

begin-SameRows : (now : ℕ) (st : LedgerStore) → Ensures (SameRows st.db) (begin now st)
unfolding begin advance_clock
begin-SameRows now st = ground arith

begin-Grows : (now : ℕ) (st : LedgerStore) → Ensures (Grows st.db) (begin now st)
begin-Grows now st =
    Ensures-imp (SameRows st.db) (Grows st.db) (begin now st) (begin-SameRows now st)
      (λ db (o, e). same_Grows o e)

-- A method whose transaction grows its database.
transact-Grows {ℓ κ} :
    {X : Type ℓ} {A : Type κ} (checked : Result LedgerError (ℕ × X))
    (body : X → ℕ → Db → Result LedgerError (A × Db)) (st : LedgerStore)
    → ((x : X) (time : ℕ) (db : Db) → Ensures (SecondGrows db) (body x time db))
    → Grows st.db (transact checked body st).1.db
transact-Grows (err e) body st h = same_Grows refl refl
transact-Grows (ok (time, x)) body st h = elim (Result-cases (begin time st)) [
  | inr (e, refused) ↦ rw refused (same_Grows refl refl)
  | inl (db, begun) ↦
      let started = Ensures-ok (Grows st.db) (begin-Grows time st) begun in
      elim (Result-cases (body x time db)) [
        | inr (e, raised) ↦ rw (begun, raised) (same_Grows refl refl)
        | inl ((a, db'), done) ↦
            rw (begun, done) (then_Grows started (Ensures-ok (SecondGrows db) (h x time db) done))
      ]
]

recovered_db :
    (before : Db) (now : ℕ) (result : ℕ × ℕ × Db) (st : LedgerStore)
    → Grows before result.2
    → Grows before (recovered now result st).1.db
recovered_db before now (requeued, flagged, db) st h =
    elim (Bool-cases (is_unhealthy (collect_health st.file now db))) [
      | inl bad ↦ rw bad h
      | inr good ↦ rw good h
    ]

recover-Grows : (now : ℤ) (st : LedgerStore) → Grows st.db (recover now st).1.db
unfolding recover
recover-Grows now st = elim (Result-cases (validate_time now)) [
  | inr (e, bad) ↦ rw (recover, bad) (same_Grows refl refl)
  | inl (time, good) ↦ elim (Result-cases (begin time st)) [
    | inr (e, refused) ↦ rw (recover, good, refused) (same_Grows refl refl)
    | inl (db, begun) ↦
        let grows : Grows st.db (recover_in time db).2 =
          then_Grows (Ensures-ok (Grows st.db) (begin-Grows time st) begun)
            (recover_in-Grows time db) in
        rw (recover, good, begun) (recovered_db st.db time (recover_in time db) st grows)
  ]
]

module _ (host : LedgerHost) where
  step-Grows : {st st' : LedgerStore} → StoreStep host st st' → Grows st.db st'.db
  unfolding register_account claim_outbox mark_outbox_delivered mark_outbox_retry
      reconcile_operation post_operation
  step-Grows {st} (register_call account_id asset_id now) =
      transact-Grows _ register_in st register_in-Grows
  step-Grows {st} (post_call r now) = transact-Grows _ _ st (λ p time db.
      catch_constraint-Ensures (SecondGrows db) (post_in p time db) (post_in-Grows p time db))
  step-Grows {st} (claim_call worker_id now seconds limit) =
      transact-Grows _ (claim_in host) st (claim_in-Grows host)
  step-Grows {st} (deliver_call event_id worker_id now) =
      transact-Grows _ deliver_in st deliver_in-Grows
  step-Grows {st} (retry_call event_id worker_id now retry_at error_code) =
      transact-Grows _ retry_in st retry_in-Grows
  step-Grows {st} (reconcile_call operation_id observation_id result observed_at now reference) =
      transact-Grows _ _ st (λ (x, fingerprint) time db.
        catch_constraint-Ensures (SecondGrows db) (reconcile_in host x fingerprint time db)
          (reconcile_in-Grows host x fingerprint time db))
  step-Grows {st} (recover_call now) = recover-Grows now st
  step-Grows close_call = same_Grows refl refl

  -- Calls grow the database.
  pub steps-Grows : {st st' : LedgerStore} → StoreSteps host st st' → Grows st.db st'.db
  steps-Grows here = same_Grows refl refl
  steps-Grows (after_call s step) = then_Grows (steps-Grows s) (step-Grows step)
