-- ===== src/Ledger/Calls.antt =====
-- What a call of a writing method of services/ledger_store/store.py that returned has done.
use cryptogpt_one_intent_wal.Base.{
  ℕ, ◌≡◌, refl, ◌∙◌, String, true, some, Result, ok, err, find, arith, Option-cases, Result-cases,
  inl, inr, ap, ok-injective,
}
use cryptogpt_one_intent_wal.Base.Holds.{holds, holds-found}
use cryptogpt_one_intent_wal.Ledger.Rows.{LedgerError, Db, Operation}
use cryptogpt_one_intent_wal.Ledger.Tables.{is_operation, is_event_of}
use cryptogpt_one_intent_wal.Ledger.Store.{
  LedgerStore, OperationSnapshot, operation_snapshot, advance_clock, begin, transact,
  catch_constraint, snapshot,
}
use cryptogpt_one_intent_wal.Ledger.Grows.{is_there}

-- The transaction of a call: the checked arguments, the database that it started from, and the one
-- that it committed.
pub record Committed {ℓ κ} {X : Type ℓ} {A : Type κ} (checked : Result LedgerError (ℕ × X))
    (body : X → ℕ → Db → Result LedgerError (A × Db)) (st : LedgerStore) (a : A) (after : Db)
    : Type (ℓ ⊔ κ) where
  pub x : X
  pub time : ℕ
  pub db : Db
  pub passed : checked ≡ ok (time, x)
  pub begun : begin time st ≡ ok db
  pub done : body x time db ≡ ok (a, after)

pub transact-Committed {ℓ κ} :
    {X : Type ℓ} {A : Type κ} (checked : Result LedgerError (ℕ × X))
    (body : X → ℕ → Db → Result LedgerError (A × Db)) (st : LedgerStore) {a : A}
    → (transact checked body st).0 ≡ ok a
    → Committed checked body st a (transact checked body st).1.db
transact-Committed (err e) body st h = absurd (cc h)
transact-Committed (ok (time, x)) body st {a} h = elim (Result-cases (begin time st)) [
  | inr (e, refused) ↦ absurd (cc (rw refused at h))
  | inl (db, begun) ↦ elim (Result-cases (body x time db)) [
    | inr (e, raised) ↦ absurd (cc (rw (begun, raised) at h))
    | inl ((b, after), done) ↦
        rw (begun, done)
          (record {
            x = x;
            time = time;
            db = db;
            passed = refl;
            begun = begun;
            done = done ∙ ap (λ y. ok (y, after)) (ok-injective b a (rw (begun, done) at h));
          })
  ]
]

-- The transaction starts from the database with a later clock.
pub begin-eq :
    (time : ℕ) (st : LedgerStore) {db : Db}
    → begin time st ≡ ok db
    → db ≡ record st.db { clock_high_water = time }
unfolding begin advance_clock
begin-eq time st h = ground arith

pub catch-ok {ℓ} :
    {A : Type ℓ} (m : Result LedgerError A) {a : A} → catch_constraint m ≡ ok a → m ≡ ok a
catch-ok (ok b) h = h
catch-ok (err e) h = absurd (cc h)

-- what a snapshot shows
pub snapshot_there :
    (id : String) (db : Db) {s : OperationSnapshot}
    → operation_snapshot id db ≡ ok s
    → holds (is_event_of id) is_there db.outbox ≡ true
unfolding operation_snapshot
snapshot_there id db h = ground arith

pub snapshot_row :
    (id : String) (db : Db) {s : OperationSnapshot}
    → operation_snapshot id db ≡ ok s
    → (o : Operation) × (find (is_operation id) db.operations ≡ some o)
      × (s.reconciliation_conflict ≡ o.reconciliation_conflict)
unfolding operation_snapshot
snapshot_row id db h = elim (Option-cases (find (is_operation id) db.operations)) [
  | inl missing ↦ absurd (ground arith)
  | inr (o, e) ↦ (o, e, ground arith)
]

-- an operation and its event give a snapshot
pub snapshot_exists :
    (id : String) (db : Db) (o : Operation)
    → find (is_operation id) db.operations ≡ some o
    → holds (is_event_of id) is_there db.outbox ≡ true
    → (s : OperationSnapshot) × (operation_snapshot id db ≡ ok s)
unfolding operation_snapshot
snapshot_exists id db o e there =
    let (event, f, _) = holds-found (is_event_of id) is_there db.outbox there in
    (snapshot o event, rw (operation_snapshot, e, f))
