-- ===== src/Ledger/Balance/Books.antt =====
-- Every method of `LedgerStore` leaves the books in balance.
use cryptogpt_one_intent_wal.Base.{
  ℕ, ◌≡◌, refl, sym, subst, String, Option, [], ◌∷◌, Result, ok, err, Result-cases, inl, inr, arith,
}
use cryptogpt_one_intent_wal.Base.Int.{ℤ}
use cryptogpt_one_intent_wal.Base.Ensures.{Ensures, Ensures-ok}
use cryptogpt_one_intent_wal.Ledger.Rows.{LedgerError, Db, ReconciliationResult, empty_db}
use cryptogpt_one_intent_wal.Ledger.Checks.{
  LedgerHost, validate_texts, validate_time, canonical_json,
}
use cryptogpt_one_intent_wal.Ledger.Tables.{insert_account}
use cryptogpt_one_intent_wal.Ledger.Lines.{normalize_lines}
use cryptogpt_one_intent_wal.Ledger.Lines.Balance.{normalize_lines-balanced}
use cryptogpt_one_intent_wal.Ledger.Store.{
  LedgerStore, advance_clock, begin, transact, catch_constraint, register_in, register_account,
  close,
}
use cryptogpt_one_intent_wal.Ledger.Store.Post.{
  PostRequest, Prepared, prepare, check_post, post_in, post_operation,
}
use cryptogpt_one_intent_wal.Ledger.Store.Outbox.{
  claim_in, claim_outbox, deliver_in, mark_outbox_delivered, retry_in, mark_outbox_retry, Retry,
}
use cryptogpt_one_intent_wal.Ledger.Store.Reconcile.{reconcile_in, reconcile_operation}
use cryptogpt_one_intent_wal.Ledger.Store.Recover.{recover_in, recover}
use cryptogpt_one_intent_wal.Ledger.Balance.{IsBalanced}
use cryptogpt_one_intent_wal.Ledger.Balance.Postings.{
  SameEntries, Balanced, keep, Second, post_in-Balanced,
}
use cryptogpt_one_intent_wal.Ledger.Balance.Reversals.{reconcile_in-Balanced}

begin-SameEntries : (now : ℕ) (st : LedgerStore) → Ensures (SameEntries st.db) (begin now st)
unfolding begin advance_clock
begin-SameEntries now st = ground arith

pub catch_constraint-Ensures {ℓ κ} :
    {A : Type ℓ} (P : A → Type κ) (m : Result LedgerError A)
    → Ensures P m
    → Ensures P (catch_constraint m)
catch_constraint-Ensures P (ok a) h = h
catch_constraint-Ensures P (err e) h = tt

-- A transaction whose body keeps the balance, for the arguments that its checks let through.
transact-Balanced {ℓ κ} :
    {X : Type ℓ} {A : Type κ} (checked : Result LedgerError (ℕ × X))
    (body : X → ℕ → Db → Result LedgerError (A × Db)) (st : LedgerStore)
    → Balanced st.db
    → ((x : X) (time : ℕ) (db : Db)
        → checked ≡ ok (time, x)
        → Balanced db
        → Ensures (Second Balanced) (body x time db))
    → Balanced (transact checked body st).1.db
transact-Balanced (err e) body st b h = b
transact-Balanced (ok (time, x)) body st b h = elim (Result-cases (begin time st)) [
  | inr (e, refused) ↦ rw refused b
  | inl (db, begun) ↦
      let b' : Balanced db =
        keep st.db db (Ensures-ok (SameEntries st.db) (begin-SameEntries time st) begun) b in
      elim (Result-cases (body x time db)) [
        | inr (e, raised) ↦ rw (begun, raised) b
        | inl ((a, db'), done) ↦
            rw (begun, done) (Ensures-ok (Second Balanced) (h x time db refl b') done)
      ]
]

-- a body that leaves the entries alone
same_entries {ℓ} :
    {A : Type ℓ} (db : Db) (m : Result LedgerError (A × Db))
    → Ensures (Second (SameEntries db)) m
    → Balanced db
    → Ensures (Second Balanced) m
same_entries db (ok (a, db')) h b = keep db db' h b
same_entries db (err e) h b = tt

register_in-SameEntries :
    (x : String × String) (now : ℕ) (db : Db)
    → Ensures (Second (SameEntries db)) (register_in x now db)
unfolding register_in insert_account
register_in-SameEntries (account_id, asset_id) now db = ground arith

claim_in-SameEntries :
    (host : LedgerHost) (x : String × ℕ × ℕ) (now : ℕ) (db : Db)
    → Ensures (Second (SameEntries db)) (claim_in host x now db)
unfolding claim_in
claim_in-SameEntries host (worker_id, lease_until, limit) now db = ground arith

deliver_in-SameEntries :
    (x : String × String) (now : ℕ) (db : Db)
    → Ensures (Second (SameEntries db)) (deliver_in x now db)
unfolding deliver_in
deliver_in-SameEntries (event_id, worker_id) now db = ground arith

retry_in-SameEntries :
    (r : Retry) (now : ℕ) (db : Db) → Ensures (Second (SameEntries db)) (retry_in r now db)
unfolding retry_in
retry_in-SameEntries r now db = ground arith

-- the lines of a prepared request are a double entry
prepare-lines :
    (host : LedgerHost) (r : PostRequest)
    → Ensures (λ p. normalize_lines r.lines ≡ ok p.lines) (prepare host r)
unfolding prepare
prepare-lines host r =
    elim (Result-cases
      (validate_texts (r.outbox.event_id ∷ r.outbox.topic ∷ r.outbox.dedupe_key ∷ []))) [
        | inr (x, e) ↦ rw (prepare, e) tt
        | inl (u, e0) ↦ elim (Result-cases (canonical_json r.outbox.payload)) [
          | inr (x, e) ↦ rw (prepare, e0, e) tt
          | inl (payload_json, e1) ↦ elim (Result-cases (normalize_lines r.lines)) [
            | inr (x, e) ↦ rw (prepare, e0, e1, e) tt
            | inl (lines, e2) ↦ rw (prepare, e0, e1, e2) refl
          ]
        ]
      ]

check_post-lines :
    (host : LedgerHost) (r : PostRequest) (now : ℤ)
    → Ensures (λ (time, p). normalize_lines r.lines ≡ ok p.lines) (check_post host r now)
unfolding check_post
check_post-lines host r now =
    elim (Result-cases
      (validate_texts (r.operation_id ∷ r.idempotency_key ∷ r.transaction_id ∷ []))) [
        | inr (x, e) ↦ rw (check_post, e) tt
        | inl (u, e0) ↦ elim (Result-cases (validate_time now)) [
          | inr (x, e) ↦ rw (check_post, e0, e) tt
          | inl (time, e1) ↦ elim (Result-cases (prepare host r)) [
            | inr (x, e) ↦ rw (check_post, e0, e1, e) tt
            | inl (p, e2) ↦
                rw (check_post, e0, e1, e2)
                  (Ensures-ok (λ (q : Prepared). normalize_lines r.lines ≡ ok q.lines)
                    (prepare-lines host r) e2)
          ]
        ]
      ]

module _ (host : LedgerHost) where
  -- Any call of a method that writes, whether it returns or raises.
  pub data StoreStep (st : LedgerStore) : LedgerStore → Type 0 where
    register_call :
        (account_id asset_id : String) (now : ℤ)
        → StoreStep st (register_account account_id asset_id now st).1
    post_call : (r : PostRequest) (now : ℤ) → StoreStep st (post_operation host r now st).1
    claim_call :
        (worker_id : String) (now seconds limit : ℤ)
        → StoreStep st (claim_outbox host worker_id now seconds limit st).1
    deliver_call :
        (event_id worker_id : String) (now : ℤ)
        → StoreStep st (mark_outbox_delivered event_id worker_id now st).1
    retry_call :
        (event_id worker_id : String) (now retry_at : ℤ) (error_code : String)
        → StoreStep st (mark_outbox_retry event_id worker_id now retry_at error_code st).1
    reconcile_call :
        (operation_id observation_id : String) (result : ReconciliationResult) (observed_at now : ℤ)
        (reference : Option String)
        → StoreStep st
            (reconcile_operation host operation_id observation_id result observed_at now reference
              st).1
    recover_call : (now : ℤ) → StoreStep st (recover now st).1
    close_call : StoreStep st (close st)

  pub data StoreSteps (st : LedgerStore) : LedgerStore → Type 0 where
    here : StoreSteps st st
    after_call : {s t : LedgerStore} → StoreSteps st s → StoreStep s t → StoreSteps st t

  post_operation-Balanced :
      (r : PostRequest) (now : ℤ) (st : LedgerStore)
      → Balanced st.db
      → Balanced (post_operation host r now st).1.db
  unfolding post_operation
  post_operation-Balanced r now st b =
      transact-Balanced (check_post host r now) (λ p time db. catch_constraint (post_in p time db))
        st b
        (λ p time db checked b'. catch_constraint-Ensures (Second Balanced) (post_in p time db) (
          post_in-Balanced p time db b' (λ a. normalize_lines-balanced a r.lines p.lines (
            Ensures-ok (λ (x : ℕ × Prepared). normalize_lines r.lines ≡ ok x.1.lines)
              (check_post-lines host r now) checked))))

  recover-SameEntries : (now : ℤ) (st : LedgerStore) → (recover now st).1.db.entries ≡ st.db.entries
  unfolding recover recover_in begin advance_clock
  recover-SameEntries now st = ground arith

  step-Balanced : {st st' : LedgerStore} → StoreStep st st' → Balanced st.db → Balanced st'.db
  unfolding register_account claim_outbox mark_outbox_delivered mark_outbox_retry
      reconcile_operation
  step-Balanced {st} (register_call account_id asset_id now) b =
      transact-Balanced _ register_in st b
        (λ x time db _. same_entries db _ (register_in-SameEntries x time db))
  step-Balanced {st} (post_call r now) b = post_operation-Balanced r now st b
  step-Balanced {st} (claim_call worker_id now seconds limit) b =
      transact-Balanced _ (claim_in host) st b
        (λ x time db _. same_entries db _ (claim_in-SameEntries host x time db))
  step-Balanced {st} (deliver_call event_id worker_id now) b =
      transact-Balanced _ deliver_in st b
        (λ x time db _. same_entries db _ (deliver_in-SameEntries x time db))
  step-Balanced {st} (retry_call event_id worker_id now retry_at error_code) b =
      transact-Balanced _ retry_in st b
        (λ x time db _. same_entries db _ (retry_in-SameEntries x time db))
  step-Balanced {st} (reconcile_call operation_id observation_id result observed_at now reference)
        b =
      transact-Balanced _
        (λ (x, fingerprint) time db. catch_constraint (reconcile_in host x fingerprint time db)) st
        b
        (λ (x, fingerprint) time db _ b'.
          catch_constraint-Ensures (Second Balanced) _
            (reconcile_in-Balanced host x fingerprint time db b'))
  step-Balanced {st} (recover_call now) b =
      keep st.db (recover now st).1.db (recover-SameEntries now st) b
  step-Balanced close_call b = b

  steps-Balanced : {st st' : LedgerStore} → StoreSteps st st' → Balanced st.db → Balanced st'.db
  steps-Balanced here b = b
  steps-Balanced (after_call s step) b = step-Balanced step (steps-Balanced s b)

  -- In every ledger store that calls of its writing methods reach from an empty database, the
  -- entries of each transaction, and those of all transactions together, sum to zero for every
  -- asset.
  pub books_balance :
      {st st' : LedgerStore} → st.db ≡ empty_db → StoreSteps st st' → IsBalanced st'.db.entries
  books_balance e s =
      steps-Balanced s
        (subst Balanced (sym e) (record { transactions = λ id a. refl; book = λ a. refl }))
