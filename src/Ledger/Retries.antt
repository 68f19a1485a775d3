-- ===== src/Ledger/Retries.antt =====
-- `post_operation` of services/ledger_store/store.py called again with the same request.
use cryptogpt_one_intent_wal.Base.{
  ℕ, ◌≡◌, refl, String, sym, ◌∙◌, subst, Bool, true, false, List, [], ◌∷◌, ◌++◌, none, some, ok,
  find, arith, eq_refl, any, Result-cases, inl, inr, ap, ok-injective,
}
use cryptogpt_one_intent_wal.Base.Int.{ℤ}
use cryptogpt_one_intent_wal.Base.RowLaws.{find-none}
use cryptogpt_one_intent_wal.Base.Holds.{holds, holds-found}
use cryptogpt_one_intent_wal.Base.Ensures.{Ensures, Ensures-ok}
use cryptogpt_one_intent_wal.Ledger.Rows.{Db}
use cryptogpt_one_intent_wal.Ledger.Checks.{LedgerHost, validate_time, validate_texts}
use cryptogpt_one_intent_wal.Ledger.Tables.{is_operation, is_event_of}
use cryptogpt_one_intent_wal.Ledger.Store.{
  LedgerStore, OperationSnapshot, operation_snapshot, begin, catch_constraint,
}
use cryptogpt_one_intent_wal.Ledger.Store.Post.{
  PostRequest, Prepared, prepare, check_post, posted_operation, posted_event, insert_posting,
  earlier, has_key, same_request, post_in, post_operation,
}
use cryptogpt_one_intent_wal.Ledger.Grows.{Grows, is_there}
use cryptogpt_one_intent_wal.Ledger.Grows.Posting.{Adds, insert_posting-Adds}
use cryptogpt_one_intent_wal.Ledger.Grows.Steps.{steps-Grows}
use cryptogpt_one_intent_wal.Ledger.Balance.Books.{StoreSteps}
use cryptogpt_one_intent_wal.Ledger.Calls.{
  transact-Committed, begin-eq, catch-ok, snapshot_there, snapshot_exists,
}

find-added {ℓ} :
    {A : Type ℓ} (p : A → Bool) (xs : List A) (x : A)
    → find p xs ≡ none
    → p x ≡ true
    → find p (xs ++ x ∷ []) ≡ some x
find-added p [] x h t = ground arith
find-added p (y ∷ ys) x h t = ground (arith, find-added p ys x)

same_posted : (p : Prepared) (now : ℕ) → same_request p (posted_operation p now) ≡ true
same_posted p now = ground (arith, eq_refl p.request.operation_id, eq_refl p.fingerprint)

-- The request is in the tables: its id and its key find its row, and it has an event.
record Recorded (p : Prepared) (db : Db) : Type 0 where
  by_id : holds (is_operation p.request.operation_id) (same_request p) db.operations ≡ true
  by_key : holds (has_key p.request.idempotency_key) (same_request p) db.operations ≡ true
  announced : holds (is_event_of p.request.operation_id) is_there db.outbox ≡ true

Recorded-Grows : (p : Prepared) (db db' : Db) → Grows db db' → Recorded p db → Recorded p db'
Recorded-Grows p db db' g r = record {
  by_id = g.operations.by_id p r.by_id;
  by_key = g.operations.by_key p r.by_key;
  announced = g.outbox.announced p.request.operation_id r.announced;
}

-- no row has the request's id or key
abbrev pub IsNew : PostRequest → Db → Type 0
IsNew r db =
    (any (is_operation r.operation_id) db.operations ≡ false)
    × (any (has_key r.idempotency_key) db.operations ≡ false)

added-Recorded :
    (p : Prepared) (now : ℕ) (db db' : Db) {answer : OperationSnapshot}
    → IsNew p.request db
    → Adds (posted_operation p now) (posted_event p now) db db'
    → operation_snapshot p.request.operation_id db' ≡ ok answer
    → Recorded p db'
added-Recorded p now db db' (no_id, no_key) (added, _) shown = record {
  by_id = rw added (
      rw
        (find-added (is_operation p.request.operation_id) db.operations (posted_operation p now)
          (find-none (is_operation p.request.operation_id) db.operations no_id)
          (eq_refl p.request.operation_id))
        (same_posted p now));
  by_key = rw added (
      rw
        (find-added (has_key p.request.idempotency_key) db.operations (posted_operation p now)
          (find-none (has_key p.request.idempotency_key) db.operations no_key)
          (eq_refl p.request.idempotency_key))
        (same_posted p now));
  announced = snapshot_there p.request.operation_id db' shown;
}

-- a posting of a new request records it
post_in-Recorded :
    (p : Prepared) (now : ℕ) (db : Db) {answer : OperationSnapshot} {db' : Db}
    → IsNew p.request db
    → post_in p now db ≡ ok (answer, db')
    → Recorded p db'
unfolding post_in
post_in-Recorded p now db {answer} {db'} new h =
    let none_earlier : earlier p db ≡ [] = rw (
      find-none (is_operation p.request.operation_id) db.operations new.0,
      find-none (has_key p.request.idempotency_key) db.operations new.1,
    ) in
    elim (Result-cases (insert_posting p now db)) [
      | inr (x, raised) ↦ absurd (ground arith)
      | inl (d, done) ↦ elim (Result-cases (operation_snapshot p.request.operation_id d)) [
        | inr (x, lost) ↦ absurd (ground arith)
        | inl (shown, e) ↦
            let same : d ≡ db' = ground arith in
            subst (Recorded p) same (
              added-Recorded p now db d new
                (Ensures-ok (Adds (posted_operation p now) (posted_event p now) db)
                  (insert_posting-Adds p now db) done)
                e)
      ]
    ]

snapshot_clock :
    (id : String) (time : ℕ) (db : Db)
    → operation_snapshot id (record db { clock_high_water = time }) ≡ operation_snapshot id db
unfolding operation_snapshot
snapshot_clock id time db = refl

with_clock :
    (p : Prepared) (time : ℕ) (db : Db)
    → Recorded p db
    → Recorded p (record db { clock_high_water = time })
with_clock p time db r = record { by_id = r.by_id; by_key = r.by_key; announced = r.announced }

-- a posting of a recorded request reads its operation
post_in-again :
    (p : Prepared) (now : ℕ) (db : Db)
    → Recorded p db
    → (s : OperationSnapshot) × (operation_snapshot p.request.operation_id db ≡ ok s)
      × (post_in p now db ≡ ok (s, db))
unfolding post_in
post_in-again p now db r =
    let (o, e, same) =
      holds-found (is_operation p.request.operation_id) (same_request p) db.operations r.by_id in
    let (k, f, same') =
      holds-found (has_key p.request.idempotency_key) (same_request p) db.operations r.by_key in
    let (s, shown) = snapshot_exists p.request.operation_id db o e r.announced in
    (s, shown, rw (post_in, e, f, same, same', shown))

prepare-request :
    (host : LedgerHost) (r : PostRequest) → Ensures (λ p. p.request ≡ r) (prepare host r)
unfolding prepare
prepare-request host r = ground arith

-- the checks look at the time alone beside the request
check_post-again :
    (host : LedgerHost) (r : PostRequest) (now now' : ℤ) {t time : ℕ} {p : Prepared}
    → check_post host r now ≡ ok (t, p)
    → validate_time now' ≡ ok time
    → (check_post host r now' ≡ ok (time, p)) × (p.request ≡ r)
unfolding check_post
check_post-again host r now now' {t} {time} {p} h valid =
    let texts = validate_texts (r.operation_id ∷ r.idempotency_key ∷ r.transaction_id ∷ []) in
    elim (Result-cases texts) [
      | inr (x, e) ↦ absurd (cc (rw (check_post, e) at h))
      | inl (u, e0) ↦ elim (Result-cases (validate_time now)) [
        | inr (x, e) ↦ absurd (cc (rw (check_post, e0, e) at h))
        | inl (t', e1) ↦ elim (Result-cases (prepare host r)) [
          | inr (x, e) ↦ absurd (cc (rw (check_post, e0, e1, e) at h))
          | inl (q, e2) ↦
              let same : q ≡ p =
                ap (λ (y : ℕ × Prepared). y.1)
                  (ok-injective (t', q) (t, p) (rw (check_post, e0, e1, e2) at h)) in
              (
                rw (check_post, e0, valid, e2) (ap (λ y. ok (time, y)) same),
                ap (λ (y : Prepared). y.request) (sym same)
                    ∙ Ensures-ok (λ (y : Prepared). y.request ≡ r) (prepare-request host r) e2,
              )
        ]
      ]
    ]

-- After a request whose id and key were new was posted, and after any calls, the same request at
-- any time at which a transaction begins is answered by the operation as it is by then, and
-- nothing but the clock of the store is written.
pub posting_is_idempotent :
    (host : LedgerHost) (r : PostRequest) (now now' : ℤ) (st : LedgerStore) {later : LedgerStore}
    {answer : OperationSnapshot} {time : ℕ} {db : Db}
    → IsNew r st.db
    → (post_operation host r now st).0 ≡ ok answer
    → StoreSteps host (post_operation host r now st).1 later
    → validate_time now' ≡ ok time
    → begin time later ≡ ok db
    → (again : OperationSnapshot) × (operation_snapshot r.operation_id later.db ≡ ok again)
      × (post_operation host r now' later
          ≡ (ok again, record later { db = record later.db { clock_high_water = time } }))
unfolding post_operation
posting_is_idempotent host r now now' st {later} {answer} {time} {db} new first steps valid begun =
    let c =
      transact-Committed (check_post host r now) (λ p time db. catch_constraint (post_in p time db))
        st first in
    let (passed, same) = check_post-again host r now now' c.passed valid in
    let posted : Recorded c.x (post_operation host r now st).1.db =
      post_in-Recorded c.x c.time c.db (rw (same, begin-eq c.time st c.begun) new)
        (catch-ok (post_in c.x c.time c.db) c.done) in
    let kept : Recorded c.x later.db =
      Recorded-Grows c.x (post_operation host r now st).1.db later.db (steps-Grows host steps)
        posted in
    let started : db ≡ record later.db { clock_high_water = time } = begin-eq time later begun in
    let (again, shown, repeated) =
      post_in-again c.x time db (rw started (with_clock c.x time later.db kept)) in
    (
      again,
      sym (snapshot_clock r.operation_id time later.db) ∙ (rw (started, same) at shown),
      rw (passed, begun, repeated) (ap (λ d. (ok again, record later { db = d })) started),
    )
