-- ===== src/Ledger/Grows.antt =====
-- A relation between two states of the database of services/ledger_store/store.py: on the rows of
-- recorded requests and their events, on events that are delivered or cancelled, and on operations
-- that are locked in conflict.
pub mod Posting
pub mod Reconciling
pub mod Steps
use cryptogpt_one_intent_wal.Base.{
  ◌≡◌, refl, sym, ◌∙◌, subst, String, Bool, true, false, not, ◌&&◌, ◌||◌, some, List, ◌++◌, find,
  update_where, arith, eq_iff,
}
use cryptogpt_one_intent_wal.Base.RowLaws.{find-holds}
use cryptogpt_one_intent_wal.Base.Holds.{holds, holds-append, holds-update, holds-found}
use cryptogpt_one_intent_wal.Ledger.Rows.{
  Db, Operation, OutboxRow, OperationState, reconciliation_required, confirmed, reversed,
}
use cryptogpt_one_intent_wal.Ledger.Tables.{is_operation, is_event, is_event_of}
use cryptogpt_one_intent_wal.Ledger.Health.{is_delivered, is_cancelled}
use cryptogpt_one_intent_wal.Ledger.Store.Post.{Prepared, same_request, has_key}

abbrev pub requires_reconciliation : OperationState → Bool
requires_reconciliation OperationState.pending = false
requires_reconciliation confirmed = false
requires_reconciliation reversed = false
requires_reconciliation reconciliation_required = true

-- in conflict, as `lock_conflict` leaves it
abbrev pub is_locked : Operation → Bool
is_locked o = o.reconciliation_conflict && requires_reconciliation o.state

abbrev pub is_free : Operation → Bool
is_free o = not o.reconciliation_conflict

abbrev pub is_settled : OutboxRow → Bool
is_settled e = is_delivered e.state || is_cancelled e.state

abbrev pub is_there : OutboxRow → Bool
is_there e = true

abbrev Keeps {ℓ} : {A : Type ℓ} → (A → Bool) → (A → Bool) → List A → List A → Type 0
Keeps t g xs ys = holds t g xs ≡ true → holds t g ys ≡ true

pub record GrowsOperations (xs ys : List Operation) : Type 0 where
  pub by_id : (p : Prepared) → Keeps (is_operation p.request.operation_id) (same_request p) xs ys
  pub by_key : (p : Prepared) → Keeps (has_key p.request.idempotency_key) (same_request p) xs ys
  pub locked : (id : String) → Keeps (is_operation id) is_locked xs ys

pub record GrowsOutbox (xs ys : List OutboxRow) : Type 0 where
  pub announced : (id : String) → Keeps (is_event_of id) is_there xs ys
  pub settled : (id : String) → Keeps (is_event id) is_settled xs ys

pub record Grows (db db' : Db) : Type 0 where
  pub operations : GrowsOperations db.operations db'.operations
  pub outbox : GrowsOutbox db.outbox db'.outbox

pub same_operations : (xs : List Operation) → GrowsOperations xs xs
same_operations xs = record { by_id = λ p h. h; by_key = λ p h. h; locked = λ id h. h }

pub same_outbox : (xs : List OutboxRow) → GrowsOutbox xs xs
same_outbox xs = record { announced = λ id h. h; settled = λ id h. h }

pub then_operations :
    {xs ys zs : List Operation}
    → GrowsOperations xs ys
    → GrowsOperations ys zs
    → GrowsOperations xs zs
then_operations a b = record {
  by_id = λ p h. b.by_id p (a.by_id p h);
  by_key = λ p h. b.by_key p (a.by_key p h);
  locked = λ id h. b.locked id (a.locked id h);
}

pub then_outbox :
    {xs ys zs : List OutboxRow} → GrowsOutbox xs ys → GrowsOutbox ys zs → GrowsOutbox xs zs
then_outbox a b = record {
  announced = λ id h. b.announced id (a.announced id h);
  settled = λ id h. b.settled id (a.settled id h);
}

pub then_Grows : {a b c : Db} → Grows a b → Grows b c → Grows a c
then_Grows f g = record {
  operations = then_operations f.operations g.operations;
  outbox = then_outbox f.outbox g.outbox;
}

-- a database with the same two tables
pub same_Grows :
    {db db' : Db} → db'.operations ≡ db.operations → db'.outbox ≡ db.outbox → Grows db db'
same_Grows {db} {db'} o e = record {
  operations = subst (GrowsOperations db.operations) (sym o) (same_operations db.operations);
  outbox = subst (GrowsOutbox db.outbox) (sym e) (same_outbox db.outbox);
}

pub append_operations : (xs ys : List Operation) → GrowsOperations xs (xs ++ ys)
append_operations xs ys = record {
  by_id = λ p h. holds-append _ _ xs ys h;
  by_key = λ p h. holds-append _ _ xs ys h;
  locked = λ id h. holds-append _ _ xs ys h;
}

pub append_outbox : (xs ys : List OutboxRow) → GrowsOutbox xs (xs ++ ys)
append_outbox xs ys = record {
  announced = λ id h. holds-append _ _ xs ys h;
  settled = λ id h. holds-append _ _ xs ys h;
}

-- An update that leaves what identifies a request alone.
abbrev pub Identifies : (Operation → Operation) → Type 0
Identifies f =
    (o : Operation)
    → ((f o).operation_id ≡ o.operation_id)
      × ((f o).idempotency_key ≡ o.idempotency_key)
      × ((f o).request_fingerprint ≡ o.request_fingerprint)

pub update_operations :
    (q : Operation → Bool) (f : Operation → Operation) (xs : List Operation)
    → Identifies f
    → ((id : String) (x : Operation)
        → find (is_operation id) xs ≡ some x
        → q x ≡ true
        → is_locked x ≡ true
        → is_locked (f x) ≡ true)
    → GrowsOperations xs (update_where q f xs)
update_operations q f xs same keep = record {
  by_id = λ p.
      holds-update _ _ q f xs (λ o. rw (same o).0 refl) (λ o _ _ h. rw ((same o).0, (same o).2) h);
  by_key = λ p.
      holds-update _ _ q f xs (λ o. rw (same o).1 refl) (λ o _ _ h. rw ((same o).0, (same o).2) h);
  locked = λ id. holds-update _ is_locked q f xs (λ o. rw (same o).0 refl) (keep id);
}

-- The operation `id`, if it is not in conflict, may be set to any state.
pub update_free :
    (id : String) (f : Operation → Operation) (xs : List Operation)
    → Identifies f
    → holds (is_operation id) is_free xs ≡ true
    → GrowsOperations xs (update_where (is_operation id) f xs)
update_free id f xs same free = update_operations (is_operation id) f xs same (λ i x e q locked.
    let (y, found, open_) = holds-found (is_operation id) is_free xs free in
    let one : i ≡ id =
      sym ((eq_iff x.operation_id i).0 (find-holds (is_operation i) xs x e))
      ∙ (eq_iff x.operation_id id).0 q in
    absurd
      (ground (arith, subst (λ k. find (is_operation k) xs ≡ some x) one e, found, open_, locked)))

pub update_outbox :
    (q : OutboxRow → Bool) (f : OutboxRow → OutboxRow) (xs : List OutboxRow)
    → ((e : OutboxRow) → ((f e).event_id ≡ e.event_id) × ((f e).operation_id ≡ e.operation_id))
    → ((id : String) (e : OutboxRow)
        → find (is_event id) xs ≡ some e
        → q e ≡ true
        → is_settled e ≡ true
        → is_settled (f e) ≡ true)
    → GrowsOutbox xs (update_where q f xs)
update_outbox q f xs same keep = record {
  announced = λ id. holds-update _ _ q f xs (λ e. rw (same e).1 refl) (λ e _ _ h. refl);
  settled = λ id. holds-update _ is_settled q f xs (λ e. rw (same e).0 refl) (keep id);
}
