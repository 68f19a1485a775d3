-- ===== src/Ledger/Delivery.antt =====
-- `mark_outbox_delivered` of services/ledger_store/store.py over any calls.
use cryptogpt_one_intent_wal.Base.{
  ℕ, ◌≡◌, refl, String, true, ok, arith, find, Option-cases, inl, inr, false, eq_refl, eq_iff,
}
use cryptogpt_one_intent_wal.Base.Int.{ℤ}
use cryptogpt_one_intent_wal.Base.RowLaws.{find-holds}
use cryptogpt_one_intent_wal.Base.Holds.{holds, holds-found, find-updated}
use cryptogpt_one_intent_wal.Ledger.Rows.{Db}
use cryptogpt_one_intent_wal.Ledger.Checks.{LedgerHost}
use cryptogpt_one_intent_wal.Ledger.Tables.{is_event}
use cryptogpt_one_intent_wal.Ledger.Store.{LedgerStore, begin}
use cryptogpt_one_intent_wal.Ledger.Store.Outbox.{
  deliver_in, delivered_db, check_delivery, mark_outbox_delivered, deliver,
}
use cryptogpt_one_intent_wal.Ledger.Grows.{is_settled}
use cryptogpt_one_intent_wal.Ledger.Grows.Steps.{steps-Grows}
use cryptogpt_one_intent_wal.Ledger.Balance.Books.{StoreSteps}
use cryptogpt_one_intent_wal.Ledger.Calls.{transact-Committed, begin-eq}

-- the event is delivered or cancelled
abbrev Settled : String → Db → Type 0
Settled id db = holds (is_event id) is_settled db.outbox ≡ true

-- an acknowledgement that reports a delivery leaves the event settled, and found it open
deliver_in-Settled :
    (event_id worker_id : String) (now : ℕ) (db : Db) {db' : Db}
    → deliver_in (event_id, worker_id) now db ≡ ok (true, db')
    → Settled event_id db' × ¬ (Settled event_id db)
unfolding deliver_in
deliver_in-Settled event_id worker_id now db {db'} h =
    elim (Option-cases (find (is_event event_id) db.outbox)) [
      | inl missing ↦ absurd (ground arith)
      | inr (row, e) ↦
          let waiting : is_settled row ≡ false = ground arith in
          let after : db' ≡ delivered_db row now db = ground arith in
          let here = find-holds (is_event event_id) db.outbox row e in
          let same = (eq_iff row.event_id event_id).0 here in
          (
            rw after (
                rw
                  (find-updated (is_event event_id) (is_event row.event_id) (deliver now) db.outbox
                    row (λ y. refl) e (rw same (rw (← same) (eq_refl row.event_id))))
                  refl),
            λ settled.
                let (r, f, done) = holds-found (is_event event_id) is_settled db.outbox settled in
                absurd (ground (arith, e, f, done, waiting)),
          )
    ]

check_delivery-id :
    (event_id worker_id : String) (now : ℤ) {time : ℕ} {x : String × String}
    → check_delivery event_id worker_id now ≡ ok (time, x)
    → x.0 ≡ event_id
unfolding check_delivery
check_delivery-id event_id worker_id now h = ground arith

-- the clock is no part of it
Settled-begin :
    (id : String) (time : ℕ) (st : LedgerStore) {db : Db}
    → begin time st ≡ ok db
    → Settled id st.db
    → Settled id db
Settled-begin id time st h s = rw (begin-eq time st h) s

-- An event is acknowledged at most once: after a call of mark_outbox_delivered has returned True,
-- and after any calls, no call for this event by any worker at any time returns True.
pub delivered_at_most_once :
    (host : LedgerHost) (event_id worker worker' : String) (now now' : ℤ) (st : LedgerStore)
    {later : LedgerStore}
    → (mark_outbox_delivered event_id worker now st).0 ≡ ok true
    → StoreSteps host (mark_outbox_delivered event_id worker now st).1 later
    → ¬ ((mark_outbox_delivered event_id worker' now' later).0 ≡ ok true)
unfolding mark_outbox_delivered
delivered_at_most_once host event_id worker worker' now now' st {later} first steps second =
    let c = transact-Committed (check_delivery event_id worker now) deliver_in st first in
    let c' = transact-Committed (check_delivery event_id worker' now') deliver_in later second in
    let (settled, _) = deliver_in-Settled c.x.0 c.x.1 c.time c.db c.done in
    let (_, open_) = deliver_in-Settled c'.x.0 c'.x.1 c'.time c'.db c'.done in
    let same = check_delivery-id event_id worker now c.passed in
    let same' = check_delivery-id event_id worker' now' c'.passed in
    open_ (
      rw same' (
        Settled-begin event_id c'.time later c'.begun
          ((steps-Grows host steps).outbox.settled event_id (rw same at settled))))
