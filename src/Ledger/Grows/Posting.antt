-- ===== src/Ledger/Grows/Posting.antt =====
-- What the INSERT statements and `post_operation` of services/ledger_store/store.py do to the tables of
-- operations and events.
use cryptogpt_one_intent_wal.Base.{
  ℕ, ◌≡◌, refl, ◌∙◌, List, [], ◌∷◌, ◌++◌, all, arith, Bool-cases, Result-cases, inl, inr, ap,
}
use cryptogpt_one_intent_wal.Base.Ensures.{Ensures, Ensures-ok, Ensures-imp}
use cryptogpt_one_intent_wal.Ledger.Rows.{Db, Operation, Transaction, Entry, OutboxRow}
use cryptogpt_one_intent_wal.Ledger.Tables.{
  insert_operation, insert_transaction, insert_entry, insert_entries, insert_outbox,
}
use cryptogpt_one_intent_wal.Ledger.Store.{operation_snapshot}
use cryptogpt_one_intent_wal.Ledger.Store.Post.{
  Prepared, posted_operation, posted_transaction, posted_entries, posted_event, check_accounts,
  insert_posting, earlier, same_request, post_in,
}
use cryptogpt_one_intent_wal.Ledger.Grows.{Grows, append_operations, append_outbox, same_Grows}

-- the two tables are as they were
abbrev pub SameRows : Db → Db → Type 0
SameRows db db' = (db'.operations ≡ db.operations) × (db'.outbox ≡ db.outbox)

-- each has one row more, behind the others
abbrev pub Adds : Operation → OutboxRow → Db → Db → Type 0
Adds o e db db' = (db'.operations ≡ db.operations ++ o ∷ []) × (db'.outbox ≡ db.outbox ++ e ∷ [])

abbrev AddsOperation : Operation → Db → Db → Type 0
AddsOperation o db db' = (db'.operations ≡ db.operations ++ o ∷ []) × (db'.outbox ≡ db.outbox)

abbrev AddsEvent : OutboxRow → Db → Db → Type 0
AddsEvent e db db' = (db'.operations ≡ db.operations) × (db'.outbox ≡ db.outbox ++ e ∷ [])

insert_operation-Adds :
    (o : Operation) (db : Db) → Ensures (AddsOperation o db) (insert_operation o db)
unfolding insert_operation
insert_operation-Adds o db = ground arith

pub insert_transaction-SameRows :
    (t : Transaction) (db : Db) → Ensures (SameRows db) (insert_transaction t db)
unfolding insert_transaction
insert_transaction-SameRows t db = ground arith

insert_outbox-Adds : (e : OutboxRow) (db : Db) → Ensures (AddsEvent e db) (insert_outbox e db)
unfolding insert_outbox
insert_outbox-Adds e db = ground arith

insert_entry-SameRows : (e : Entry) (db : Db) → Ensures (SameRows db) (insert_entry e db)
unfolding insert_entry
insert_entry-SameRows e db = ground arith

pub insert_entries-SameRows :
    (es : List Entry) (db : Db) → Ensures (SameRows db) (insert_entries es db)
unfolding insert_entries
insert_entries-SameRows [] db = (refl, refl)
insert_entries-SameRows (e ∷ es) db = elim (Result-cases (insert_entry e db)) [
  | inr (x, raised) ↦ rw (insert_entries, raised) tt
  | inl (mid, done) ↦
      rw (insert_entries, done)
        (Ensures-imp (SameRows mid) (SameRows db) (insert_entries es mid)
          (insert_entries-SameRows es mid)
          (λ db' same.
            let first = Ensures-ok (SameRows db) (insert_entry-SameRows e db) done in
            (same.0 ∙ first.0, same.1 ∙ first.1)))
]

-- a new posting adds its operation and its event
pub insert_posting-Adds :
    (p : Prepared) (now : ℕ) (db : Db)
    → Ensures (Adds (posted_operation p now) (posted_event p now) db) (insert_posting p now db)
unfolding insert_posting
insert_posting-Adds p now db = elim (Result-cases (check_accounts p.lines db.accounts)) [
  | inr (x, e) ↦ rw (insert_posting, e) tt
  | inl (u, e0) ↦ elim (Result-cases (insert_operation (posted_operation p now) db)) [
    | inr (x, e) ↦ rw (insert_posting, e0, e) tt
    | inl (d1, e1) ↦ elim (Result-cases (insert_transaction (posted_transaction p now) d1)) [
      | inr (x, e) ↦ rw (insert_posting, e0, e1, e) tt
      | inl (d2, e2) ↦
          let entries = posted_entries p.request.transaction_id 0 p.lines in
          let (o1, b1) =
            Ensures-ok (AddsOperation (posted_operation p now) db)
              (insert_operation-Adds (posted_operation p now) db) e1 in
          let (o2, b2) =
            Ensures-ok (SameRows d1) (insert_transaction-SameRows (posted_transaction p now) d1)
              e2 in
          elim (Result-cases (insert_entries entries d2)) [
            | inr (x, e) ↦ rw (insert_posting, e0, e1, e2, e) tt
            | inl (d3, e3) ↦
                let (o3, b3) = Ensures-ok (SameRows d2) (insert_entries-SameRows entries d2) e3 in
                rw (insert_posting, e0, e1, e2, e3)
                  (Ensures-imp (AddsEvent (posted_event p now) d3)
                    (Adds (posted_operation p now) (posted_event p now) db)
                    (insert_outbox (posted_event p now) d3)
                    (insert_outbox-Adds (posted_event p now) d3)
                    (λ d4 added. (
                      added.0 ∙ o3 ∙ o2 ∙ o1,
                      added.1 ∙ ap (λ es. es ++ posted_event p now ∷ []) (b3 ∙ b2 ∙ b1),
                    )))
          ]
    ]
  ]
]

Adds-Grows : (o : Operation) (e : OutboxRow) (db db' : Db) → Adds o e db db' → Grows db db'
Adds-Grows o e db db' (a, b) = record {
  operations = rw a (append_operations db.operations (o ∷ []));
  outbox = rw b (append_outbox db.outbox (e ∷ []));
}

abbrev pub SecondGrows {ℓ} : {A : Type ℓ} → Db → A × Db → Type 0
SecondGrows db (a, db') = Grows db db'

pub post_in-Grows : (p : Prepared) (now : ℕ) (db : Db) → Ensures (SecondGrows db) (post_in p now db)
unfolding post_in
post_in-Grows p now db = by_rows (earlier p db) refl
  where
    by_rows :
        (rows : List Operation) → earlier p db ≡ rows → Ensures (SecondGrows db) (post_in p now db)
    by_rows [] e = elim (Result-cases (insert_posting p now db)) [
      | inr (x, raised) ↦ rw (post_in, e, raised) tt
      | inl (d, done) ↦ elim (Result-cases (operation_snapshot p.request.operation_id d)) [
        | inr (x, lost) ↦ rw (post_in, e, done, lost) tt
        | inl (answer, shown) ↦
            rw (post_in, e, done, shown)
              (Adds-Grows (posted_operation p now) (posted_event p now) db d (
                Ensures-ok (Adds (posted_operation p now) (posted_event p now) db)
                  (insert_posting-Adds p now db) done))
      ]
    ]
    by_rows (r ∷ rs) e = elim (Bool-cases (all (same_request p) (r ∷ rs))) [
      | inr other ↦ rw (post_in, e, other) tt
      | inl same ↦ elim (Result-cases (operation_snapshot p.request.operation_id db)) [
        | inr (x, lost) ↦ rw (post_in, e, same, lost) tt
        | inl (answer, shown) ↦ rw (post_in, e, same, shown) (same_Grows refl refl)
      ]
    ]
