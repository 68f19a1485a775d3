-- ===== src/Ledger/Balance/Postings.antt =====
-- What `post_operation` and `reconcile_operation` add to the entries.
use cryptogpt_one_intent_wal.Base.{
  ℕ, ◌≡◌, refl, sym, ap, ◌∙◌, subst, String, List, [], ◌∷◌, ◌++◌, ok, ◌>>=◌, arith, all, Bool-cases,
  Result-cases, inl, inr,
}
use cryptogpt_one_intent_wal.Base.Int.{pos}
use cryptogpt_one_intent_wal.Base.Ensures.{Ensures, Ensures-ok, Ensures-imp, >>=-Ensures}
use cryptogpt_one_intent_wal.Ledger.Rows.{Db, Entry, Transaction, Operation, OutboxRow, Observation}
use cryptogpt_one_intent_wal.Ledger.Tables.{
  insert_operation, insert_transaction, insert_entry, insert_entries, insert_outbox,
  insert_observation,
}
use cryptogpt_one_intent_wal.Ledger.Lines.Balance.{asset_total}
use cryptogpt_one_intent_wal.Ledger.Store.{OperationSnapshot, operation_snapshot}
use cryptogpt_one_intent_wal.Ledger.Store.Post.{
  Prepared, posted_entries, posted_operation, posted_transaction, posted_event, insert_posting,
  check_accounts, earlier, post_in, same_request,
}
use cryptogpt_one_intent_wal.Ledger.Balance.{IsBalanced, append-IsBalanced, posted-IsBalanced}

abbrev pub SameEntries : Db → Db → Type 0
SameEntries db db' = db'.entries ≡ db.entries

abbrev pub Balanced : Db → Type 0
Balanced db = IsBalanced db.entries

pub keep : (db db' : Db) → SameEntries db db' → Balanced db → Balanced db'
keep db db' e b = subst (λ es. IsBalanced es) (sym e) b

insert_operation-SameEntries :
    (o : Operation) (db : Db) → Ensures (SameEntries db) (insert_operation o db)
unfolding insert_operation
insert_operation-SameEntries o db = ground arith

insert_transaction-SameEntries :
    (t : Transaction) (db : Db) → Ensures (SameEntries db) (insert_transaction t db)
unfolding insert_transaction
insert_transaction-SameEntries t db = ground arith

insert_outbox-SameEntries :
    (e : OutboxRow) (db : Db) → Ensures (SameEntries db) (insert_outbox e db)
unfolding insert_outbox
insert_outbox-SameEntries e db = ground arith

pub insert_observation-SameEntries :
    (o : Observation) (db : Db) → Ensures (SameEntries db) (insert_observation o db)
unfolding insert_observation
insert_observation-SameEntries o db = ground arith

abbrev Appends : List Entry → Db → Db → Type 0
Appends es db db' = db'.entries ≡ db.entries ++ es

insert_entry-Appends : (e : Entry) (db : Db) → Ensures (Appends (e ∷ []) db) (insert_entry e db)
unfolding insert_entry
insert_entry-Appends e db = ground arith

append_one : (xs : List Entry) (x : Entry) (ys : List Entry) → (xs ++ x ∷ []) ++ ys ≡ xs ++ x ∷ ys
append_one [] x ys = refl
append_one (z ∷ xs) x ys = ap (λ l. z ∷ l) (append_one xs x ys)

append_none : (xs : List Entry) → xs ++ [] ≡ xs
append_none [] = refl
append_none (x ∷ xs) = ap (λ l. x ∷ l) (append_none xs)

insert_entries-Appends :
    (es : List Entry) (db : Db) → Ensures (Appends es db) (insert_entries es db)
unfolding insert_entries
insert_entries-Appends [] db = sym (append_none db.entries)
insert_entries-Appends (e ∷ es) db =
    >>=-Ensures (Appends (e ∷ []) db) (Appends (e ∷ es) db) (insert_entry e db) (insert_entries es)
      (insert_entry-Appends e db)
      (λ mid h.
        Ensures-imp (Appends es mid) (Appends (e ∷ es) db) (insert_entries es mid)
          (insert_entries-Appends es mid)
          (λ db' k. k ∙ ap (λ l. l ++ es) h ∙ append_one db.entries e es))

extend :
    (es : List Entry) (db db' : Db) → Appends es db db' → Balanced db → IsBalanced es → Balanced db'
extend es db db' e b c = subst (λ l. IsBalanced l) (sym e) (append-IsBalanced db.entries es b c)

-- a transaction with its entries
pub with_entries :
    (t : Transaction) (es : List Entry) (d1 d2 d3 : Db)
    → Balanced d1
    → IsBalanced es
    → insert_transaction t d1 ≡ ok d2
    → insert_entries es d2 ≡ ok d3
    → Balanced d3
with_entries t es d1 d2 d3 b c e2 e3 =
    extend es d2 d3 (Ensures-ok (Appends es d2) (insert_entries-Appends es d2) e3)
      (keep d1 d2 (Ensures-ok (SameEntries d1) (insert_transaction-SameEntries t d1) e2) b) c

insert_posting-Balanced :
    (p : Prepared) (now : ℕ) (db : Db)
    → Balanced db
    → ((a : String) → asset_total a p.lines ≡ pos 0)
    → Ensures Balanced (insert_posting p now db)
unfolding insert_posting
insert_posting-Balanced p now db b z = elim (Result-cases (check_accounts p.lines db.accounts)) [
  | inr (x, e) ↦ rw (insert_posting, e) tt
  | inl (u, e0) ↦ elim (Result-cases (insert_operation (posted_operation p now) db)) [
    | inr (x, e) ↦ rw (insert_posting, e0, e) tt
    | inl (d1, e1) ↦ elim (Result-cases (insert_transaction (posted_transaction p now) d1)) [
      | inr (x, e) ↦ rw (insert_posting, e0, e1, e) tt
      | inl (d2, e2) ↦
          elim (Result-cases
            (insert_entries (posted_entries p.request.transaction_id 0 p.lines) d2)) [
              | inr (x, e) ↦ rw (insert_posting, e0, e1, e2, e) tt
              | inl (d3, e3) ↦
                  rw (insert_posting, e0, e1, e2, e3)
                    (Ensures-imp (SameEntries d3) Balanced (insert_outbox (posted_event p now) d3)
                      (insert_outbox-SameEntries (posted_event p now) d3)
                      (λ d4 same. keep d3 d4 same (
                        with_entries (posted_transaction p now)
                          (posted_entries p.request.transaction_id 0 p.lines) d1 d2 d3
                          (keep db d1
                            (Ensures-ok (SameEntries db)
                              (insert_operation-SameEntries (posted_operation p now) db) e1)
                            b)
                          (posted-IsBalanced p.request.transaction_id p.lines z) e2 e3)))
            ]
    ]
  ]
]

-- the database of a result
abbrev pub Second {ℓ} : {A : Type ℓ} → (Db → Type 0) → A × Db → Type 0
Second P (a, db) = P db

pub snapshot-Balanced {ℓ} :
    {A : Type ℓ} (id : String) (db : Db) (f : OperationSnapshot → A)
    → Balanced db
    → Ensures (Second Balanced) (operation_snapshot id db >>= λ answer. ok (f answer, db))
snapshot-Balanced id db f b = elim (Result-cases (operation_snapshot id db)) [
  | inl (a, e) ↦ rw e b
  | inr (x, e) ↦ rw e tt
]

-- `post_operation` keeps the balance if its lines are a double entry.
pub post_in-Balanced :
    (p : Prepared) (now : ℕ) (db : Db)
    → Balanced db
    → ((a : String) → asset_total a p.lines ≡ pos 0)
    → Ensures (Second Balanced) (post_in p now db)
unfolding post_in
post_in-Balanced p now db b z = by_rows (earlier p db) refl
  where
    by_rows :
        (rows : List Operation) → earlier p db ≡ rows → Ensures (Second Balanced) (post_in p now db)
    by_rows [] e = elim (Result-cases (insert_posting p now db)) [
      | inl (db', done) ↦
          rw (post_in, e, done)
            (snapshot-Balanced p.request.operation_id db' (λ a. a)
              (Ensures-ok Balanced (insert_posting-Balanced p now db b z) done))
      | inr (x, raised) ↦ rw (post_in, e, raised) tt
    ]
    by_rows (r ∷ rs) e = elim (Bool-cases (all (same_request p) (r ∷ rs))) [
      | inl same ↦ rw (post_in, e, same) (snapshot-Balanced p.request.operation_id db (λ a. a) b)
      | inr other ↦ rw (post_in, e, other) tt
    ]
