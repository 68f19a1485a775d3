-- ===== src/Ledger/Balance.antt =====
-- The entries of services/ledger_store/store.py stay in balance: what each statement and method adds
-- to `ledger_entries`.
pub mod Postings
pub mod Reversals
pub mod Books
use cryptogpt_one_intent_wal.Base.{
  ℕ, ◌+◌, ◌≡◌, refl, sym, ap, ◌∙◌, String, Bool, true, false, ◌&&◌, List, [], ◌∷◌, ◌++◌, str_eq,
  if◌then◌else◌, Result, ok, err, map, arith, sorted, select, Bool-cases, inl, inr,
}
use cryptogpt_one_intent_wal.Base.Int.{ℤ, pos, ◌+ℤ◌, negate}
use cryptogpt_one_intent_wal.Base.Totals.{
  part, total_where, zero_+ℤ, total_where-append, total_where-select, total_where-negate,
  total_where-none, total_where-sorted,
}
use cryptogpt_one_intent_wal.Ledger.Rows.{LedgerLine, Entry}
use cryptogpt_one_intent_wal.Ledger.Lines.Balance.{asset_total}
use cryptogpt_one_intent_wal.Ledger.Health.{entries_of}
use cryptogpt_one_intent_wal.Ledger.Store.Post.{posted_entries}
use cryptogpt_one_intent_wal.Ledger.Store.Reconcile.{negated, leb_entries}

abbrev pub of_asset : String → Entry → Bool
of_asset asset_id e = str_eq e.asset_id asset_id

abbrev pub in_transaction : String → String → Entry → Bool
in_transaction id asset_id e = str_eq e.transaction_id id && str_eq e.asset_id asset_id

abbrev pub amount : Entry → ℤ
amount e = e.amount_minor

-- the sum of an asset in one transaction, and in all
abbrev pub transaction_total : String → String → List Entry → ℤ
transaction_total id asset_id es = total_where (in_transaction id asset_id) amount es

abbrev pub book_total : String → List Entry → ℤ
book_total asset_id es = total_where (of_asset asset_id) amount es

pub record IsBalanced (es : List Entry) : Type 0 where
  pub transactions : (id asset_id : String) → transaction_total id asset_id es ≡ pos 0
  pub book : (asset_id : String) → book_total asset_id es ≡ pos 0

pub append-IsBalanced : (es fs : List Entry) → IsBalanced es → IsBalanced fs → IsBalanced (es ++ fs)
append-IsBalanced es fs b c = record {
  transactions = λ id a.
      total_where-append (in_transaction id a) amount es fs
      ∙ rw (b.transactions id a, c.transactions id a) (zero_+ℤ (pos 0));
  book =
      λ a. total_where-append (of_asset a) amount es fs ∙ rw (b.book a, c.book a) (zero_+ℤ (pos 0));
}

posted-transaction_total :
    (id a tx : String) (i : ℕ) (lines : List LedgerLine)
    → transaction_total id a (posted_entries tx i lines) ≡ part (str_eq tx id) (asset_total a lines)
posted-transaction_total id a tx i [] = ground arith
posted-transaction_total id a tx i (l ∷ ls) =
    ground (arith, posted-transaction_total id a tx (i + 1) ls, zero_+ℤ (pos 0))

posted-book_total :
    (a tx : String) (i : ℕ) (lines : List LedgerLine)
    → book_total a (posted_entries tx i lines) ≡ asset_total a lines
posted-book_total a tx i [] = refl
posted-book_total a tx i (l ∷ ls) =
    ap (λ z. part (str_eq l.asset_id a) l.amount_minor +ℤ z) (posted-book_total a tx (i + 1) ls)

-- the entries of a double entry
pub posted-IsBalanced :
    (tx : String) (lines : List LedgerLine)
    → ((a : String) → asset_total a lines ≡ pos 0)
    → IsBalanced (posted_entries tx 0 lines)
posted-IsBalanced tx lines h = record {
  transactions = λ id a. posted-transaction_total id a tx 0 lines ∙ rw (h a) (ground arith);
  book = λ a. posted-book_total a tx 0 lines ∙ h a;
}

-- what `_create_reversal` inserts
abbrev pub inverse_entries : String → String → List Entry → List Entry
inverse_entries id original_id es =
    map (negated id) (sorted leb_entries (entries_of original_id es))

-- the entries of one transaction sum to zero
entries_of-book_total :
    (original_id a : String) (es : List Entry)
    → IsBalanced es
    → book_total a (sorted leb_entries (entries_of original_id es)) ≡ pos 0
entries_of-book_total original_id a es b =
    total_where-sorted leb_entries (of_asset a) amount (entries_of original_id es)
    ∙ total_where-select (of_asset a) (λ e. str_eq e.transaction_id original_id) amount es
    ∙ b.transactions original_id a

pub inverse-IsBalanced :
    (id original_id : String) (es : List Entry)
    → IsBalanced es
    → IsBalanced (inverse_entries id original_id es)
inverse-IsBalanced id original_id es b = record {
  transactions = λ i a. elim (Bool-cases (str_eq id i)) [
    | inl same ↦
        total_where-negate (in_transaction i a) (of_asset a) amount (negated id) (λ e. rw same)
          (λ e. refl) (sorted leb_entries (entries_of original_id es))
        ∙ ap negate (entries_of-book_total original_id a es b)
    | inr apart ↦
        total_where-negate (in_transaction i a) (λ e. false) amount (negated id) (λ e. rw apart)
          (λ e. refl) (sorted leb_entries (entries_of original_id es))
        ∙ ap negate (
            total_where-none (λ e. false) amount (λ e. refl)
              (sorted leb_entries (entries_of original_id es)))
  ];
  book = λ a.
      total_where-negate (of_asset a) (of_asset a) amount (negated id) (λ e. refl) (λ e. refl)
        (sorted leb_entries (entries_of original_id es))
      ∙ ap negate (entries_of-book_total original_id a es b);
}
