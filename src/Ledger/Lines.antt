-- ===== src/Ledger/Lines.antt =====
-- `_normalize_lines` of services/ledger_store/store.py, and the totals of each asset that it shares
-- with `_ledger_invariant_issues`.
pub mod Balance
use cryptogpt_one_intent_wal.Base.{
  ℕ, ◌+◌, String, Bool, true, false, not, ◌&&◌, ◌||◌, Option, none, some, List, [], ◌∷◌, leb, ltb,
  ◌==◌, str_eq, if◌then◌else◌, Result, ok, err, ◌>>=◌, ◌>>◌, guard, length, any, all, sorted,
}
use cryptogpt_one_intent_wal.Base.Int.{ℤ, pos, negsuc, ◌+ℤ◌, magnitude, eq_ℤ, ltb_ℤ}
use cryptogpt_one_intent_wal.Base.Dict.{Dict, lookup, insert}
use cryptogpt_one_intent_wal.Base.Text.{codes}
use cryptogpt_one_intent_wal.Canonical.Bytes.{leb_units}
use cryptogpt_one_intent_wal.Ledger.Rows.{LedgerError, validation, LedgerLine}
use cryptogpt_one_intent_wal.Ledger.Checks.{validate_text, max_text, max_lines, max_minor_units}

-- the total of an asset, and which members its set of signs has
pub record Tally : Type 0 where
  pub total : ℤ
  pub has_debit : Bool
  pub has_credit : Bool

abbrev pub no_tally : Tally
no_tally = record { total = pos 0; has_debit = false; has_credit = false }

abbrev pub tally_of : Option Tally → Tally
tally_of none = no_tally
tally_of (some t) = t

abbrev pub add_amount : ℤ → Tally → Tally
add_amount amount t = record {
  total = t.total +ℤ amount;
  has_debit = t.has_debit || ltb_ℤ (pos 0) amount;
  has_credit = t.has_credit || not (ltb_ℤ (pos 0) amount);
}

-- `asset_totals` and `asset_signs` after one more line
abbrev pub tally_line : String → ℤ → Dict Tally → Dict Tally
tally_line asset_id amount tallies =
    insert asset_id (add_amount amount (tally_of (lookup asset_id tallies))) tallies

-- the total is 0 and the signs are {-1, 1}
abbrev pub is_balanced : Tally → Bool
is_balanced t = eq_ℤ t.total (pos 0) && t.has_debit && t.has_credit

abbrev pub is_amount : ℤ → Bool
is_amount amount = not (magnitude amount == 0) && leb (magnitude amount) max_minor_units

-- the loop over the lines
unfoldable pub check_lines :
    List LedgerLine → List String → Dict Tally → Result LedgerError (Dict Tally)
check_lines [] account_ids tallies = ok tallies
check_lines (line ∷ lines) account_ids tallies = do
  validate_text line.account_id max_text
  validate_text line.asset_id max_text
  guard (is_amount line.amount_minor) validation
  guard (not (any (str_eq line.account_id) account_ids)) validation
  check_lines lines (line.account_id ∷ account_ids)
      (tally_line line.asset_id line.amount_minor tallies)

-- the order of the keys (asset_id, account_id)
abbrev pub leb_lines : LedgerLine → LedgerLine → Bool
leb_lines l m =
    if str_eq l.asset_id m.asset_id
    then leb_units (codes l.account_id) (codes m.account_id)
    else leb_units (codes l.asset_id) (codes m.asset_id)

-- `_normalize_lines`
unfoldable pub normalize_lines : List LedgerLine → Result LedgerError (List LedgerLine)
normalize_lines lines = do
  guard (leb 2 (length lines) && leb (length lines) max_lines) validation
  tallies ← check_lines lines [] []
  guard (all (λ kv. is_balanced kv.1) tallies) validation
  ok (sorted leb_lines lines)
