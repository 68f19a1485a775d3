-- ===== src/Ledger/Lines/Balance.antt =====
-- The lines that `_normalize_lines` lets through are a double entry.
use cryptogpt_one_intent_wal.Base.{
  ◌≡◌, refl, sym, ap, ◌∙◌, String, true, List, [], ◌∷◌, str_eq, ok, err, all, sorted, arith,
  Result-cases, ok-injective, eq_iff, inl, inr,
}
use cryptogpt_one_intent_wal.Base.Int.{ℤ, pos, ◌+ℤ◌, +ℤ_assoc, +ℤ_zero, eq_of_parts}
use cryptogpt_one_intent_wal.Base.Totals.{part, total_where, zero_+ℤ, total_where-sorted}
use cryptogpt_one_intent_wal.Base.Dict.{Dict, lookup, lookup-insert}
use cryptogpt_one_intent_wal.Ledger.Rows.{LedgerError, LedgerLine}
use cryptogpt_one_intent_wal.Ledger.Lines.{
  Tally, tally_of, add_amount, tally_line, is_balanced, check_lines, leb_lines, normalize_lines,
}

-- the sum of the lines of an asset
abbrev pub asset_total : String → List LedgerLine → ℤ
asset_total asset_id lines =
    total_where (λ l. str_eq l.asset_id asset_id) (λ l. l.amount_minor) lines

abbrev pub tallied : String → Dict Tally → ℤ
tallied asset_id tallies = (tally_of (lookup asset_id tallies)).total

tallied-tally_line :
    (a asset_id : String) (z : ℤ) (tallies : Dict Tally)
    → tallied a (tally_line asset_id z tallies) ≡ tallied a tallies +ℤ part (str_eq asset_id a) z
tallied-tally_line a asset_id z tallies =
    ap (λ m. (tally_of m).total)
      (lookup-insert asset_id a (add_amount z (tally_of (lookup asset_id tallies))) tallies)
    ∙ ground (arith, eq_iff asset_id a, +ℤ_zero (tallied a tallies))

check_lines-nil :
    (ids : List String) (tallies : Dict Tally) → check_lines [] ids tallies ≡ ok tallies
unfolding check_lines
check_lines-nil ids tallies = refl

-- a line that is let through leaves the loop over the rest
check_lines-rest :
    (l : LedgerLine) (ls : List LedgerLine) (ids : List String) (tallies : Dict Tally)
    {out : Dict Tally}
    → check_lines (l ∷ ls) ids tallies ≡ ok out
    → check_lines ls (l.account_id ∷ ids) (tally_line l.asset_id l.amount_minor tallies) ≡ ok out
unfolding check_lines
check_lines-rest l ls ids tallies h = ground arith

check_lines-tallied :
    (a : String) (lines : List LedgerLine) (ids : List String) (tallies : Dict Tally)
    {out : Dict Tally}
    → check_lines lines ids tallies ≡ ok out
    → tallied a out ≡ tallied a tallies +ℤ asset_total a lines
check_lines-tallied a [] ids tallies {out} h =
    ap (tallied a) (sym (ok-injective _ _ (sym (check_lines-nil ids tallies) ∙ h)))
    ∙ sym (+ℤ_zero (tallied a tallies))
check_lines-tallied a (l ∷ ls) ids tallies h =
    check_lines-tallied a ls _ _ (check_lines-rest l ls ids tallies h)
    ∙ rw (tallied-tally_line a l.asset_id l.amount_minor tallies) (
        +ℤ_assoc (tallied a tallies) (part (str_eq l.asset_id a) l.amount_minor) (asset_total a ls))

all_balanced :
    (a : String) (tallies : Dict Tally)
    → all (λ kv. is_balanced kv.1) tallies ≡ true
    → tallied a tallies ≡ pos 0
all_balanced a [] h = refl
all_balanced a ((k, t) ∷ ts) h = ground (arith, all_balanced a ts, eq_of_parts (t.total) (pos 0))

accepted :
    (lines out : List LedgerLine) (tallies : Dict Tally)
    → check_lines lines [] [] ≡ ok tallies
    → normalize_lines lines ≡ ok out
    → (all (λ kv. is_balanced kv.1) tallies ≡ true) × (sorted leb_lines lines ≡ out)
unfolding normalize_lines
accepted lines out tallies checked h = ground arith

not_refused :
    (lines out : List LedgerLine) {e : LedgerError}
    → check_lines lines [] [] ≡ err e
    → ¬ (normalize_lines lines ≡ ok out)
unfolding normalize_lines
not_refused lines out refused h = ground arith

-- Lines that _normalize_lines lets through sum to zero for every asset, also one that no line
-- names.
pub normalize_lines-balanced :
    (asset_id : String) (lines out : List LedgerLine)
    → normalize_lines lines ≡ ok out
    → asset_total asset_id out ≡ pos 0
normalize_lines-balanced asset_id lines out h = elim (Result-cases (check_lines lines [] [])) [
  | inl (tallies, checked) ↦
      let (passed, same) = accepted lines out tallies checked h in
      ap (asset_total asset_id) (sym same)
      ∙ total_where-sorted leb_lines (λ l. str_eq l.asset_id asset_id) (λ l. l.amount_minor) lines
      ∙ sym (zero_+ℤ (asset_total asset_id lines))
      ∙ sym (check_lines-tallied asset_id lines [] [] checked)
      ∙ all_balanced asset_id tallies passed
  | inr (e, refused) ↦ absurd (not_refused lines out refused h)
]
