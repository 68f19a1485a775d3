-- ===== src/Fee/Once.antt =====
-- No operation is charged twice, and none is reimbursed more often than it was charged.
use Prim.Native.Nat.{◌≤◌}
use cryptogpt_one_intent_wal.Base.{
  ℕ, ◌+◌, ◌≡◌, refl, String, Bool, true, false, List, [], ◌∷◌, str_eq, Result, ok, if◌then◌else◌,
  arith, eq_iff, inl, inr, Bool-cases, ap,
}
use cryptogpt_one_intent_wal.Base.RowLaws.{any-append}
use cryptogpt_one_intent_wal.Canonical.Checks.{Host}
use cryptogpt_one_intent_wal.Domain.Store.{contains}
use cryptogpt_one_intent_wal.Fee.{
  FeeError, ReimbursementLedger, is_text, charge_once, reimburse_once,
}

abbrev pub empty_ledger : ReimbursementLedger
empty_ledger = record { charged_operations = []; reimbursed_operations = [] }

pub data LedgerCall : Type 0 where
  charge reimburse : String → LedgerCall

abbrev answered : Result FeeError Bool → ℕ
answered (ok true) = 1
answered _ = 0

module _ (host : Host) where
  -- the calls that returned true for the operation: how often it was charged, and how often reimbursed
  unfoldable pub times_charged : String → List LedgerCall → ReimbursementLedger → ℕ
  times_charged id [] ledger = 0
  times_charged id (charge op ∷ calls) ledger =
      (if str_eq op id then answered (charge_once host op ledger).0 else 0)
      + times_charged id calls (charge_once host op ledger).1
  times_charged id (reimburse op ∷ calls) ledger =
      times_charged id calls (reimburse_once host op ledger).1

  unfoldable pub times_reimbursed : String → List LedgerCall → ReimbursementLedger → ℕ
  times_reimbursed id [] ledger = 0
  times_reimbursed id (charge op ∷ calls) ledger =
      times_reimbursed id calls (charge_once host op ledger).1
  times_reimbursed id (reimburse op ∷ calls) ledger =
      (if str_eq op id then answered (reimburse_once host op ledger).0 else 0)
      + times_reimbursed id calls (reimburse_once host op ledger).1

  abbrev bit : Bool → ℕ
  bit true = 1
  bit false = 0

  abbrev is_charged : String → ReimbursementLedger → ℕ
  is_charged id ledger = bit (contains id ledger.charged_operations)

  abbrev is_reimbursed : String → ReimbursementLedger → ℕ
  is_reimbursed id ledger = bit (contains id ledger.reimbursed_operations)

  seen_again :
      (id op : String) (s : List String)
      → contains op s ≡ true
      → str_eq op id ≡ true
      → contains id s ≡ true
  seen_again id op s old same = rw⁻¹ ((eq_iff op id).0 same) old

  not_seen :
      (id op : String) (s : List String)
      → contains op s ≡ false
      → str_eq op id ≡ true
      → contains id s ≡ false
  not_seen id op s new same = rw⁻¹ ((eq_iff op id).0 same) new

  charge-effect :
      (id op : String) (ledger : ReimbursementLedger)
      → (is_charged id (charge_once host op ledger).1
          ≡ (if str_eq op id then answered (charge_once host op ledger).0 else 0)
            + is_charged id ledger)
        × ((charge_once host op ledger).1.reimbursed_operations ≡ ledger.reimbursed_operations)
  unfolding charge_once
  charge-effect id op ledger = elim (Bool-cases (is_text host 512 op)) [
    | inr bad ↦ rw (charge_once, bad) (ground arith, refl)
    | inl text ↦ elim (Bool-cases (contains op ledger.charged_operations)) [
      | inl old ↦ rw (charge_once, text, old) (ground arith, refl)
      | inr new ↦
          rw (charge_once, text, new)
            (
              ground (
                arith,
                any-append (λ y. str_eq y id) ledger.charged_operations (op ∷ []),
                not_seen id op ledger.charged_operations new,
              ),
              refl,
            )
    ]
  ]

  reimburse-effect :
      (id op : String) (ledger : ReimbursementLedger)
      → (is_reimbursed id (reimburse_once host op ledger).1
          ≡ (if str_eq op id then answered (reimburse_once host op ledger).0 else 0)
            + is_reimbursed id ledger)
        × ((reimburse_once host op ledger).1.charged_operations ≡ ledger.charged_operations)
        × (is_reimbursed id ledger ≤ is_charged id ledger
            → is_reimbursed id (reimburse_once host op ledger).1 ≤ is_charged id ledger)
  unfolding reimburse_once
  reimburse-effect id op ledger = elim (Bool-cases (is_text host 512 op)) [
    | inr bad ↦ rw (reimburse_once, bad) (ground arith, refl, λ h. h)
    | inl text ↦ elim (Bool-cases (contains op ledger.charged_operations)) [
      | inr uncharged ↦ rw (reimburse_once, text, uncharged) (ground arith, refl, λ h. h)
      | inl charged ↦ elim (Bool-cases (contains op ledger.reimbursed_operations)) [
        | inl old ↦ rw (reimburse_once, text, charged, old) (ground arith, refl, λ h. h)
        | inr new ↦
            let fresh = not_seen id op ledger.reimbursed_operations new in
            let spread = any-append (λ y. str_eq y id) ledger.reimbursed_operations (op ∷ []) in
            let seen = seen_again id op ledger.charged_operations charged in
            rw (reimburse_once, text, charged, new)
              (ground (arith, spread, fresh), refl, λ h. ground (arith, spread, seen))
      ]
    ]
  ]

  -- Over any calls, the answers true to charges of an operation and its presence in the ledger add
  -- up, and so do those to reimbursements, which never exceed the charges.
  counts :
      (id : String) (calls : List LedgerCall) (ledger : ReimbursementLedger)
      → is_reimbursed id ledger ≤ is_charged id ledger
      → (times_charged id calls ledger + is_charged id ledger ≤ 1)
        × (times_reimbursed id calls ledger + is_reimbursed id ledger
            ≤ times_charged id calls ledger + is_charged id ledger)
  unfolding times_charged times_reimbursed
  counts id [] ledger h = (ground arith, ground arith)
  counts id (charge op ∷ calls) ledger h =
      let (charged, kept) = charge-effect id op ledger in
      let same : is_reimbursed id (charge_once host op ledger).1 ≡ is_reimbursed id ledger =
        ap (λ s. bit (contains id s)) kept in
      let (most, order) =
        counts id calls (charge_once host op ledger).1 (omega (arith, h, same, charged)) in
      (omega (arith, most, charged), omega (arith, order, charged, same))
  counts id (reimburse op ∷ calls) ledger h =
      let (reimbursed, kept, still) = reimburse-effect id op ledger in
      let same : is_charged id (reimburse_once host op ledger).1 ≡ is_charged id ledger =
        ap (λ s. bit (contains id s)) kept in
      let below = still h in
      let (most, order) =
        counts id calls (reimburse_once host op ledger).1 (omega (arith, below, same)) in
      (omega (arith, most, same), omega (arith, order, reimbursed, same))

  -- Starting from an empty ledger, whatever calls are made: an operation is charged at most once,
  -- and it is reimbursed no more often than it was charged.
  pub charged_and_reimbursed_at_most_once :
      (id : String) (calls : List LedgerCall)
      → (times_charged id calls empty_ledger ≤ 1)
        × (times_reimbursed id calls empty_ledger ≤ times_charged id calls empty_ledger)
  charged_and_reimbursed_at_most_once id calls =
      let (most, order) = counts id calls empty_ledger (omega arith) in
      (omega (arith, most), omega (arith, order))
