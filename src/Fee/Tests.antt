-- ===== src/Fee/Tests.antt =====
-- An offered fee route and a run of charges, and the theorems at them. The host is a stand-in: every
-- text is in NFC, and every digest is one text.
use Prim.Native.Nat.{◌≤◌}
use mathlib.Core.List.{flat_map}
use cryptogpt_one_intent_wal.Base.{◌≡◌, refl, true, false, some, [], ◌∷◌, List}
use cryptogpt_one_intent_wal.Base.Int.{pos}
use cryptogpt_one_intent_wal.Canonical.Checks.{
  Host, validate_string, is_default_ignorable, visit, ensure_nfc,
}
use cryptogpt_one_intent_wal.Canonical.Decimal.{decimal_string, decimal_codes}
use cryptogpt_one_intent_wal.Canonical.Bytes.{
  ordered, dumps, canonical_bytes, canonical_hash, leb_units,
}
use cryptogpt_one_intent_wal.Fee.{
  FeeRouteCapability, OperationBoundQuote, Expected, verified_operation_bound_route,
  same_capability, is_time, is_text, quote_digest, evidence_is_current, capability_texts,
  capability_is_live, quote_is_live, fees_are_bounded, zero_native_balance_eligible,
  plan_without_balance, plan_for, fee_readiness_plan, charge_once, reimburse_once,
}
use cryptogpt_one_intent_wal.Fee.Route.{Offered, fee_readiness_plan-Offered}
use cryptogpt_one_intent_wal.Fee.Once.{
  LedgerCall, charge, reimburse, times_charged, times_reimbursed, empty_ledger,
  charged_and_reimbursed_at_most_once,
}

program : Unit {0}
unfolding validate_string is_default_ignorable visit ensure_nfc decimal_string decimal_codes ordered
    dumps canonical_bytes canonical_hash leb_units flat_map same_capability is_time is_text
    quote_digest evidence_is_current capability_texts capability_is_live quote_is_live
    fees_are_bounded zero_native_balance_eligible plan_without_balance plan_for fee_readiness_plan
    charge_once reimburse_once times_charged times_reimbursed
program = tt

abbrev host : Host
host = record { is_nfc = λ _. true; sha256 = λ _. "digest" }

abbrev capability : FeeRouteCapability
capability = record {
  account_model = "SPONSORED";
  network = "hyperliquid:testnet";
  token_asset_id = "USDC";
  provider_id = "provider";
  terms_url = "https://terms";
  support_route = "support";
  jurisdiction = "JP";
  settlement_target = "target";
  supports_zero_native_balance = true;
  evidence_status = "VERIFIED";
  evidence_expires_at = pos 500;
  revoked = false;
  reviewed = true;
  permit_bootstrap_without_gas = true;
  failure_charge_cap = "0.5";
  rate_limit_status = "HEALTHY";
  liquidity_status = "HEALTHY";
}

abbrev quote : OperationBoundQuote
quote = record {
  quote_id = "quote-1";
  capability = capability;
  account = "0xabc";
  operation_id = "op-1";
  amount = "10";
  nonce = "nonce-1";
  expiry = pos 200;
  estimated_fee = "0.25";
  maximum_fee = "0.3";
  failure_charge = "0.1";
  signature = "signature";
  signature_valid = true;
}

abbrev expected : Expected
expected = record { account = some "0xabc"; operation_id = some "op-1"; amount = some "10" }

offered :
    fee_readiness_plan host "0.00" expected capability (some quote) (pos 100)
    ≡ verified_operation_bound_route capability quote "digest"
unfolding program
offered = refl

fee_readiness_plan-Offered_example :
    (capability ≡ capability)
    × (some quote ≡ some quote)
    × Offered host "0.00" expected capability (pos 100) quote "digest"
fee_readiness_plan-Offered_example =
    fee_readiness_plan-Offered host "0.00" expected capability (some quote) (pos 100) offered

abbrev calls : List LedgerCall
calls = reimburse "op-1" ∷ charge "op-1" ∷ reimburse "op-1" ∷ charge "op-1" ∷ reimburse "op-1" ∷ []

run :
    (times_charged host "op-1" calls empty_ledger ≡ 1)
    × (times_reimbursed host "op-1" calls empty_ledger ≡ 1)
unfolding program
run = (refl, refl)

charged_and_reimbursed_at_most_once_example :
    (times_charged host "op-1" calls empty_ledger ≤ 1)
    × (times_reimbursed host "op-1" calls empty_ledger
        ≤ times_charged host "op-1" calls empty_ledger)
charged_and_reimbursed_at_most_once_example = charged_and_reimbursed_at_most_once host "op-1" calls
