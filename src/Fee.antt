-- ===== src/Fee.antt =====
-- adapters/fee_route/fee.py: when an account without native balance may be told to use a fee route, and
-- the ledger of charges and reimbursements. A field has the type that its class declares, so the tests
-- of runtime types pass and are left out.
pub mod Route
pub mod Once
mod Tests
use cryptogpt_one_intent_wal.Base.{
  String, Bool, true, false, not, ◌&&◌, ◌||◌, Option, none, some, List, [], ◌∷◌, leb, ◌==◌, str_eq,
  if◌then◌else◌, Result, ok, err, ◌>>=◌, ◌>>◌, guard, length, any, all, ℕ,
}
use cryptogpt_one_intent_wal.Base.Int.{ℤ, pos, leb_ℤ, ltb_ℤ, eq_ℤ}
use cryptogpt_one_intent_wal.Base.Text.{codes, is_prefix}
use cryptogpt_one_intent_wal.Canonical.Value.{Value, int, str, obj, end, field}
use cryptogpt_one_intent_wal.Canonical.Checks.{Host, CanonicalError, ensure_nfc, max_safe_integer}
use cryptogpt_one_intent_wal.Canonical.Decimal.{
  Decimal, DecimalError, decimal_string, is_zero, leb_decimal,
}
use cryptogpt_one_intent_wal.Canonical.Bytes.{canonical_hash}
use cryptogpt_one_intent_wal.Domain.Checks.{is_control}
use cryptogpt_one_intent_wal.Domain.Store.{contains, add}

pub record FeeRouteCapability : Type 0 where
  pub account_model : String
  pub network : String
  pub token_asset_id : String
  pub provider_id : String
  pub terms_url : String
  pub support_route : String
  pub jurisdiction : String
  pub settlement_target : String
  pub supports_zero_native_balance : Bool
  pub evidence_status : String
  pub evidence_expires_at : ℤ
  pub revoked : Bool
  pub reviewed : Bool
  pub permit_bootstrap_without_gas : Bool
  pub failure_charge_cap : String
  pub rate_limit_status : String
  pub liquidity_status : String

pub record OperationBoundQuote : Type 0 where
  pub quote_id : String
  pub capability : FeeRouteCapability
  pub account : String
  pub operation_id : String
  pub amount : String
  pub nonce : String
  pub expiry : ℤ
  pub estimated_fee : String
  pub maximum_fee : String
  pub failure_charge : String
  pub signature : String
  pub signature_valid : Bool

abbrev same_flag : Bool → Bool → Bool
same_flag true b = b
same_flag false b = not b

-- `==` of two capabilities, field by field
unfoldable pub same_capability : FeeRouteCapability → FeeRouteCapability → Bool
same_capability a b =
    str_eq a.account_model b.account_model
    && str_eq a.network b.network
    && str_eq a.token_asset_id b.token_asset_id
    && str_eq a.provider_id b.provider_id
    && str_eq a.terms_url b.terms_url
    && str_eq a.support_route b.support_route
    && str_eq a.jurisdiction b.jurisdiction
    && str_eq a.settlement_target b.settlement_target
    && same_flag a.supports_zero_native_balance b.supports_zero_native_balance
    && str_eq a.evidence_status b.evidence_status
    && eq_ℤ a.evidence_expires_at b.evidence_expires_at
    && same_flag a.revoked b.revoked
    && same_flag a.reviewed b.reviewed
    && same_flag a.permit_bootstrap_without_gas b.permit_bootstrap_without_gas
    && str_eq a.failure_charge_cap b.failure_charge_cap
    && str_eq a.rate_limit_status b.rate_limit_status
    && str_eq a.liquidity_status b.liquidity_status

-- `_strict_time`
unfoldable pub is_time : ℤ → Bool
is_time t = leb_ℤ (pos 0) t && leb_ℤ t (pos max_safe_integer)

module _ (host : Host) where
  abbrev is_canonical : String → Bool
  is_canonical s = elim (ensure_nfc host (str s)) [ ok v ↦ true | err e ↦ false ]

  -- `_text`
  unfoldable pub is_text : ℕ → String → Bool
  is_text maximum s =
      not (length (codes s) == 0)
      && leb (length (codes s)) maximum
      && is_canonical s
      && not (any is_control (codes s))

  -- the property `digest`
  unfoldable pub quote_digest : OperationBoundQuote → Result CanonicalError String
  quote_digest q = canonical_hash host "fee-route-quote-v1" (
      obj (
        field "quoteId" (str q.quote_id) (
          field "providerId" (str q.capability.provider_id) (
            field "network" (str q.capability.network) (
              field "tokenAssetId" (str q.capability.token_asset_id) (
                field "account" (str q.account) (
                  field "operationId" (str q.operation_id) (
                    field "amount" (str q.amount) (
                      field "nonce" (str q.nonce) (
                        field "expiry" (int q.expiry) (
                          field "estimatedFee" (str q.estimated_fee) (
                            field "maximumFee" (str q.maximum_fee) (
                              field "failureCharge" (str q.failure_charge) (
                                field "settlementTarget" (str q.capability.settlement_target)
                                  end))))))))))))))

  -- the tests of `zero_native_balance_eligible` on the evidence
  unfoldable pub evidence_is_current : FeeRouteCapability → ℤ → Bool
  evidence_is_current c now =
      (is_time c.evidence_expires_at && ltb_ℤ now c.evidence_expires_at)
      && c.supports_zero_native_balance
      && (str_eq c.evidence_status "VERIFIED" && not c.revoked && c.reviewed)

  -- its tests on the texts of the capability
  unfoldable pub capability_texts : FeeRouteCapability → Bool
  capability_texts c =
      all (is_text 512) (
        c.account_model ∷ c.network ∷ c.token_asset_id ∷ c.provider_id ∷ c.terms_url
        ∷ c.support_route ∷ c.jurisdiction ∷ c.settlement_target ∷ c.evidence_status
        ∷ c.rate_limit_status ∷ c.liquidity_status ∷ [])
      && contains c.account_model ("EOA" ∷ "ERC4337" ∷ "SPONSORED" ∷ "RELAYER" ∷ [])
      && is_prefix (codes "https://") (codes c.terms_url)

  -- all its tests on the capability
  unfoldable pub capability_is_live : FeeRouteCapability → ℤ → Bool
  capability_is_live c now =
      capability_texts c
      && evidence_is_current c now
      && (str_eq c.rate_limit_status "HEALTHY" && str_eq c.liquidity_status "HEALTHY")
      && c.permit_bootstrap_without_gas

  -- the tests on the quote before its numbers
  unfoldable pub quote_is_live : FeeRouteCapability → OperationBoundQuote → ℤ → Bool
  quote_is_live c q now =
      same_capability q.capability c
      && (is_time q.expiry && ltb_ℤ now q.expiry)
      && all (is_text 512) (q.quote_id ∷ q.account ∷ q.operation_id ∷ q.nonce ∷ [])
      && (is_text 4096 q.signature && q.signature_valid)

  abbrev parses : {E : Type 0} → Result E Decimal → (Decimal → Bool) → Bool
  parses (ok d) test = test d
  parses (err e) test = false

  abbrev has_digest : OperationBoundQuote → Bool
  has_digest q = elim (quote_digest q) [ ok d ↦ true | err e ↦ false ]

  -- the numbers of the quote; no decimal text is negative
  unfoldable pub fees_are_bounded : FeeRouteCapability → OperationBoundQuote → Bool
  fees_are_bounded c q = parses (decimal_string q.amount none) (λ amount.
      parses (decimal_string q.estimated_fee none) (λ estimated_fee.
        parses (decimal_string q.maximum_fee none) (λ maximum_fee.
          parses (decimal_string q.failure_charge none) (λ failure_charge.
            parses (decimal_string c.failure_charge_cap none) (λ cap.
              not (is_zero amount)
              && leb_decimal estimated_fee maximum_fee
              && leb_decimal failure_charge cap)))))

  unfoldable pub zero_native_balance_eligible :
      FeeRouteCapability → Option OperationBoundQuote → ℤ → Bool
  zero_native_balance_eligible c none now = false
  zero_native_balance_eligible c (some q) now =
      is_time now
      && capability_is_live c now
      && quote_is_live c q now
      && fees_are_bounded c q
      && has_digest q

-- the answers of `fee_readiness_plan`; of the last, the dictionary names the provider and the target of
-- the capability, and the id, fees and expiry of the quote, beside the digest
pub data Plan : Type 0 where
  manual_fallback : (reason_code : String) → Plan
  no_top_up : Plan
  verified_operation_bound_route :
      (capability : FeeRouteCapability) (quote : OperationBoundQuote) (quote_digest : String) → Plan

-- the optional arguments of `fee_readiness_plan`
pub record Expected : Type 0 where
  pub account : Option String
  pub operation_id : Option String
  pub amount : Option String

module _ (host : Host) where
  abbrev given_text : Option String → Bool
  given_text none = false
  given_text (some s) = is_text host 512 s

  abbrev is_decimal : Option String → Bool
  is_decimal none = false
  is_decimal (some s) = elim (decimal_string s none) [ ok d ↦ true | err e ↦ false ]

  abbrev equals : String → Option String → Bool
  equals s none = false
  equals s (some t) = str_eq s t

  abbrev pub is_bound : Expected → Option OperationBoundQuote → Bool
  is_bound e none = false
  is_bound e (some q) =
      equals q.account e.account && equals q.operation_id e.operation_id && equals q.amount e.amount

  abbrev route : FeeRouteCapability → OperationBoundQuote → Result CanonicalError String → Plan
  route c q (ok digest) = verified_operation_bound_route c q digest
  route c q (err e) = manual_fallback "FEE_ROUTE_UNVERIFIED"

  unfoldable pub plan_without_balance :
      Expected → FeeRouteCapability → Option OperationBoundQuote → ℤ → Plan
  plan_without_balance e c none now = manual_fallback "FEE_ROUTE_UNVERIFIED"
  plan_without_balance e c (some q) now =
      if given_text e.account
        && given_text e.operation_id
        && is_decimal e.amount
        && is_bound e (some q)
        && zero_native_balance_eligible host c (some q) now
      then route c q (quote_digest host q)
      else manual_fallback "FEE_ROUTE_UNVERIFIED"

  unfoldable pub plan_for :
      Result DecimalError Decimal
      → Expected
      → FeeRouteCapability
      → Option OperationBoundQuote
      → ℤ
      → Plan
  plan_for (err x) e c q now = manual_fallback "INVALID_NATIVE_BALANCE"
  plan_for (ok balance) e c q now =
      if not (is_zero balance) then no_top_up else plan_without_balance e c q now

  unfoldable pub fee_readiness_plan :
      String → Expected → FeeRouteCapability → Option OperationBoundQuote → ℤ → Plan
  fee_readiness_plan native_balance e c q now =
      if not (is_time now)
      then manual_fallback "INVALID_EVALUATION_TIME"
      else plan_for (decimal_string native_balance none) e c q now

pub data FeeError : Type 0 where
  value_error : FeeError

pub record ReimbursementLedger : Type 0 where
  pub charged_operations : List String
  pub reimbursed_operations : List String

module _ (host : Host) where
  -- `__post_init__`
  unfoldable pub new_ledger : List String → List String → Result FeeError ReimbursementLedger
  new_ledger charged reimbursed = do
    guard (all (is_text host 512) charged && all (is_text host 512) reimbursed) value_error
    guard (all (λ s. contains s charged) reimbursed) value_error
    ok (record { charged_operations = charged; reimbursed_operations = reimbursed })

  unfoldable pub charge_once :
      String → ReimbursementLedger → Result FeeError Bool × ReimbursementLedger
  charge_once operation_id ledger =
      if not (is_text host 512 operation_id)
      then (err value_error, ledger)
      else if contains operation_id ledger.charged_operations
      then (ok false, ledger)
      else (
        ok true,
        record ledger { charged_operations = add operation_id ledger.charged_operations },
      )

  unfoldable pub reimburse_once :
      String → ReimbursementLedger → Result FeeError Bool × ReimbursementLedger
  reimburse_once operation_id ledger =
      if not (is_text host 512 operation_id)
      then (err value_error, ledger)
      else if not (contains operation_id ledger.charged_operations)
          || contains operation_id ledger.reimbursed_operations
      then (ok false, ledger)
      else (
        ok true,
        record ledger { reimbursed_operations = add operation_id ledger.reimbursed_operations },
      )
