-- ===== src/Domain/Quote.antt =====
-- `CanonicalQuote` of shared/domain.py. Whether the signature verifies is a field, as in the source.
use cryptogpt_one_intent_wal.Base.{
  String, Bool, not, ◌&&◌, some, [], ◌∷◌, str_eq, Result, ok, ◌>>=◌, ◌>>◌, guard, ◌||◌,
}
use cryptogpt_one_intent_wal.Base.Int.{ℤ, pos, leb_ℤ, ltb_ℤ}
use cryptogpt_one_intent_wal.Canonical.Value.{Value, Fields, bool, int, str, obj, end, field}
use cryptogpt_one_intent_wal.Canonical.Checks.{Host}
use cryptogpt_one_intent_wal.Canonical.Decimal.{is_zero}
use cryptogpt_one_intent_wal.Canonical.Bytes.{canonical_hash}
use cryptogpt_one_intent_wal.Domain.Checks.{
  Error, domain_error, raise_through, bounded_text, strict_int, strict_bool, decimal_field,
  max_text_field, max_signature_field,
}
use cryptogpt_one_intent_wal.Domain.Capsule.{all_bounded}

pub record CanonicalQuote : Type 0 where
  pub quote_id : String
  pub provider_id : String
  pub route_id : String
  pub network : String
  pub asset_id : String
  pub account : String
  pub amount : String
  pub max_fee : String
  pub fee_asset : String
  pub settlement_target : String
  pub generated_at : ℤ
  pub expires_at : ℤ
  pub execution_capsule_hash : String
  pub final_payload_commitment : String
  pub signature : String
  pub signature_valid : Bool
  pub provider_revoked : Bool

-- the fields before and after the hash of the capsule
abbrev payload_with : CanonicalQuote → (Fields → Fields) → Value
payload_with q capsule_field = obj (
    field "quoteId" (str q.quote_id) (
      field "providerId" (str q.provider_id) (
        field "routeId" (str q.route_id) (
          field "network" (str q.network) (
            field "assetId" (str q.asset_id) (
              field "account" (str q.account) (
                field "amount" (str q.amount) (
                  field "maxFee" (str q.max_fee) (
                    field "feeAsset" (str q.fee_asset) (
                      field "settlementTarget" (str q.settlement_target) (
                        field "generatedAt" (int q.generated_at) (
                          field "expiresAt" (int q.expires_at) (
                            capsule_field (
                              field "finalPayloadCommitment" (str q.final_payload_commitment)
                                end))))))))))))))

-- `CanonicalQuote.payload`
abbrev pub quote_payload : CanonicalQuote → Value
quote_payload q =
    payload_with q (λ rest. field "executionCapsuleHash" (str q.execution_capsule_hash) rest)

-- the payload without the hash of the capsule
abbrev pub binding_payload : CanonicalQuote → Value
binding_payload q = payload_with q (λ rest. rest)

module _ (host : Host) where
  -- the property `digest`
  unfoldable pub quote_digest : CanonicalQuote → Result Error String
  quote_digest q =
      raise_through (canonical_hash host "canonical-quote-binding-v1" (binding_payload q))

  -- the property `full_digest`
  unfoldable pub full_digest : CanonicalQuote → Result Error String
  full_digest q = raise_through (canonical_hash host "canonical-quote-v1" (quote_payload q))

  -- `CanonicalQuote.verify`; a maximum fee is never negative, since no decimal text is.
  unfoldable pub quote_verify :
      ℤ → String → String → String → String → CanonicalQuote → Result Error (Unit {0})
  quote_verify now network asset_id account amount q = do
    strict_int (int now) (some (pos 0))
    all_bounded host
        (q.quote_id ∷ q.provider_id ∷ q.route_id ∷ q.network ∷ q.asset_id ∷ q.account ∷ q.fee_asset
          ∷ q.settlement_target ∷ q.execution_capsule_hash ∷ q.final_payload_commitment ∷ [])
        512
    bounded_text host (str q.signature) max_signature_field
    generated_at ← strict_int (int q.generated_at) (some (pos 0))
    expires_at ← strict_int (int q.expires_at) (some (pos 0))
    strict_bool (bool q.signature_valid)
    strict_bool (bool q.provider_revoked)
    bounded_text host (str network) max_text_field
    bounded_text host (str asset_id) max_text_field
    bounded_text host (str account) max_text_field
    expected_amount ← decimal_field amount
    quote_amount ← decimal_field q.amount
    max_fee ← decimal_field q.max_fee
    guard (ltb_ℤ generated_at expires_at) domain_error
    guard q.signature_valid domain_error
    guard (not q.provider_revoked) domain_error
    guard (leb_ℤ generated_at now && ltb_ℤ now expires_at) domain_error
    guard
        (str_eq q.network network
          && str_eq q.asset_id asset_id
          && str_eq q.account account
          && str_eq q.amount amount)
        domain_error
    guard (not (is_zero quote_amount || is_zero expected_amount)) domain_error
    full_digest q
    ok tt
