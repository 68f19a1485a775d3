-- ===== src/Domain/Capsule.antt =====
-- `ExecutionCapsule` and `AuthorizationEnvelope` of shared/domain.py. A field has the type that the
-- class declares, so a test of a field's runtime type passes; it stands where the source has it.
use cryptogpt_one_intent_wal.Base.{
  ℕ, String, Bool, true, false, not, ◌&&◌, Option, none, some, List, [], ◌∷◌, leb, str_eq, Result,
  ok, ◌>>=◌, ◌>>◌, guard, length, any,
}
use cryptogpt_one_intent_wal.Base.Int.{ℤ, pos, ltb_ℤ, leb_ℤ, ◌-ℤ◌}
use cryptogpt_one_intent_wal.Canonical.Value.{
  Value, Items, Fields, null, int, str, arr, obj, nil, cons, end, field, get,
}
use cryptogpt_one_intent_wal.Canonical.Checks.{Host}
use cryptogpt_one_intent_wal.Canonical.Decimal.{is_zero}
use cryptogpt_one_intent_wal.Canonical.Bytes.{canonical_bytes, canonical_hash}
use cryptogpt_one_intent_wal.Domain.Checks.{
  Error, domain_error, raise_through, bounded_text, strict_int, mapping, decimal_field,
  max_text_field, max_signature_field, max_final_payload_fields,
}

pub record ExecutionCapsule : Type 0 where
  pub operation_type : String
  pub account : String
  pub device_id : String
  pub intent_commitment : String
  pub network : String
  pub asset_id : String
  pub amount : String
  pub recipient : Option String
  pub ordered_actions : List String
  pub registry_digest : String
  pub quote_id : String
  pub quote_digest : String
  pub final_payload : Fields
  pub expires_at : ℤ

abbrev pub texts : List String → Items
texts [] = nil
texts (s ∷ ss) = cons (str s) (texts ss)

abbrev pub optional_text : Option String → Value
optional_text none = null
optional_text (some s) = str s

-- the property `material`
abbrev pub capsule_material : ExecutionCapsule → Value
capsule_material c = obj (
    field "operationType" (str c.operation_type) (
      field "account" (str c.account) (
        field "deviceId" (str c.device_id) (
          field "intentCommitment" (str c.intent_commitment) (
            field "network" (str c.network) (
              field "assetId" (str c.asset_id) (
                field "amount" (str c.amount) (
                  field "recipient" (optional_text c.recipient) (
                    field "orderedActions" (arr (texts c.ordered_actions)) (
                      field "registryDigest" (str c.registry_digest) (
                        field "quoteId" (str c.quote_id) (
                          field "quoteDigest" (str c.quote_digest) (
                            field "finalPayload" (obj c.final_payload)
                              (field "expiresAt" (int c.expires_at) end))))))))))))))

module _ (host : Host) where
  -- the property `hash`
  unfoldable pub capsule_hash : ExecutionCapsule → Result Error String
  capsule_hash c = raise_through (canonical_hash host "execution-capsule-v1" (capsule_material c))

  -- the loops over fields: each is a bounded text
  unfoldable pub all_bounded : List String → ℕ → Result Error (Unit {0})
  all_bounded [] maximum = ok tt
  all_bounded (s ∷ ss) maximum = bounded_text host (str s) maximum >>= λ _. all_bounded ss maximum

  unfoldable pub recipient_is_bounded : Option String → Result Error (Unit {0})
  recipient_is_bounded none = ok tt
  recipient_is_bounded (some r) = bounded_text host (str r) 512 >>= λ _. ok tt

-- `len(set(actions)) == len(actions)`
abbrev pub no_duplicates : List String → Bool
no_duplicates [] = true
no_duplicates (s ∷ ss) = not (any (str_eq s) ss) && no_duplicates ss

-- the amount in the payload, if there is one, is that of the capsule
abbrev pub payload_amount_agrees : Option Value → String → Bool
payload_amount_agrees none amount = true
payload_amount_agrees (some null) amount = true
payload_amount_agrees (some (str s)) amount = str_eq s amount
payload_amount_agrees (some _) amount = false

module _ (host : Host) where
  unfoldable pub capsule_validate : ℤ → ExecutionCapsule → Result Error (Unit {0})
  capsule_validate now c = do
    strict_int (int now) (some (pos 0))
    all_bounded host
        (c.operation_type ∷ c.account ∷ c.device_id ∷ c.intent_commitment ∷ c.network ∷ c.asset_id
          ∷ c.registry_digest ∷ c.quote_id ∷ c.quote_digest ∷ [])
        max_text_field
    amount ← decimal_field c.amount
    guard (not (is_zero amount)) domain_error
    recipient_is_bounded host c.recipient
    guard (leb 1 (length c.ordered_actions) && leb (length c.ordered_actions) 32) domain_error
    all_bounded host c.ordered_actions 128
    guard (no_duplicates c.ordered_actions) domain_error
    payload ← mapping host (obj c.final_payload) max_final_payload_fields
    expiry ← strict_int (int c.expires_at) (some (pos 0))
    guard (ltb_ℤ now expiry) domain_error
    guard (payload_amount_agrees (get "amount" payload) c.amount) domain_error
    raise_through (canonical_bytes host (capsule_material c))
    ok tt

pub record AuthorizationEnvelope : Type 0 where
  pub authorization_id : String
  pub device_id : String
  pub account : String
  pub capsule_hash : String
  pub operation_type : String
  pub issued_at : ℤ
  pub expires_at : ℤ
  pub nonce : String
  pub user_review_digest : String
  pub proof_of_possession : String

abbrev pub proof_material : AuthorizationEnvelope → Value
proof_material a = obj (
    field "authorizationId" (str a.authorization_id) (
      field "deviceId" (str a.device_id) (
        field "account" (str a.account)
          (field "capsuleHash" (str a.capsule_hash) (field "nonce" (str a.nonce) end)))))

-- the validity interval: current, and at most 120 seconds long
abbrev pub is_current : ℤ → ℤ → ℤ → Bool
is_current now issued_at expires_at =
    leb_ℤ issued_at now
    && ltb_ℤ now expires_at
    && ltb_ℤ (pos 0) (expires_at -ℤ issued_at)
    && leb_ℤ (expires_at -ℤ issued_at) (pos 120)

module _ (host : Host) where
  unfoldable pub expected_proof_of_possession : AuthorizationEnvelope → Result Error String
  expected_proof_of_possession a =
      raise_through (canonical_hash host "dpop-proof-v1" (proof_material a))

  -- `AuthorizationEnvelope.validate`
  unfoldable pub authorization_validate :
      ℤ → ExecutionCapsule → AuthorizationEnvelope → Result Error (Unit {0})
  authorization_validate now capsule a = do
    strict_int (int now) (some (pos 0))
    capsule_validate host now capsule
    all_bounded host
        (a.authorization_id ∷ a.device_id ∷ a.account ∷ a.capsule_hash ∷ a.operation_type ∷ a.nonce
          ∷ a.user_review_digest ∷ [])
        max_text_field
    bounded_text host (str a.proof_of_possession) max_signature_field
    issued_at ← strict_int (int a.issued_at) (some (pos 0))
    expires_at ← strict_int (int a.expires_at) (some (pos 0))
    guard (is_current now issued_at expires_at) domain_error
    guard (leb_ℤ expires_at capsule.expires_at) domain_error
    guard (str_eq a.device_id capsule.device_id && str_eq a.account capsule.account) domain_error
    hash ← capsule_hash host capsule
    guard (str_eq a.capsule_hash hash && str_eq a.operation_type capsule.operation_type)
        domain_error
    proof ← expected_proof_of_possession a
    guard (str_eq a.proof_of_possession proof) domain_error
    ok tt
