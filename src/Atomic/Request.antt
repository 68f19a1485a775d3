-- ===== src/Atomic/Request.antt =====
-- The decoding and the checks of a signer request, in the order of `validate_and_reserve` of
-- shared/atomic_signer_contract.py, but for its signatures and the journal.
use cryptogpt_one_intent_wal.Base.{
  ℕ, ◌+◌, String, Bool, ◌&&◌, some, List, [], ◌∷◌, leb, ltb, Result, ok, err, ◌>>=◌, ◌>>◌, guard,
  all,
}
use cryptogpt_one_intent_wal.Canonical.Value.{Value, Fields, obj, get}
use cryptogpt_one_intent_wal.Canonical.Checks.{Host}
use cryptogpt_one_intent_wal.Canonical.Bytes.{canonical_hash}
use cryptogpt_one_intent_wal.Canonical.Loads.{JsonHost, strict_loads_bytes}
use cryptogpt_one_intent_wal.Canonical.Address.{canonical_profile_version}
use cryptogpt_one_intent_wal.Atomic.Operation.{TypedOperationSpec}
use cryptogpt_one_intent_wal.Atomic.Trust.{TrustHost, TrustedVerifierKey}
use cryptogpt_one_intent_wal.Atomic.Decode.{
  BoundaryError, contract_error, through, AtomicSignerConfiguration, mapping, integer, text,
  typed_operation,
}
use cryptogpt_one_intent_wal.Atomic.Values.{
  eq_optional, fields_claim_no_trust, is_empty_array, is_text,
}

-- What a signer is made of: what it takes of other libraries (the validator of the pinned JSON
-- schemas and `str.lower` among it), its configuration and its trust store.
pub record Signer : Type 0 where
  pub host : Host
  pub json : JsonHost
  pub trust : TrustHost
  pub lower : String → String
  pub schema_accepts : Fields → Bool
  pub configuration : AtomicSignerConfiguration
  pub keys : List TrustedVerifierKey

-- the times of an envelope
pub record Window : Type 0 where
  pub issued_at : ℕ
  pub not_before : ℕ
  pub expires_at : ℕ

-- `_validate_window`, with each difference moved to the side where it is a sum
unfoldable pub validate_window : Window → ℕ → ℕ → ℕ → Result BoundaryError (Unit {0})
validate_window w now maximum_ttl allowed_skew = do
  guard (ltb w.issued_at w.expires_at && ltb w.not_before w.expires_at) contract_error
  guard (leb w.expires_at (w.issued_at + maximum_ttl)) contract_error
  guard (leb w.issued_at (now + allowed_skew) && leb w.not_before (now + allowed_skew))
      contract_error
  guard (ltb now (w.expires_at + allowed_skew)) contract_error

abbrev object_of {ℓ} : {E : Type ℓ} → Result E Value → Result BoundaryError Fields
object_of (ok (obj fs)) = ok fs
object_of _ = err contract_error

-- the three envelopes of a request, its decoded operation and the digests
pub record Envelopes : Type 0 where
  pub operation : Fields
  pub review : Fields
  pub decision : Fields
  pub typed : TypedOperationSpec
  pub operation_digest : String
  pub review_digest : String
  pub decision_digest : String

module _ (signer : Signer) where
  -- the first part of `validate_and_reserve`, up to the clock
  unfoldable pub decode_request : List ℕ → Result BoundaryError Fields
  decode_request raw = do
    request ← object_of (strict_loads_bytes signer.host signer.json raw)
    mapping signer.host (some (obj request))
    guard (fields_claim_no_trust signer.lower request) contract_error
    guard (signer.schema_accepts request) contract_error
    guard (is_text "2.1" (get "schemaVersion" request)) contract_error
    guard (is_text canonical_profile_version (get "canonicalProfile" request)) contract_error
    ok request

  -- the six digest bindings
  unfoldable pub digests_bind : Fields → Envelopes → Bool
  digests_bind request e =
      is_text e.operation_digest (get "operationSpecDigest" request)
      && is_text e.review_digest (get "reviewReceiptDigest" request)
      && is_text e.decision_digest (get "runtimeDecisionDigest" request)
      && is_text e.operation_digest (get "operationSpecDigest" e.review)
      && is_text e.operation_digest (get "operationSpecDigest" e.decision)
      && is_text e.review_digest (get "reviewReceiptDigest" e.decision)

  -- the subject of each envelope is the operation's account
  unfoldable pub subjects_agree : Fields → Envelopes → String → Bool
  subjects_agree request e account =
      all (λ envelope. is_text account (get "subject" envelope))
        (request ∷ e.review ∷ e.decision ∷ [])

  -- what the user reviewed is what the operation says
  unfoldable pub review_covers : Envelopes → Bool
  review_covers e =
      all
        (λ (names : String × String).
          eq_optional (get (names.0) e.review) (get (names.1) e.operation))
        (("displayDigest", "displayManifestDigest")
          ∷ ("quoteDigest", "quoteDigest")
          ∷ ("sourceStateDigest", "sourceStateDigest")
          ∷ ("finalPayloadDigest", "payloadCommitment")
          ∷ [])

  abbrev in_context : Fields → Bool
  in_context envelope =
      is_text signer.configuration.expected_audience (get "audience" envelope)
      && is_text signer.configuration.expected_environment (get "environment" envelope)
      && is_text signer.configuration.expected_deployment (get "deployment" envelope)

  -- the context of all three envelopes, and the release and policy of the decision
  unfoldable pub context_agrees : Fields → Envelopes → Bool
  context_agrees request e =
      all in_context (request ∷ e.review ∷ e.decision ∷ [])
      && is_text signer.configuration.expected_release_subject_digest
          (get "releaseSubjectDigest" e.decision)
      && is_text signer.configuration.expected_policy_bundle_digest
          (get "policyBundleDigest" e.decision)

  -- `_mapping` of the three parts, `_typed_operation` and the three digests
  unfoldable pub read_envelopes : Fields → Result BoundaryError Envelopes
  read_envelopes request = do
    operation ← mapping signer.host (get "operationSpec" request)
    review ← mapping signer.host (get "reviewReceipt" request)
    decision ← mapping signer.host (get "runtimeDecision" request)
    typed ← typed_operation signer.host signer.configuration operation
    operation_digest ← through (canonical_hash signer.host "operation-spec-v2" (obj operation))
    review_digest ← through (canonical_hash signer.host "user-review-receipt-v2" (obj review))
    decision_digest ←
        through (canonical_hash signer.host "runtime-decision-envelope-v2" (obj decision))
    ok (record {
      operation = operation;
      review = review;
      decision = decision;
      typed = typed;
      operation_digest = operation_digest;
      review_digest = review_digest;
      decision_digest = decision_digest;
    })

  -- the guards on the bindings, subjects, review and context
  unfoldable pub check_bindings : Fields → Envelopes → Result BoundaryError (Unit {0})
  check_bindings request e = do
    guard (digests_bind request e) contract_error
    account ← text signer.host (get "account" e.operation)
    guard (subjects_agree request e account) contract_error
    guard (review_covers e) contract_error
    guard (context_agrees request e) contract_error

  unfoldable pub window_of : String → Fields → Result BoundaryError Window
  window_of issued_key envelope = do
    issued_at ← integer signer.host (get issued_key envelope)
    not_before ← integer signer.host (get "notBefore" envelope)
    expires_at ← integer signer.host (get "expiresAt" envelope)
    ok (record { issued_at = issued_at; not_before = not_before; expires_at = expires_at })

  -- the times of the request and its parts, against the signer's clock
  unfoldable pub check_times : ℕ → Fields → Envelopes → Result BoundaryError (Unit {0})
  check_times now request e = do
    asked ← window_of "requestedAt" request
    reviewed ← window_of "reviewedAt" e.review
    decided ← window_of "issuedAt" e.decision
    evaluated_at ← integer signer.host (get "evaluatedAt" e.decision)
    validate_window asked now signer.configuration.maximum_request_ttl_seconds
        signer.configuration.allowed_clock_skew_seconds
    validate_window reviewed now signer.configuration.maximum_review_ttl_seconds
        signer.configuration.allowed_clock_skew_seconds
    guard (leb decided.issued_at decided.not_before && leb decided.not_before evaluated_at)
        contract_error
    validate_window decided now signer.configuration.maximum_decision_ttl_seconds
        signer.configuration.allowed_clock_skew_seconds
    guard
        (leb e.typed.expires_at
          (asked.issued_at + signer.configuration.maximum_operation_ttl_seconds))
        contract_error
    guard
        (leb asked.expires_at e.typed.expires_at
          && leb asked.expires_at reviewed.expires_at
          && leb asked.expires_at decided.expires_at)
        contract_error

  -- the runtime decision is eligible, without blocking reasons
  unfoldable pub is_eligible : Envelopes → Bool
  is_eligible e =
      is_text "ELIGIBLE_FOR_ATOMIC_SIGNER_FINALIZATION" (get "status" e.decision)
      && is_empty_array (get "blockingReasons" e.decision)
