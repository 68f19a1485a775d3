-- ===== src/Atomic/Boundary/Tests.antt =====
-- A request that the boundary accepts, and the theorems at it. The libraries are stand-ins: every text
-- is in NFC, every digest is one text, every signature verifies, and the parser returns the request.
use mathlib.Core.List.{flat_map}
use cryptogpt_one_intent_wal.Base.{
  ℕ, zero, suc, ◌+◌, ◌≤◌, ◌<◌, ◌≡◌, ◌≢◌, refl, String, Bool, true, false, Option, some, none, List,
  [], ◌∷◌, ◌++◌, ok, err, Result, length, if◌then◌else◌,
}
use cryptogpt_one_intent_wal.Base.Hex.{hex}
use cryptogpt_one_intent_wal.Base.Int.{pos}
use cryptogpt_one_intent_wal.Base.Text.{codes, is_digest}
use cryptogpt_one_intent_wal.Canonical.Value.{Value, Fields, null, int, get}
use cryptogpt_one_intent_wal.Canonical.Checks.{
  Host, validate_string, is_default_ignorable, visit, ensure_nfc,
}
use cryptogpt_one_intent_wal.Canonical.Bytes.{
  ordered, dumps, canonical_bytes, canonical_hash, leb_units,
}
use cryptogpt_one_intent_wal.Canonical.Loads.{
  Json, JsonHost, json_int, json_str, json_arr, json_obj, no_items, item, no_pairs, pair, parse_int,
  with_hooks, strict_loads, check_bytes, strict_loads_bytes, eq_bytes,
}
use cryptogpt_one_intent_wal.Canonical.Address.{canonical_network_address}
use cryptogpt_one_intent_wal.Canonical.RoundTrip.{hex_codes, network_address_round_trip}
use cryptogpt_one_intent_wal.Atomic.Journal.{
  empty_journal, authorization_reserved, reserve, bind_integer, assert_clock, record_reservation,
  insert_operation, insert_claims, insert_claim, insert_event, check_claims,
}
use cryptogpt_one_intent_wal.Atomic.Operation.{OperationType, OperationAction, cancel_details}
use cryptogpt_one_intent_wal.Atomic.Journal.Replay.{empty_journal-IsValid}
use cryptogpt_one_intent_wal.Atomic.Trust.{
  TrustHost, TrustedVerifierKey, VerifyCall, human_review, runtime_policy, orchestration,
  key_is_valid, register, new_store, domain_allowed, in_window, scope_allows,
  decode_unpadded_base64url, key_verifies, verify,
}
use cryptogpt_one_intent_wal.Atomic.Trust.Roles.{VerifiedBy, distinct_roles_need_distinct_keys}
use cryptogpt_one_intent_wal.Atomic.Decode.{
  AtomicSignerConfiguration, rule_is_valid, configuration_is_valid, mapping, integer, text,
  asset_rule, nonnegative_decimal, positive_decimal, typed_details, typed_operation,
}
use cryptogpt_one_intent_wal.Atomic.Values.{claims_no_trust, eq_value, signed_material}
use cryptogpt_one_intent_wal.Atomic.Request.{
  Signer, Envelopes, validate_window, decode_request, digests_bind, subjects_agree, review_covers,
  context_agrees, read_envelopes, check_bindings, window_of, check_times, is_eligible,
}
use cryptogpt_one_intent_wal.Atomic.Boundary.{
  Boundary, VerifiedAtomicSignerRequest, envelope_call, verify_envelope_signature, check_signatures,
  verified_of, verify_request, read_clock, verify_and_reserve, after_clock, validate_and_reserve,
  natural,
}
use cryptogpt_one_intent_wal.Atomic.Boundary.Once.{here, accepted_bytes_are_spent}
use cryptogpt_one_intent_wal.Atomic.Boundary.Time.{accepted_requests_are_timely}
use cryptogpt_one_intent_wal.Atomic.Boundary.Keys.{ThreeSigners, three_keys_sign_a_request}

program : Unit {0}
unfolding validate_string is_default_ignorable visit ensure_nfc ordered dumps canonical_bytes
    canonical_hash leb_units hex flat_map is_digest parse_int with_hooks strict_loads check_bytes
    strict_loads_bytes canonical_network_address key_is_valid register new_store domain_allowed
    in_window scope_allows decode_unpadded_base64url key_verifies verify rule_is_valid
    configuration_is_valid mapping integer text asset_rule nonnegative_decimal positive_decimal
    typed_details typed_operation claims_no_trust eq_value signed_material validate_window
    decode_request digests_bind subjects_agree review_covers context_agrees read_envelopes
    check_bindings window_of check_times is_eligible envelope_call verify_envelope_signature
    check_signatures verified_of verify_request read_clock verify_and_reserve after_clock
    validate_and_reserve reserve bind_integer assert_clock record_reservation insert_operation
    insert_claims insert_claim insert_event check_claims
program = tt

abbrev repeat : ℕ → ℕ → List ℕ
repeat zero c = []
repeat (suc n) c = c ∷ repeat n c

abbrev digest : String
digest = "0000000000000000000000000000000000000000000000000000000000000000"

abbrev host : Host
host = record { is_nfc = λ _. true; sha256 = λ _. digest }

abbrev operation : Json
operation =
    (json_obj (
      pair "operationType" (json_str "CANCEL") (
        pair "orderedActions" (json_arr (item (json_str "CANCEL") no_items)) (
          pair "network" (json_str "hyperliquid:testnet") (
            pair "account" (json_str "0x0000000000000000000000000000000000000001") (
              pair "assetId" (json_str "USDC") (
                pair "operationDetails"
                  (json_obj (
                    pair "targetOperationId" (json_str "op-0")
                      (pair "marketId" (json_str "BTC") no_pairs)))
                  (pair "operationId" (json_str "op-1") (
                    pair "payloadCommitment"
                      (json_str "0000000000000000000000000000000000000000000000000000000000000000")
                      (pair "expiresAt" (json_int (codes "160")) (
                        pair "displayManifestDigest"
                          (json_str
                            "0000000000000000000000000000000000000000000000000000000000000000")
                          (pair "quoteDigest"
                            (json_str
                              "0000000000000000000000000000000000000000000000000000000000000000")
                            (pair "sourceStateDigest"
                              (json_str
                                "0000000000000000000000000000000000000000000000000000000000000000")
                              no_pairs)))))))))))))

abbrev review : Json
review =
    (json_obj (
      pair "audience" (json_str "signer") (
        pair "environment" (json_str "TESTNET") (
          pair "deployment" (json_str "main") (
            pair "subject" (json_str "0x0000000000000000000000000000000000000001") (
              pair "issuer" (json_str "human") (
                pair "keyId" (json_str "key-1") (
                  pair "signatureAlgorithm" (json_str "Ed25519") (
                    pair "signature" (json_str "sig") (
                      pair "canonicalDigest"
                        (json_str
                          "0000000000000000000000000000000000000000000000000000000000000000")
                        (pair "revocationEpoch" (json_int (codes "1")) (
                          pair "operationSpecDigest"
                            (json_str
                              "0000000000000000000000000000000000000000000000000000000000000000")
                            (pair "displayDigest"
                              (json_str
                                "0000000000000000000000000000000000000000000000000000000000000000")
                              (pair "quoteDigest"
                                (json_str
                                  "0000000000000000000000000000000000000000000000000000000000000000")
                                (pair "sourceStateDigest"
                                  (json_str
                                    "0000000000000000000000000000000000000000000000000000000000000000")
                                  (pair "finalPayloadDigest"
                                    (json_str
                                      "0000000000000000000000000000000000000000000000000000000000000000")
                                    (pair "reviewedAt" (json_int (codes "90")) (
                                      pair "notBefore" (json_int (codes "90")) (
                                        pair "expiresAt" (json_int (codes "160"))
                                          no_pairs)))))))))))))))))))

abbrev decision : Json
decision =
    (json_obj (
      pair "audience" (json_str "signer") (
        pair "environment" (json_str "TESTNET") (
          pair "deployment" (json_str "main") (
            pair "subject" (json_str "0x0000000000000000000000000000000000000001") (
              pair "issuer" (json_str "policy") (
                pair "keyId" (json_str "key-1") (
                  pair "signatureAlgorithm" (json_str "Ed25519") (
                    pair "signature" (json_str "sig") (
                      pair "canonicalDigest"
                        (json_str
                          "0000000000000000000000000000000000000000000000000000000000000000")
                        (pair "revocationEpoch" (json_int (codes "1")) (
                          pair "operationSpecDigest"
                            (json_str
                              "0000000000000000000000000000000000000000000000000000000000000000")
                            (pair "reviewReceiptDigest"
                              (json_str
                                "0000000000000000000000000000000000000000000000000000000000000000")
                              (pair "releaseSubjectDigest"
                                (json_str
                                  "0000000000000000000000000000000000000000000000000000000000000000")
                                (pair "policyBundleDigest"
                                  (json_str
                                    "0000000000000000000000000000000000000000000000000000000000000000")
                                  (pair "issuedAt" (json_int (codes "90")) (
                                    pair "notBefore" (json_int (codes "90")) (
                                      pair "evaluatedAt" (json_int (codes "95")) (
                                        pair "expiresAt" (json_int (codes "160")) (
                                          pair "status"
                                            (json_str "ELIGIBLE_FOR_ATOMIC_SIGNER_FINALIZATION")
                                            (pair "blockingReasons" (json_arr no_items)
                                              no_pairs)))))))))))))))))))))

abbrev request_json : Json
request_json =
    (json_obj (
      pair "audience" (json_str "signer") (
        pair "environment" (json_str "TESTNET") (
          pair "deployment" (json_str "main") (
            pair "subject" (json_str "0x0000000000000000000000000000000000000001") (
              pair "issuer" (json_str "orchestrator") (
                pair "keyId" (json_str "key-1") (
                  pair "signatureAlgorithm" (json_str "Ed25519") (
                    pair "signature" (json_str "sig") (
                      pair "canonicalDigest"
                        (json_str
                          "0000000000000000000000000000000000000000000000000000000000000000")
                        (pair "revocationEpoch" (json_int (codes "1")) (
                          pair "schemaVersion" (json_str "2.1") (
                            pair "canonicalProfile" (json_str "CGPT-C14N-1") (
                              pair "operationSpec" operation (
                                pair "reviewReceipt" review (
                                  pair "runtimeDecision" decision (
                                    pair "operationSpecDigest"
                                      (json_str
                                        "0000000000000000000000000000000000000000000000000000000000000000")
                                      (pair "reviewReceiptDigest"
                                        (json_str
                                          "0000000000000000000000000000000000000000000000000000000000000000")
                                        (pair "runtimeDecisionDigest"
                                          (json_str
                                            "0000000000000000000000000000000000000000000000000000000000000000")
                                          (pair "requestedAt" (json_int (codes "100")) (
                                            pair "notBefore" (json_int (codes "100")) (
                                              pair "expiresAt" (json_int (codes "150")) (
                                                pair "requestId" (json_str "request-1") (
                                                  pair "authorizationId" (json_str "auth-1") (
                                                    pair "nonce" (json_str "nonce-1")
                                                      no_pairs)))))))))))))))))))))))))

abbrev json : JsonHost
json = record { decode_utf8 = λ _. some ""; parse_json = λ _. some request_json }

abbrev domain_text : List ℕ → Option String
domain_text cs =
    if eq_bytes cs (codes "user-review-receipt-v2")
    then some "user-review-receipt-v2"
    else if eq_bytes cs (codes "runtime-decision-envelope-v2")
    then some "runtime-decision-envelope-v2"
    else some "atomic-signer-request-v2"

abbrev trust : TrustHost
trust = record {
  accepts_key = λ _. true;
  ed25519 = λ _ _ _. true;
  b64decode = λ _. some (repeat 64 0);
  b64encode = λ _. codes "sig";
  decode_utf8 = domain_text;
}

abbrev reviewer : TrustedVerifierKey
reviewer = record {
  issuer = "human";
  key_id = "key-1";
  public_key = repeat 32 1;
  role = human_review;
  allowed_domains = "user-review-receipt-v2" ∷ [];
  allowed_audiences = "signer" ∷ [];
  allowed_environments = "TESTNET" ∷ [];
  allowed_deployments = "main" ∷ [];
  allowed_policy_bundle_digests = [];
  allowed_release_subject_digests = [];
  not_before = pos 0;
  not_after = pos 1000;
  minimum_revocation_epoch = pos 1;
  revoked = false;
  algorithm = "Ed25519";
}

abbrev policy : TrustedVerifierKey
policy = record {
  issuer = "policy";
  key_id = "key-1";
  public_key = repeat 32 2;
  role = runtime_policy;
  allowed_domains = "runtime-decision-envelope-v2" ∷ [];
  allowed_audiences = "signer" ∷ [];
  allowed_environments = "TESTNET" ∷ [];
  allowed_deployments = "main" ∷ [];
  allowed_policy_bundle_digests = digest ∷ [];
  allowed_release_subject_digests = digest ∷ [];
  not_before = pos 0;
  not_after = pos 1000;
  minimum_revocation_epoch = pos 1;
  revoked = false;
  algorithm = "Ed25519";
}

abbrev orchestrator : TrustedVerifierKey
orchestrator = record {
  issuer = "orchestrator";
  key_id = "key-1";
  public_key = repeat 32 3;
  role = orchestration;
  allowed_domains = "atomic-signer-request-v2" ∷ [];
  allowed_audiences = "signer" ∷ [];
  allowed_environments = "TESTNET" ∷ [];
  allowed_deployments = "main" ∷ [];
  allowed_policy_bundle_digests = digest ∷ [];
  allowed_release_subject_digests = digest ∷ [];
  not_before = pos 0;
  not_after = pos 1000;
  minimum_revocation_epoch = pos 1;
  revoked = false;
  algorithm = "Ed25519";
}

abbrev entries : List TrustedVerifierKey
entries = reviewer ∷ policy ∷ orchestrator ∷ []

abbrev configuration : AtomicSignerConfiguration
configuration = record {
  expected_audience = "signer";
  expected_environment = "TESTNET";
  expected_deployment = "main";
  expected_release_subject_digest = digest;
  expected_policy_bundle_digest = digest;
  asset_registry =
      (
        "USDC",
        record {
          asset_id = "USDC";
          decimals = 6;
          allowed_networks = "hyperliquid:testnet" ∷ [];
          token_contract = none;
        },
      )
      ∷ [];
  maximum_request_ttl_seconds = 120;
  maximum_review_ttl_seconds = 300;
  maximum_decision_ttl_seconds = 300;
  maximum_operation_ttl_seconds = 300;
  allowed_clock_skew_seconds = 5;
  maximum_clock_rollback_seconds = 5;
}

abbrev signer : Signer
signer = record {
  host = host;
  json = json;
  trust = trust;
  lower = λ s. s;
  schema_accepts = λ _. true;
  configuration = configuration;
  keys = orchestrator ∷ policy ∷ reviewer ∷ [];
}

abbrev bytes_or_none {κ} : {E : Type κ} → Result E (List ℕ) → List ℕ
bytes_or_none (ok bs) = bs
bytes_or_none (err e) = []

abbrev value_bytes {κ} : {E : Type κ} → Result E Value → List ℕ
value_bytes (ok v) = bytes_or_none (canonical_bytes host v)
value_bytes (err e) = []

abbrev raw : List ℕ
raw = value_bytes (with_hooks request_json)

abbrev boundary : Boundary
boundary = record { journal = empty_journal; last_monotonic_ns = none }

abbrev value_or_null {κ} : {E : Type κ} → Result E Value → Value
value_or_null (ok v) = v
value_or_null (err e) = null

abbrev is_ok {ℓ κ} : {E : Type ℓ} {A : Type κ} → Result E A → Bool
is_ok (ok a) = true
is_ok (err e) = false

decodes : is_ok (decode_request signer raw) ≡ true
unfolding program
decodes = refl

abbrev account_bytes : List ℕ
account_bytes = 0 ∷ 0 ∷ 0 ∷ 0 ∷ 0 ∷ 0 ∷ 0 ∷ 0 ∷ 0 ∷ 0 ∷ 0 ∷ 0 ∷ 0 ∷ 0 ∷ 0 ∷ 0 ∷ 0 ∷ 0 ∷ 0 ∷ 1 ∷ []

abbrev answer : VerifiedAtomicSignerRequest
answer = record {
  verified = record {
    request_id = "request-1";
    authorization_id = "auth-1";
    nonce = "nonce-1";
    operation_spec_digest = digest;
    review_receipt_digest = digest;
    runtime_decision_digest = digest;
    canonical_digest = digest;
    operation = record {
      operation_id = "op-1";
      operation_type = OperationType.cancel;
      account = account_bytes;
      network = "hyperliquid:testnet";
      asset_id = "USDC";
      ordered_actions = OperationAction.cancel ∷ [];
      details = cancel_details "op-0" "BTC";
      payload_commitment = digest;
      expires_at = 160;
    };
  };
  reservation = record {
    operation_id = "op-1";
    operation_sequence = 1;
    fencing_token = 1;
    state = authorization_reserved;
  };
}

returned : (validate_and_reserve signer raw (int (pos 110)) (int (pos 7)) boundary).0 ≡ ok answer
unfolding program
returned = refl

configured : configuration_is_valid host configuration ≡ true
unfolding program
configured = refl

trusted : new_store trust entries ≡ ok (orchestrator ∷ policy ∷ reviewer ∷ [])
unfolding program
trusted = refl

accepted_bytes_are_spent_example : ¬ (
    (validate_and_reserve signer raw
      (int (pos 120))
      (int (pos 9))
      (validate_and_reserve signer raw (int (pos 110)) (int (pos 7)) boundary).1).0
    ≡ ok answer)
accepted_bytes_are_spent_example =
    accepted_bytes_are_spent signer raw (int (pos 110)) (int (pos 7)) (int (pos 120)) (int (pos 9))
      boundary empty_journal-IsValid returned here

accepted_requests_are_timely_example :
    (request : Fields) × (now : ℕ) × (expires_at : ℕ) × (decode_request signer raw ≡ ok request)
    × (natural (int (pos 110)) ≡ ok now)
    × (integer host (get "expiresAt" request) ≡ ok expires_at)
    × (now < expires_at + 30)
    × (expires_at ≤ now + 330)
    × (expires_at ≤ 160)
accepted_requests_are_timely_example =
    accepted_requests_are_timely signer raw (int (pos 110)) (int (pos 7)) boundary configured
      returned

three_keys_sign_a_request_example :
    (request : Fields) × (e : Envelopes) × (now : ℕ) × (natural (int (pos 110)) ≡ ok now)
    × (decode_request signer raw ≡ ok request)
    × (read_envelopes signer request ≡ ok e)
    × ThreeSigners signer now request e
three_keys_sign_a_request_example =
    three_keys_sign_a_request signer entries raw (int (pos 110)) (int (pos 7)) boundary trusted
      returned

abbrev account : String
account = "0x0000000000000000000000000000000000000001"

address_read :
    (canonical_network_address host "hyperliquid:testnet" account ≡ ok account_bytes)
    × (canonical_network_address host "eip155:1" account ≡ ok account_bytes)
unfolding program
address_read = (refl, refl)

network_address_round_trip_example :
    (length account_bytes ≡ 20)
    × (codes account ≡ 48 ∷ 120 ∷ hex_codes account_bytes)
    × (codes account ≡ codes account)
network_address_round_trip_example =
    network_address_round_trip host "hyperliquid:testnet" "eip155:1" account account
      (address_read.0) (address_read.1)

abbrev loaded : Value
loaded = value_or_null (with_hooks request_json)

loads : strict_loads_bytes host json raw ≡ ok loaded
unfolding program
loads = refl

abbrev call_of : TrustedVerifierKey → Option String → String → VerifyCall
call_of k bound domain = record {
  issuer = k.issuer;
  key_id = "key-1";
  algorithm = "Ed25519";
  payload = codes domain ++ 0 ∷ [];
  signature = "sig";
  revocation_epoch = pos 1;
  domain = some domain;
  required_role = some k.role;
  audience = some "signer";
  environment = some "TESTNET";
  deployment = some "main";
  policy_bundle_digest = bound;
  release_subject_digest = bound;
  now = some (pos 110);
}

abbrev review_call : VerifyCall
review_call = call_of reviewer none "user-review-receipt-v2"

abbrev decision_call : VerifyCall
decision_call = call_of policy (some digest) "runtime-decision-envelope-v2"

both_verify :
    (verify trust signer.keys review_call ≡ true) × (verify trust signer.keys decision_call ≡ true)
unfolding program
both_verify = (refl, refl)

distinct_roles_need_distinct_keys_example :
    (k : TrustedVerifierKey) × (l : TrustedVerifierKey) × VerifiedBy trust signer.keys review_call
      human_review k
    × VerifiedBy trust signer.keys decision_call runtime_policy l
    × (k.public_key ≢ l.public_key)
distinct_roles_need_distinct_keys_example =
    distinct_roles_need_distinct_keys trust entries review_call decision_call human_review
      runtime_policy trusted refl refl refl (both_verify.0) (both_verify.1)
