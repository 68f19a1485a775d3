-- ===== src/Atomic/Boundary.antt =====
-- `AtomicSignerBoundary` of shared/atomic_signer_contract.py: exact request bytes are decoded, bound to
-- the signer's own configuration, time and keys, and reserved in the journal. A call returns its
-- result or exception beside the boundary, since the clock reading that it made stays.
pub mod Accepted
pub mod Keys
pub mod Time
pub mod Once
mod Tests
use mathlib.Core.List.{flat_map}
use cryptogpt_one_intent_wal.Base.{
  ℕ, ◌+◌, String, Bool, true, false, not, ◌&&◌, ◌||◌, Option, none, some, List, [], ◌∷◌, ◌++◌, leb,
  ltb, ◌==◌, str_eq, if◌then◌else◌, Result, ok, err, ◌>>=◌, ◌>>◌, guard, any, all,
}
use cryptogpt_one_intent_wal.Base.Int.{ℤ, pos, eq_ℤ}
use cryptogpt_one_intent_wal.Base.Text.{codes}
use cryptogpt_one_intent_wal.Canonical.Value.{
  Value, Items, Fields, null, bool, int, str, float, arr, obj, other, nil, cons, end, field, get,
  size,
}
use cryptogpt_one_intent_wal.Canonical.Checks.{Host}
use cryptogpt_one_intent_wal.Canonical.Bytes.{canonical_bytes, canonical_hash, utf8}
use cryptogpt_one_intent_wal.Canonical.Loads.{JsonHost, strict_loads_bytes}
use cryptogpt_one_intent_wal.Canonical.Address.{canonical_profile_version}
use cryptogpt_one_intent_wal.Domain.Store.{contains}
use cryptogpt_one_intent_wal.Atomic.Operation.{TypedOperationSpec}
use cryptogpt_one_intent_wal.Atomic.Journal.{
  JournalError, Journal, JournalReservation, Verified, assert_clock, reserve,
}
use cryptogpt_one_intent_wal.Atomic.Trust.{
  TrustHost, TrustedVerifierKey, VerifierRole, VerifyCall, human_review, runtime_policy,
  orchestration, verify,
}
use cryptogpt_one_intent_wal.Atomic.Decode.{
  BoundaryError, contract_error, clock_rollback, journal_error, through, AtomicSignerConfiguration,
  mapping, integer, text, typed_operation,
}
use cryptogpt_one_intent_wal.Atomic.Values.{
  claims_no_trust, eq_fields, eq_items, eq_optional, eq_value, fields_claim_no_trust,
  is_empty_array, is_text, items_claim_no_trust, signed_material,
}
use cryptogpt_one_intent_wal.Atomic.Request.{
  Envelopes, Signer, Window, check_bindings, check_times, context_agrees, decode_request,
  digests_bind, is_eligible, read_envelopes, review_covers, subjects_agree, validate_window,
  window_of,
}

-- the state of a boundary
pub record Boundary : Type 0 where
  pub journal : Journal
  pub last_monotonic_ns : Option ℕ

pub record VerifiedAtomicSignerRequest : Type 0 where
  pub verified : Verified
  pub reservation : JournalReservation

abbrev pub natural : Value → Result BoundaryError ℕ
natural (int (pos n)) = ok n
natural _ = err clock_rollback

abbrev pub not_behind : Option ℕ → ℕ → Bool
not_behind none n = true
not_behind (some last) n = leb last n

abbrev from_journal {ℓ} : {A : Type ℓ} → Result JournalError A → Result BoundaryError A
from_journal (ok a) = ok a
from_journal (err e) = err (journal_error e)

-- a signature's domain, role, and whether it is bound to the policy and the release
pub record Purpose : Type 0 where
  pub domain : String
  pub role : VerifierRole
  pub policy_bound : Bool

abbrev pub review_purpose : Purpose
review_purpose = record {
  domain = "user-review-receipt-v2";
  role = human_review;
  policy_bound = false;
}

abbrev pub decision_purpose : Purpose
decision_purpose = record {
  domain = "runtime-decision-envelope-v2";
  role = runtime_policy;
  policy_bound = true;
}

abbrev pub request_purpose : Purpose
request_purpose = record {
  domain = "atomic-signer-request-v2";
  role = orchestration;
  policy_bound = true;
}

module _ (signer : Signer) where
  -- the call of the trust store that an envelope makes
  unfoldable pub envelope_call : Purpose → ℕ → Fields → Result BoundaryError VerifyCall
  envelope_call p now envelope = do
    issuer ← text signer.host (get "issuer" envelope)
    key_id ← text signer.host (get "keyId" envelope)
    algorithm ← text signer.host (get "signatureAlgorithm" envelope)
    encoded ← through (canonical_bytes signer.host (obj (signed_material envelope)))
    signature ← text signer.host (get "signature" envelope)
    revocation_epoch ← integer signer.host (get "revocationEpoch" envelope)
    ok (record {
      issuer = issuer;
      key_id = key_id;
      algorithm = algorithm;
      payload = flat_map utf8 (codes p.domain) ++ 0 ∷ encoded;
      signature = signature;
      revocation_epoch = pos revocation_epoch;
      domain = some p.domain;
      required_role = some p.role;
      audience = some signer.configuration.expected_audience;
      environment = some signer.configuration.expected_environment;
      deployment = some signer.configuration.expected_deployment;
      policy_bundle_digest =
          if p.policy_bound then some signer.configuration.expected_policy_bundle_digest else none;
      release_subject_digest =
          if p.policy_bound
          then some signer.configuration.expected_release_subject_digest
          else none;
      now = some (pos now);
    })

  -- an exception inside the `try` becomes a contract error
  abbrev call_verifies : Result BoundaryError VerifyCall → Bool
  call_verifies (ok c) = verify signer.trust signer.keys c
  call_verifies (err e) = false

  -- `_verify_envelope_signature`
  unfoldable pub verify_envelope_signature : Purpose → ℕ → Fields → Result BoundaryError String
  verify_envelope_signature p now envelope = do
    expected ← through (canonical_hash signer.host p.domain (obj (signed_material envelope)))
    guard (is_text expected (get "canonicalDigest" envelope)) contract_error
    guard (call_verifies (envelope_call p now envelope)) contract_error
    ok expected

  -- the three signatures; the result is the digest of the request
  unfoldable pub check_signatures : ℕ → Fields → Envelopes → Result BoundaryError String
  check_signatures now request e = do
    verify_envelope_signature review_purpose now e.review
    verify_envelope_signature decision_purpose now e.decision
    verify_envelope_signature request_purpose now request

  unfoldable pub verified_of : Fields → Envelopes → String → Result BoundaryError Verified
  verified_of request e digest = do
    request_id ← text signer.host (get "requestId" request)
    authorization_id ← text signer.host (get "authorizationId" request)
    nonce ← text signer.host (get "nonce" request)
    ok (record {
      request_id = request_id;
      authorization_id = authorization_id;
      nonce = nonce;
      operation_spec_digest = e.operation_digest;
      review_receipt_digest = e.review_digest;
      runtime_decision_digest = e.decision_digest;
      canonical_digest = digest;
      operation = e.typed;
    })

  -- all checks between the clock and the reservation
  unfoldable pub verify_request : ℕ → Fields → Result BoundaryError Verified
  verify_request now request = do
    e ← read_envelopes signer request
    check_bindings signer request e
    check_times signer now request e
    guard (is_eligible signer e) contract_error
    digest ← check_signatures now request e
    verified_of request e digest

  abbrev note_reading :
      Result BoundaryError ℕ → Result BoundaryError ℕ → Boundary → Result BoundaryError ℕ × Boundary
  note_reading (err e) monotonic b = (err e, b)
  note_reading (ok wall) (err e) b = (err e, b)
  note_reading (ok wall) (ok monotonic) b =
      if not_behind b.last_monotonic_ns monotonic
      then (ok wall, record b { last_monotonic_ns = some monotonic })
      else (err clock_rollback, b)

  -- `_read_clock`, whose two readings come from the installed clock
  unfoldable pub read_clock : Value → Value → Boundary → Result BoundaryError ℕ × Boundary
  read_clock wall monotonic b = note_reading (natural wall) (natural monotonic) b

  abbrev finish :
      Result BoundaryError (Verified × (JournalReservation × Journal))
      → Boundary
      → Result BoundaryError VerifiedAtomicSignerRequest × Boundary
  finish (err e) b = (err e, b)
  finish (ok (verified, (reservation, journal))) b = (
    ok (record { verified = verified; reservation = reservation }),
    record b { journal = journal },
  )

  -- the part of `validate_and_reserve` after the clock, on the journal
  unfoldable pub verify_and_reserve :
      ℕ → Fields → Journal → Result BoundaryError (Verified × (JournalReservation × Journal))
  verify_and_reserve now request journal = do
    from_journal (assert_clock now signer.configuration.maximum_clock_rollback_seconds journal)
    verified ← verify_request now request
    reserved ←
        from_journal
          (reserve verified now signer.configuration.maximum_clock_rollback_seconds journal)
    ok (verified, reserved)

  unfoldable pub after_clock :
      Fields
      → Result BoundaryError ℕ × Boundary
      → Result BoundaryError VerifiedAtomicSignerRequest × Boundary
  after_clock request (err e, b) = (err e, b)
  after_clock request (ok now, b) = finish (verify_and_reserve now request b.journal) b

  -- `validate_and_reserve`, with what the clock reads
  unfoldable pub validate_and_reserve :
      List ℕ
      → Value
      → Value
      → Boundary
      → Result BoundaryError VerifiedAtomicSignerRequest × Boundary
  validate_and_reserve raw wall monotonic b = elim (decode_request signer raw) [
    | err e ↦ (err e, b)
    | ok request ↦ after_clock request (read_clock wall monotonic b)
  ]
