-- ===== src/Atomic/Boundary/Keys.antt =====
-- Whose signatures an accepted request carries.
use cryptogpt_one_intent_wal.Base.{ℕ, ◌≡◌, ◌≢◌, refl, String, true, some, List, ok, arith, returns}
use cryptogpt_one_intent_wal.Base.Int.{pos}
use cryptogpt_one_intent_wal.Canonical.Value.{Value, Fields}
use cryptogpt_one_intent_wal.Atomic.Journal.{Verified}
use cryptogpt_one_intent_wal.Atomic.Trust.{
  TrustedVerifierKey, VerifyCall, human_review, runtime_policy, orchestration, verify, new_store,
}
use cryptogpt_one_intent_wal.Atomic.Trust.Roles.{VerifiedBy, verified_apart, verify-VerifiedBy}
use cryptogpt_one_intent_wal.Atomic.Request.{Signer, Envelopes, decode_request, read_envelopes}
use cryptogpt_one_intent_wal.Atomic.Boundary.{
  Boundary, natural, VerifiedAtomicSignerRequest, Purpose, review_purpose, decision_purpose,
  request_purpose, envelope_call, verify_envelope_signature, check_signatures, verify_request,
  validate_and_reserve,
}
use cryptogpt_one_intent_wal.Atomic.Boundary.Accepted.{validate-Accepted}

module _ (signer : Signer) where
  -- The envelope's own call of the trust store, in the role of its purpose and at the time `now`,
  -- returned true.
  pub record Signs (p : Purpose) (now : ℕ) (envelope : Fields) : Type 0 where
    pub call : VerifyCall
    pub made : envelope_call signer p now envelope ≡ ok call
    pub role : call.required_role ≡ some p.role
    pub time : call.now ≡ some (pos now)
    pub verifies : verify signer.trust signer.keys call ≡ true

  call-pinned :
      (p : Purpose) (now : ℕ) (envelope : Fields) {c : VerifyCall}
      → envelope_call signer p now envelope ≡ ok c
      → (c.required_role ≡ some p.role) × (c.now ≡ some (pos now))
  unfolding envelope_call
  call-pinned p now envelope h = (ground arith, ground arith)

  signature-Signs :
      (p : Purpose) (now : ℕ) (envelope : Fields) {digest : String}
      → verify_envelope_signature signer p now envelope ≡ ok digest
      → Signs p now envelope
  unfolding verify_envelope_signature
  signature-Signs p now envelope h =
      let (c, made) = returns (envelope_call signer p now envelope) (λ e bad. ground arith) in
      record {
        call = c;
        made = made;
        role = (call-pinned p now envelope made).0;
        time = (call-pinned p now envelope made).1;
        verifies = ground arith;
      }

  signatures-Signs :
      (now : ℕ) (request : Fields) (e : Envelopes) {digest : String}
      → check_signatures signer now request e ≡ ok digest
      → Signs review_purpose now e.review
        × Signs decision_purpose now e.decision
        × Signs request_purpose now request
  unfolding check_signatures
  signatures-Signs now request e h =
      let (a, reviewed) =
        returns (verify_envelope_signature signer review_purpose now e.review)
          (λ x bad. ground arith) in
      let (b, decided) =
        returns (verify_envelope_signature signer decision_purpose now e.decision)
          (λ x bad. ground arith) in
      let (c, asked) =
        returns (verify_envelope_signature signer request_purpose now request)
          (λ x bad. ground arith) in
      (
        signature-Signs review_purpose now e.review reviewed,
        signature-Signs decision_purpose now e.decision decided,
        signature-Signs request_purpose now request asked,
      )

  verify-signatures :
      (now : ℕ) (request : Fields) {v : Verified}
      → verify_request signer now request ≡ ok v
      → (e : Envelopes) × (digest : String) × (read_envelopes signer request ≡ ok e)
        × (check_signatures signer now request e ≡ ok digest)
  unfolding verify_request
  verify-signatures now request h =
      let (e, read) = returns (read_envelopes signer request) (λ x bad. ground arith) in
      let (digest, signed) =
        returns (check_signatures signer now request e) (λ x bad. ground arith) in
      (e, digest, read, signed)

  -- Three keys of the store with three public keys, and the envelope that each has signed.
  pub record ThreeSigners (now : ℕ) (request : Fields) (e : Envelopes) : Type 0 where
    pub reviewed : Signs review_purpose now e.review
    pub decided : Signs decision_purpose now e.decision
    pub asked : Signs request_purpose now request
    pub reviewer : TrustedVerifierKey
    pub policy : TrustedVerifierKey
    pub orchestrator : TrustedVerifierKey
    pub by_reviewer : VerifiedBy signer.trust signer.keys reviewed.call human_review reviewer
    pub by_policy : VerifiedBy signer.trust signer.keys decided.call runtime_policy policy
    pub by_orchestrator : VerifiedBy signer.trust signer.keys asked.call orchestration orchestrator
    pub not_policy : reviewer.public_key ≢ policy.public_key
    pub not_orchestrator : reviewer.public_key ≢ orchestrator.public_key
    pub apart : policy.public_key ≢ orchestrator.public_key

  three_signers :
      (entries : List TrustedVerifierKey) (now : ℕ) (request : Fields) (e : Envelopes)
      → new_store signer.trust entries ≡ ok signer.keys
      → Signs review_purpose now e.review
      → Signs decision_purpose now e.decision
      → Signs request_purpose now request
      → ThreeSigners now request e
  three_signers entries now request e made reviewed decided asked =
      let (reviewer, by_reviewer) =
        verify-VerifiedBy signer.trust signer.keys reviewed.call human_review reviewed.role
          reviewed.verifies in
      let (policy, by_policy) =
        verify-VerifiedBy signer.trust signer.keys decided.call runtime_policy decided.role
          decided.verifies in
      let (orchestrator, by_orchestrator) =
        verify-VerifiedBy signer.trust signer.keys asked.call orchestration asked.role
          asked.verifies in
      record {
        reviewed = reviewed;
        decided = decided;
        asked = asked;
        reviewer = reviewer;
        policy = policy;
        orchestrator = orchestrator;
        by_reviewer = by_reviewer;
        by_policy = by_policy;
        by_orchestrator = by_orchestrator;
        not_policy =
            verified_apart signer.trust entries _ _ human_review runtime_policy made refl
              by_reviewer by_policy;
        not_orchestrator =
            verified_apart signer.trust entries _ _ human_review orchestration made refl by_reviewer
              by_orchestrator;
        apart =
            verified_apart signer.trust entries _ _ runtime_policy orchestration made refl by_policy
              by_orchestrator;
      }

  -- An accepted request carries three signatures under a trust store that its constructor
  -- accepted: of the review by a key for human review, of the decision by a key for runtime policy
  -- and of the request by a key for orchestration, none revoked, all in their windows at the time
  -- that the signer's clock read, and no two with the same public key.
  pub three_keys_sign_a_request :
      (entries : List TrustedVerifierKey) (raw : List ℕ) (wall monotonic : Value) (b : Boundary)
      {v : VerifiedAtomicSignerRequest}
      → new_store signer.trust entries ≡ ok signer.keys
      → (validate_and_reserve signer raw wall monotonic b).0 ≡ ok v
      → (request : Fields) × (e : Envelopes) × (now : ℕ) × (natural wall ≡ ok now)
        × (decode_request signer raw ≡ ok request)
        × (read_envelopes signer request ≡ ok e)
        × ThreeSigners now request e
  three_keys_sign_a_request entries raw wall monotonic b made returned =
      let a = validate-Accepted signer raw wall monotonic b returned in
      let (e, digest, read, signed) = verify-signatures a.now a.request a.verifies in
      let (reviewed, decided, asked) = signatures-Signs a.now a.request e signed in
      (
        a.request,
        e,
        a.now,
        a.clock,
        a.decoded,
        read,
        three_signers entries a.now a.request e made reviewed decided asked,
      )
