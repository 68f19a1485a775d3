-- ===== src/Atomic/Boundary/Once.antt =====
-- A request is accepted at most once, whatever happens at the boundary and in its journal in between.
use cryptogpt_one_intent_wal.Base.{
  ℕ, ◌≡◌, refl, String, List, Result, ok, arith, returns, ap, sym, ◌∙◌, eq_refl, ok-injective,
}
use cryptogpt_one_intent_wal.Canonical.Value.{Value, Fields, get}
use cryptogpt_one_intent_wal.Atomic.Journal.{Journal, Verified}
use cryptogpt_one_intent_wal.Atomic.Journal.Invariant.{IsValid}
use cryptogpt_one_intent_wal.Atomic.Journal.Replay.{
  Step, Steps, reserve_step, after_step, Makes, no_replay,
}
use cryptogpt_one_intent_wal.Atomic.Decode.{text}
use cryptogpt_one_intent_wal.Atomic.Request.{Signer, Envelopes, read_envelopes}
use cryptogpt_one_intent_wal.Atomic.Boundary.{
  Boundary, VerifiedAtomicSignerRequest, verify_request, verified_of, validate_and_reserve,
  check_signatures,
}
use cryptogpt_one_intent_wal.Atomic.Boundary.Accepted.{
  Outcome, accepted, refused, validate-Outcome, validate-Accepted,
}

module _ (signer : Signer) where
  -- What happens at a boundary: a call with any bytes and any clock, or a call of its journal.
  pub data BoundaryStep (b : Boundary) : Boundary → Type 0 where
    request_call :
        (raw : List ℕ) (wall monotonic : Value)
        → BoundaryStep b (validate_and_reserve signer raw wall monotonic b).1
    journal_call : {j : Journal} → Step b.journal j → BoundaryStep b (record b { journal = j })

  pub data BoundarySteps (b : Boundary) : Boundary → Type 0 where
    here : BoundarySteps b b
    next : {c d : Boundary} → BoundarySteps b c → BoundaryStep c d → BoundarySteps b d

  verified_of-request_id :
      (request : Fields) (e : Envelopes) (digest : String) {v : Verified}
      → verified_of signer request e digest ≡ ok v
      → text signer.host (get "requestId" request) ≡ ok v.request_id
  unfolding verified_of
  verified_of-request_id request e digest h = ground arith

  verify-request_id :
      (now : ℕ) (request : Fields) {v : Verified}
      → verify_request signer now request ≡ ok v
      → text signer.host (get "requestId" request) ≡ ok v.request_id
  unfolding verify_request
  verify-request_id now request {v} h =
      let (e, read) = returns (read_envelopes signer request) (λ x bad. ground arith) in
      let (digest, signed) =
        returns (check_signatures signer now request e) (λ x bad. ground arith) in
      let last : verified_of signer request e digest ≡ ok v = ground arith in
      verified_of-request_id request e digest last

  Outcome-Steps :
      (raw : List ℕ) (wall : Value) (before : Journal) {origin : Journal}
      {out : Result _ VerifiedAtomicSignerRequest × Boundary}
      → Outcome signer raw wall before out
      → Steps origin before
      → Steps origin out.1.journal
  Outcome-Steps raw wall before (accepted v b a) s =
      after_step s (reserve_step v.verified a.now _ a.reserves)
  Outcome-Steps raw wall before {origin} (refused e b same) s = rw same s

  journal-Steps :
      {origin : Journal} {b c : Boundary}
      → Steps origin b.journal
      → BoundarySteps b c
      → Steps origin c.journal
  journal-Steps s here = s
  journal-Steps s (next {c} steps (request_call raw wall monotonic)) =
      Outcome-Steps raw wall c.journal (validate-Outcome signer raw wall monotonic c)
        (journal-Steps s steps)
  journal-Steps s (next steps (journal_call call)) = after_step (journal-Steps s steps) call

  Makes-request_id : (v : Verified) → Makes v "requestId" v.request_id
  Makes-request_id v = rw (eq_refl v.request_id) refl

  -- From a boundary with a valid journal: bytes that were accepted once are never accepted again,
  -- at any time and after any calls of the boundary and of its journal.
  pub accepted_bytes_are_spent :
      (raw : List ℕ) (wall monotonic wall' monotonic' : Value) (b : Boundary) {later : Boundary}
      {v w : VerifiedAtomicSignerRequest}
      → IsValid b.journal
      → (validate_and_reserve signer raw wall monotonic b).0 ≡ ok v
      → BoundarySteps (validate_and_reserve signer raw wall monotonic b).1 later
      → ¬ ((validate_and_reserve signer raw wall' monotonic' later).0 ≡ ok w)
  accepted_bytes_are_spent raw wall monotonic wall' monotonic' b {later} {v} {w} valid first steps
        second =
      let f = validate-Accepted signer raw wall monotonic b first in
      let g = validate-Accepted signer raw wall' monotonic' later second in
      let same_request : f.request ≡ g.request =
        ok-injective f.request g.request (sym f.decoded ∙ g.decoded) in
      let first_id = verify-request_id f.now f.request f.verifies in
      let second_id = verify-request_id g.now g.request g.verifies in
      let same_id : v.verified.request_id ≡ w.verified.request_id =
        ok-injective v.verified.request_id w.verified.request_id (
          sym first_id ∙ ap (λ r. text signer.host (get "requestId" r)) same_request ∙ second_id) in
      no_replay v.verified w.verified f.now _ g.now _ "requestId" w.verified.request_id valid
        f.reserves (journal-Steps Steps.here steps) (rw (sym same_id) (Makes-request_id v.verified))
        (Makes-request_id w.verified) g.reserves
