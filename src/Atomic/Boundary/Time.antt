-- ===== src/Atomic/Boundary/Time.antt =====
-- The times of an accepted request, against the clock that the signer read.
use Prim.Native.Nat.{◌≤◌, ◌<◌}
use cryptogpt_one_intent_wal.Base.{ℕ, ◌+◌, ◌≡◌, String, true, List, ok, arith, returns}
use cryptogpt_one_intent_wal.Canonical.Value.{Value, Fields, get}
use cryptogpt_one_intent_wal.Canonical.Checks.{Host}
use cryptogpt_one_intent_wal.Atomic.Journal.{Verified}
use cryptogpt_one_intent_wal.Atomic.Decode.{
  AtomicSignerConfiguration, configuration_is_valid, integer,
}
use cryptogpt_one_intent_wal.Atomic.Request.{
  Signer, Window, Envelopes, validate_window, window_of, check_times, read_envelopes,
  decode_request,
}
use cryptogpt_one_intent_wal.Atomic.Boundary.{
  Boundary, VerifiedAtomicSignerRequest, verify_request, verified_of, check_signatures,
  validate_and_reserve, natural,
}
use cryptogpt_one_intent_wal.Atomic.Boundary.Accepted.{validate-Accepted}

-- What `validate_window` lets through: a window that has begun and not ended, up to the skew, and that
-- is no longer than the limit.
pub record IsOpen (w : Window) (now maximum_ttl skew : ℕ) : Type 0 where
  pub begun : w.issued_at ≤ now + skew
  pub usable : w.not_before ≤ now + skew
  pub not_ended : now < w.expires_at + skew
  pub bounded : w.expires_at ≤ now + skew + maximum_ttl

validate_window-IsOpen :
    (w : Window) (now maximum_ttl skew : ℕ)
    → validate_window w now maximum_ttl skew ≡ ok tt
    → IsOpen w now maximum_ttl skew
unfolding validate_window
validate_window-IsOpen w now maximum_ttl skew h = record {
  begun = ground arith;
  usable = ground arith;
  not_ended = ground arith;
  bounded = ground arith;
}

configuration-limits :
    (host : Host) (c : AtomicSignerConfiguration)
    → configuration_is_valid host c ≡ true
    → (c.maximum_request_ttl_seconds ≤ 300) × (c.allowed_clock_skew_seconds ≤ 30)
unfolding configuration_is_valid
configuration-limits host c h = (ground arith, ground arith)

module _ (signer : Signer) where
  -- The times of a request and its review at `now`: each is open, and the request ends no later than
  -- the operation that it carries and than its review.
  pub record IsTimely (now : ℕ) (request : Fields) (e : Envelopes) (asked : Window) : Type 0 where
    pub read : window_of signer "requestedAt" request ≡ ok asked
    pub open_now :
        IsOpen asked now signer.configuration.maximum_request_ttl_seconds
          signer.configuration.allowed_clock_skew_seconds
    pub within_operation : asked.expires_at ≤ e.typed.expires_at

  times-IsTimely :
      (now : ℕ) (request : Fields) (e : Envelopes)
      → check_times signer now request e ≡ ok tt
      → (asked : Window) × IsTimely now request e asked
  unfolding check_times
  times-IsTimely now request e h =
      let (asked, read) =
        returns (window_of signer "requestedAt" request) (λ x bad. ground arith) in
      let (reviewed, _) =
        returns (window_of signer "reviewedAt" e.review) (λ x bad. ground arith) in
      let (decided, _) = returns (window_of signer "issuedAt" e.decision) (λ x bad. ground arith) in
      let open_window : validate_window asked now signer.configuration.maximum_request_ttl_seconds
            signer.configuration.allowed_clock_skew_seconds
          ≡ ok tt =
        ground arith in
      (
        asked,
        record {
          read = read;
          open_now = validate_window-IsOpen asked now _ _ open_window;
          within_operation = ground arith;
        },
      )

  window-expires_at :
      (request : Fields) {asked : Window}
      → window_of signer "requestedAt" request ≡ ok asked
      → integer signer.host (get "expiresAt" request) ≡ ok asked.expires_at
  unfolding window_of
  window-expires_at request h = ground arith

  verified_of-operation :
      (request : Fields) (e : Envelopes) (digest : String) {v : Verified}
      → verified_of signer request e digest ≡ ok v
      → v.operation ≡ e.typed
  unfolding verified_of
  verified_of-operation request e digest h = ground arith

  verify-times :
      (now : ℕ) (request : Fields) {v : Verified}
      → verify_request signer now request ≡ ok v
      → (e : Envelopes) × (check_times signer now request e ≡ ok tt) × (v.operation ≡ e.typed)
  unfolding verify_request
  verify-times now request {v} h =
      let (e, read) = returns (read_envelopes signer request) (λ x bad. ground arith) in
      let (digest, signed) =
        returns (check_signatures signer now request e) (λ x bad. ground arith) in
      let last : verified_of signer request e digest ≡ ok v = ground arith in
      (e, ground arith, verified_of-operation request e digest last)

  -- With a valid configuration, an accepted request names an expiry that the signer's clock, as it
  -- was read, has not passed by 30 seconds or more, that lies at most 330 seconds ahead of it, and
  -- that is no later than the expiry of the operation it carries.
  pub accepted_requests_are_timely :
      (raw : List ℕ) (wall monotonic : Value) (b : Boundary) {v : VerifiedAtomicSignerRequest}
      → configuration_is_valid signer.host signer.configuration ≡ true
      → (validate_and_reserve signer raw wall monotonic b).0 ≡ ok v
      → (request : Fields) × (now : ℕ) × (expires_at : ℕ) × (decode_request signer raw ≡ ok request)
        × (natural wall ≡ ok now)
        × (integer signer.host (get "expiresAt" request) ≡ ok expires_at)
        × (now < expires_at + 30)
        × (expires_at ≤ now + 330)
        × (expires_at ≤ v.verified.operation.expires_at)
  accepted_requests_are_timely raw wall monotonic b {v} valid returned =
      let a = validate-Accepted signer raw wall monotonic b returned in
      let (e, checked, operation) = verify-times a.now a.request a.verifies in
      let (asked, timely) = times-IsTimely a.now a.request e checked in
      let (ttl, skew) = configuration-limits signer.host signer.configuration valid in
      let w = timely.open_now in
      (
        a.request,
        a.now,
        asked.expires_at,
        a.decoded,
        a.clock,
        window-expires_at a.request timely.read,
        omega (arith, w.not_ended, skew),
        omega (arith, w.bounded, ttl, skew),
        rw operation (timely.within_operation),
      )
