-- ===== src/Atomic/Boundary/Accepted.antt =====
-- What a call of `validate_and_reserve` does: it accepts and reserves, or it raises and keeps the journal.
use cryptogpt_one_intent_wal.Base.{
  ℕ, ◌≡◌, refl, List, some, Result, ok, err, inl, inr, arith, Result-cases, returns, Bool-cases,
  ok-injective, ap, subst, ◌∙◌,
}
use cryptogpt_one_intent_wal.Canonical.Value.{Value, Fields}
use cryptogpt_one_intent_wal.Atomic.Journal.{Journal, JournalReservation, Verified, reserve}
use cryptogpt_one_intent_wal.Atomic.Decode.{BoundaryError, clock_rollback}
use cryptogpt_one_intent_wal.Atomic.Request.{Signer, decode_request}
use cryptogpt_one_intent_wal.Atomic.Boundary.{
  Boundary, VerifiedAtomicSignerRequest, verify_request, read_clock, natural, not_behind,
  verify_and_reserve, after_clock, validate_and_reserve,
}

module _ (signer : Signer) where
  -- The request of the bytes `raw` was verified at the time `now`, and reserved in the journal.
  pub record Accepted (raw : List ℕ) (wall : Value) (before : Journal) (after : Journal)
      (v : VerifiedAtomicSignerRequest) : Type 0 where
    pub request : Fields
    pub now : ℕ
    pub clock : natural wall ≡ ok now
    pub decoded : decode_request signer raw ≡ ok request
    pub verifies : verify_request signer now request ≡ ok v.verified
    pub reserves :
        reserve v.verified now signer.configuration.maximum_clock_rollback_seconds before
        ≡ ok (v.reservation, after)

  -- What a call leaves: a reservation, or an exception with the journal as it was.
  pub data Outcome (raw : List ℕ) (wall : Value) (before : Journal)
      : Result BoundaryError VerifiedAtomicSignerRequest × Boundary → Type 0 where
    accepted :
        (v : VerifiedAtomicSignerRequest) (b : Boundary)
        → Accepted raw wall before b.journal v
        → Outcome raw wall before (ok v, b)
    refused :
        (e : BoundaryError) (b : Boundary) → b.journal ≡ before → Outcome raw wall before (err e, b)

  reserve-parts :
      (now : ℕ) (request : Fields) (before : Journal) {verified : Verified}
      {reserved : JournalReservation × Journal}
      → verify_and_reserve signer now request before ≡ ok (verified, reserved)
      → (verify_request signer now request ≡ ok verified)
        × (reserve verified now signer.configuration.maximum_clock_rollback_seconds before
            ≡ ok reserved)
  unfolding verify_and_reserve
  reserve-parts now request before {verified} {reserved} h =
      let (v, verifies) = returns (verify_request signer now request) (λ e bad. ground arith) in
      let (out, reserves) =
        returns (reserve v now signer.configuration.maximum_clock_rollback_seconds before)
          (λ e bad. ground arith) in
      let same : v ≡ verified = ground arith in
      let result : out ≡ reserved = ground arith in
      (
        verifies ∙ ap ok same,
        subst
            (λ (w : Verified).
              reserve w now signer.configuration.maximum_clock_rollback_seconds before
              ≡ ok reserved)
            same (reserves ∙ ap ok result),
      )

  reserve-Outcome :
      (raw : List ℕ) (wall : Value) (request : Fields) (now : ℕ) (b : Boundary)
      → natural wall ≡ ok now
      → decode_request signer raw ≡ ok request
      → Outcome raw wall b.journal (after_clock signer request (ok now, b))
  unfolding after_clock
  reserve-Outcome raw wall request now b reading decoded =
      elim (Result-cases (verify_and_reserve signer now request b.journal)) [
        | inr (e, bad) ↦ rw bad (refused e b refl)
        | inl ((verified, (reservation, journal)), good) ↦
            let parts = reserve-parts now request b.journal good in
            rw good (
              accepted (record { verified = verified; reservation = reservation })
                (record b { journal = journal })
                (record {
                  request = request;
                  now = now;
                  clock = reading;
                  decoded = decoded;
                  verifies = parts.0;
                  reserves = parts.1;
                }))
      ]

  clock-Outcome :
      (raw : List ℕ) (request : Fields) (wall monotonic : Value) (b : Boundary)
      → decode_request signer raw ≡ ok request
      → Outcome raw wall b.journal (after_clock signer request (read_clock signer wall monotonic b))
  unfolding read_clock after_clock
  clock-Outcome raw request wall monotonic b decoded = elim (Result-cases (natural wall)) [
    | inr (e, bad) ↦ rw bad (refused e b refl)
    | inl (now, reading) ↦ elim (Result-cases (natural monotonic)) [
      | inr (e, bad) ↦ rw (reading, bad) (refused e b refl)
      | inl (m, ticks) ↦ elim (Bool-cases (not_behind b.last_monotonic_ns m)) [
        | inl ahead ↦
            rw (reading, ticks, ahead)
              (reserve-Outcome raw wall request now (record b { last_monotonic_ns = some m })
                reading decoded)
        | inr behind ↦ rw (reading, ticks, behind) (refused clock_rollback b refl)
      ]
    ]
  ]

  -- Every call either accepts the request and reserves it, or raises and keeps the journal.
  pub validate-Outcome :
      (raw : List ℕ) (wall monotonic : Value) (b : Boundary)
      → Outcome raw wall b.journal (validate_and_reserve signer raw wall monotonic b)
  unfolding validate_and_reserve
  validate-Outcome raw wall monotonic b = elim (Result-cases (decode_request signer raw)) [
    | inr (e, bad) ↦ rw (validate_and_reserve, bad) (refused e b refl)
    | inl (request, good) ↦
        rw (validate_and_reserve, good) (clock-Outcome raw request wall monotonic b good)
  ]

  Outcome-Accepted :
      (raw : List ℕ) (wall : Value) (before : Journal)
      {out : Result BoundaryError VerifiedAtomicSignerRequest × Boundary}
      {v : VerifiedAtomicSignerRequest}
      → Outcome raw wall before out
      → out.0 ≡ ok v
      → Accepted raw wall before out.1.journal v
  Outcome-Accepted raw wall before (accepted w b a) h =
      subst (Accepted raw wall before b.journal) (ok-injective w _ h) a
  Outcome-Accepted raw wall before (refused e b same) h = absurd (cc h)

  -- A call that returns has accepted.
  pub validate-Accepted :
      (raw : List ℕ) (wall monotonic : Value) (b : Boundary) {v : VerifiedAtomicSignerRequest}
      → (validate_and_reserve signer raw wall monotonic b).0 ≡ ok v
      → Accepted raw wall b.journal (validate_and_reserve signer raw wall monotonic b).1.journal v
  validate-Accepted raw wall monotonic b h =
      Outcome-Accepted raw wall b.journal (validate-Outcome raw wall monotonic b) h
