-- ===== src/Domain/Gate/Signing.antt =====
-- When `sign` signs, what it has checked, and what it leaves behind.
use cryptogpt_one_intent_wal.Base.{
  ℕ, ◌≡◌, refl, String, Bool, true, false, List, some, Result, ok, err, ◌>>◌, ◌⊎◌, inl, inr,
  Bool-cases, >>=-eq-ok,
}
use cryptogpt_one_intent_wal.Canonical.Checks.{Host}
use cryptogpt_one_intent_wal.Domain.Checks.{Error, domain_error, runtime_error}
use cryptogpt_one_intent_wal.Domain.Store.{Consumed, reserve, reserve_in, all_texts}
use cryptogpt_one_intent_wal.Domain.Store.Single.{blocked, reserve_in_used, reserve_in_fresh}
use cryptogpt_one_intent_wal.Domain.Gate.{
  SignerGate, SignCall, SignerState, signed_broadcast_unknown, broadcast_accepted_unconfirmed,
  new_operation_allowed, sign, sign_with, sign_checks, consumed_by, reserve_and_sign, finish_sign,
  signed_material,
}

abbrev pub is_err {ℓ κ} : {E : Type ℓ} {A : Type κ} → Result E A → Bool
is_err (ok a) = false
is_err (err e) = true

module _ (host : Host) where
  -- the answer of a call that has signed, and the state it leaves
  abbrev pub answer : Bool → List ℕ → Result Error (List ℕ)
  answer true bytes = err runtime_error
  answer false bytes = ok bytes

  abbrev pub state_after : Bool → SignerState
  state_after true = signed_broadcast_unknown
  state_after false = broadcast_accepted_unconfirmed

  -- The call signed under the row `r`: all checks passed, the row was fresh and is now reserved, the
  -- bytes for the row are returned, or withheld by the failure that was asked for, their hash is kept,
  -- and the gate waits for a reconciliation.
  pub record Signed (c : SignCall) (gate : SignerGate) (out : Result Error (List ℕ) × SignerGate)
      (r : Consumed) : Type 0 where
    pub checked : sign_checks host c gate ≡ ok tt
    pub row : consumed_by host c ≡ ok r
    pub fresh : blocked gate.store r ≡ false
    pub reserved : out.1.store ≡ (reserve_in gate.store r).1
    pub bytes : List ℕ
    pub hash : String
    pub signed : signed_material host r ≡ ok (bytes, hash)
    pub answered : out.0 ≡ answer c.fail_after_sign bytes
    pub kept : out.1.last_signed_hash ≡ some hash
    pub state : out.1.state ≡ state_after c.fail_after_sign
    pub waits : new_operation_allowed out.1.state ≡ false

  -- The call raised and did not sign: state and last hash stay, and the store is as it was, or holds a
  -- reservation that no later call can use.
  pub record Refused (gate : SignerGate) (out : Result Error (List ℕ) × SignerGate) : Type 0 where
    pub raised : is_err out.0 ≡ true
    pub state : out.1.state ≡ gate.state
    pub hash : out.1.last_signed_hash ≡ gate.last_signed_hash
    pub store :
        (out.1.store ≡ gate.store) ⊎ ((r : Consumed) × (out.1.store ≡ (reserve_in gate.store r).1))

  abbrev pub Outcome : SignCall → SignerGate → Result Error (List ℕ) × SignerGate → Type 0
  Outcome c gate out = ((r : Consumed) × Signed c gate out r) ⊎ Refused gate out

  unchanged : (e : Error) (gate : SignerGate) → Refused gate (err e, gate)
  unchanged e gate = record { raised = refl; state = refl; hash = refl; store = inl refl }

  finish-Signed :
      (c : SignCall) (r : Consumed) (gate : SignerGate) (fail : Bool) (bytes : List ℕ)
      (hash : String)
      → c.fail_after_sign ≡ fail
      → sign_checks host c gate ≡ ok tt
      → consumed_by host c ≡ ok r
      → blocked gate.store r ≡ false
      → signed_material host r ≡ ok (bytes, hash)
      → Signed c gate
          (finish_sign host fail
            (ok (bytes, hash))
            (record gate { store = (reserve_in gate.store r).1 }))
          r
  unfolding finish_sign
  finish-Signed c r gate true bytes hash f k e fresh m = record {
    checked = k;
    row = e;
    fresh = fresh;
    reserved = refl;
    bytes = bytes;
    hash = hash;
    signed = m;
    answered = rw f;
    kept = refl;
    state = rw f;
    waits = refl;
  }
  finish-Signed c r gate false bytes hash f k e fresh m = record {
    checked = k;
    row = e;
    fresh = fresh;
    reserved = refl;
    bytes = bytes;
    hash = hash;
    signed = m;
    answered = rw f;
    kept = refl;
    state = rw f;
    waits = refl;
  }

  finish-Outcome :
      (c : SignCall) (r : Consumed) (gate : SignerGate) (m : Result Error (List ℕ × String))
      → signed_material host r ≡ m
      → sign_checks host c gate ≡ ok tt
      → consumed_by host c ≡ ok r
      → blocked gate.store r ≡ false
      → Outcome c gate (
          finish_sign host c.fail_after_sign m
            (record gate { store = (reserve_in gate.store r).1 }))
  unfolding finish_sign
  finish-Outcome c r gate (err x) h k e f =
      inr (record { raised = refl; state = refl; hash = refl; store = inr (r, refl) })
  finish-Outcome c r gate (ok (bytes, hash)) h k e f =
      inl (r, finish-Signed c r gate c.fail_after_sign bytes hash refl k e f h)

  reserve-Outcome :
      (c : SignCall) (r : Consumed) (gate : SignerGate)
      → sign_checks host c gate ≡ ok tt
      → consumed_by host c ≡ ok r
      → Outcome c gate (reserve_and_sign host c r (ok (reserve_in gate.store r)) gate)
  unfolding reserve_and_sign
  reserve-Outcome c r gate k e = elim (Bool-cases (blocked gate.store r)) [
    | inl used ↦ rw (reserve_in_used gate.store r used) (inr (unchanged domain_error gate))
    | inr fresh ↦
        rw (reserve_in_fresh gate.store r fresh)
          (finish-Outcome c r gate (signed_material host r) refl k e fresh)
  ]

  sign_with-Outcome :
      (c : SignCall) (gate : SignerGate) (x : Result Error Consumed)
      → (sign_checks host c gate >> consumed_by host c) ≡ x
      → Outcome c gate (sign_with host c x gate)
  unfolding sign_with reserve
  sign_with-Outcome c gate (err x) e = inr (unchanged x gate)
  sign_with-Outcome c gate (ok r) e =
      let (_, k, row) = >>=-eq-ok (sign_checks host c gate) _ e in
      texts (all_texts host r) refl k row
    where
      texts :
          (m : Result Error (Unit {0}))
          → all_texts host r ≡ m
          → sign_checks host c gate ≡ ok tt
          → consumed_by host c ≡ ok r
          → Outcome c gate (reserve_and_sign host c r (m >> ok (reserve_in gate.store r)) gate)
      texts (err x) q k row = inr (unchanged x gate)
      texts (ok u) q k row = reserve-Outcome c r gate k row

  -- Every call of sign either signs under a fresh row after all checks have passed: it returns the
  -- signed bytes, or withholds them by the failure that was asked for, keeps their hash and waits
  -- for a reconciliation; or it raises and changes no more than the single-use store.
  pub sign-Outcome : (c : SignCall) (gate : SignerGate) → Outcome c gate (sign host c gate)
  unfolding sign
  sign-Outcome c gate =
      sign_with-Outcome c gate (sign_checks host c gate >> consumed_by host c) refl
