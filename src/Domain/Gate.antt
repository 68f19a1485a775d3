-- ===== src/Domain/Gate.antt =====
-- `SignerGate` of shared/domain.py: the reference signer without a key. A call returns its result or
-- exception beside the gate, since what was written before an exception stays written.
pub mod Signing
pub mod Traces
use cryptogpt_one_intent_wal.Base.{
  ℕ, String, Bool, true, false, not, ◌&&◌, ◌||◌, Option, none, some, List, [], ◌∷◌, str_eq,
  if◌then◌else◌, Result, ok, err, ◌>>=◌, ◌>>◌, guard,
}
use cryptogpt_one_intent_wal.Base.Int.{ℤ, pos}
use cryptogpt_one_intent_wal.Base.Hex.{hex}
use cryptogpt_one_intent_wal.Canonical.Value.{Value, int, str, obj, end, field}
use cryptogpt_one_intent_wal.Canonical.Checks.{Host}
use cryptogpt_one_intent_wal.Canonical.Bytes.{canonical_bytes, canonical_hash}
use cryptogpt_one_intent_wal.Domain.Checks.{
  Error, domain_error, runtime_error, raise_through, bounded_text, strict_int,
}
use cryptogpt_one_intent_wal.Domain.Capsule.{
  ExecutionCapsule, AuthorizationEnvelope, capsule_hash, capsule_validate, authorization_validate,
}
use cryptogpt_one_intent_wal.Domain.Store.{Store, Consumed, persistent, reserve}

pub data SignerState : Type 0 where
  ready signed_broadcast_unknown broadcast_accepted_unconfirmed confirmed : SignerState
  rejected_before_effect partial manual_resolution_required : SignerState

-- `_NEW_OPERATION_ALLOWED`
abbrev pub new_operation_allowed : SignerState → Bool
new_operation_allowed ready = true
new_operation_allowed confirmed = true
new_operation_allowed rejected_before_effect = true
new_operation_allowed _ = false

pub record SignerGate : Type 0 where
  pub store : Store
  pub require_durable_store : Bool
  pub state : SignerState
  pub last_signed_hash : Option String

-- the arguments of `sign`
pub record SignCall : Type 0 where
  pub capsule : ExecutionCapsule
  pub authorization : AuthorizationEnvelope
  pub release_go : Bool
  pub runtime_lease_valid : Bool
  pub now : ℤ
  pub fail_after_sign : Bool

module _ (host : Host) where
  -- the checks of `sign`, up to the reservation
  unfoldable pub sign_checks : SignCall → SignerGate → Result Error (Unit {0})
  sign_checks c gate = do
    strict_int (int c.now) (some (pos 0))
    guard c.release_go domain_error
    guard c.runtime_lease_valid domain_error
    guard (not gate.require_durable_store || persistent gate.store) domain_error
    guard (new_operation_allowed gate.state) domain_error
    capsule_validate host c.now c.capsule
    authorization_validate host c.now c.capsule c.authorization

  -- the row that a call reserves
  unfoldable pub consumed_by : SignCall → Result Error Consumed
  consumed_by c = do
    hash ← capsule_hash host c.capsule
    ok (record {
      authorization_id = c.authorization.authorization_id;
      nonce = c.authorization.nonce;
      operation_fingerprint = hash;
    })

  -- the signed bytes and their hash
  unfoldable pub signed_material : Consumed → Result Error (List ℕ × String)
  signed_material r = do
    signed ← raise_through (
        canonical_bytes host (
          obj (
            field "capsuleHash" (str r.operation_fingerprint)
              (field "authorizationId" (str r.authorization_id) end))))
    hash ←
        raise_through
          (canonical_hash host "signed-operation-v1" (obj (field "bytes" (str (hex signed)) end)))
    ok (signed, hash)

  -- the end of `sign`, once the reservation stands
  unfoldable pub finish_sign :
      Bool → Result Error (List ℕ × String) → SignerGate → Result Error (List ℕ) × SignerGate
  finish_sign fail_after_sign (err e) gate = (err e, gate)
  finish_sign true (ok (signed, hash)) gate = (
    err runtime_error,
    record gate { last_signed_hash = some hash; state = signed_broadcast_unknown },
  )
  finish_sign false (ok (signed, hash)) gate = (
    ok signed,
    record gate { last_signed_hash = some hash; state = broadcast_accepted_unconfirmed },
  )

  -- the reservation, and what follows it
  unfoldable pub reserve_and_sign :
      SignCall
      → Consumed
      → Result Error (Bool × Store)
      → SignerGate
      → Result Error (List ℕ) × SignerGate
  unfolding finish_sign
  reserve_and_sign c r (err e) gate = (err e, gate)
  reserve_and_sign c r (ok (false, store)) gate = (err domain_error, record gate { store = store })
  reserve_and_sign c r (ok (true, store)) gate =
      finish_sign c.fail_after_sign (signed_material r) (record gate { store = store })

  unfoldable pub sign_with :
      SignCall → Result Error Consumed → SignerGate → Result Error (List ℕ) × SignerGate
  unfolding reserve_and_sign
  sign_with c (err e) gate = (err e, gate)
  sign_with c (ok r) gate = reserve_and_sign c r (reserve host r gate.store) gate

  -- `SignerGate.sign`
  unfoldable pub sign : SignCall → SignerGate → Result Error (List ℕ) × SignerGate
  unfolding sign_with
  sign c gate = sign_with c (sign_checks c gate >> consumed_by c) gate

-- the dictionary `allowed`
abbrev pub outcome_state : String → Option SignerState
outcome_state outcome =
    if str_eq outcome "confirmed"
    then some confirmed
    else if str_eq outcome "rejected"
    then some rejected_before_effect
    else if str_eq outcome "partial"
    then some partial
    else if str_eq outcome "unknown"
    then some manual_resolution_required
    else none

abbrev pub is_partial : SignerState → Bool
is_partial partial = true
is_partial _ = false

abbrev pub reconcile_to :
    String → Option SignerState → SignerGate → Result Error SignerState × SignerGate
reconcile_to outcome none gate = (err domain_error, gate)
reconcile_to outcome (some state) gate =
    if new_operation_allowed gate.state
    then (err domain_error, gate)
    else if is_partial gate.state && str_eq outcome "rejected"
    then (err domain_error, gate)
    else (ok state, record gate { state = state })

-- `SignerGate.reconcile`
unfoldable pub reconcile : Host → String → SignerGate → Result Error SignerState × SignerGate
reconcile host outcome gate = elim (bounded_text host (str outcome) 32) [
  | err e ↦ (err e, gate)
  | ok _ ↦ reconcile_to outcome (outcome_state outcome) gate
]
