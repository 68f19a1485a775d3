-- ===== src/Domain/Tests.antt =====
-- The signer on a concrete capsule, and the theorems at it. The host is a stand-in: every text is in
-- NFC, and a digest is the length of what was hashed, modulo 256.
use Prim.Native.Nat.{◌%◌}
use mathlib.Core.List.{flat_map}
use cryptogpt_one_intent_wal.Base.{
  ◌≡◌, refl, true, false, some, none, [], ◌∷◌, ok, err, all, length,
}
use cryptogpt_one_intent_wal.Base.Int.{pos, ◌+ℤ◌, ◌-ℤ◌}
use cryptogpt_one_intent_wal.Base.Hex.{hex}
use cryptogpt_one_intent_wal.Canonical.Value.{str, end}
use cryptogpt_one_intent_wal.Canonical.Checks.{
  Host, validate_string, is_default_ignorable, visit, ensure_nfc,
}
use cryptogpt_one_intent_wal.Canonical.Decimal.{decimal_string, decimal_codes}
use cryptogpt_one_intent_wal.Canonical.Bytes.{
  ordered, dumps, canonical_bytes, canonical_hash, leb_units,
}
use cryptogpt_one_intent_wal.Domain.Checks.{bounded_text, strict_int, mapping, domain_error}
use cryptogpt_one_intent_wal.Domain.Capsule.{
  ExecutionCapsule, AuthorizationEnvelope, capsule_hash, all_bounded, recipient_is_bounded,
  capsule_validate, expected_proof_of_possession, authorization_validate,
}
use cryptogpt_one_intent_wal.Domain.Store.{
  Consumed, durable, collides, insert_consumed, add_to_sets, reserve,
}
use cryptogpt_one_intent_wal.Domain.Store.Agree.{
  durable_answers, memory_answers, no_sets, memory-eq-durable,
}
use cryptogpt_one_intent_wal.Domain.Gate.{
  SignerGate, SignCall, ready, partial, rejected_before_effect, new_operation_allowed, sign,
  sign_with, sign_checks, consumed_by, reserve_and_sign, finish_sign, signed_material, reconcile,
}
use cryptogpt_one_intent_wal.Domain.Gate.Signing.{Outcome, is_err, sign-Outcome}
use cryptogpt_one_intent_wal.Domain.Gate.Traces.{
  here, after_call, reconcile_call, HasSigned, returned, no_double_sign, run_signs,
  no_sign_while_waiting, partial_forgotten,
}

program : Unit {0}
unfolding validate_string is_default_ignorable visit ensure_nfc decimal_string decimal_codes ordered
    dumps canonical_bytes canonical_hash leb_units bounded_text strict_int mapping capsule_hash
    all_bounded recipient_is_bounded capsule_validate expected_proof_of_possession
    authorization_validate insert_consumed add_to_sets reserve sign sign_with sign_checks
    consumed_by reserve_and_sign finish_sign signed_material reconcile hex ◌+ℤ◌ ◌-ℤ◌ flat_map
    run_signs
program = tt

abbrev host : Host
host = record { is_nfc = λ _. true; sha256 = λ bytes. hex (length bytes % 256 ∷ []) }

abbrev capsule : ExecutionCapsule
capsule = record {
  operation_type = "transfer";
  account = "0xabc";
  device_id = "device-1";
  intent_commitment = "c";
  network = "hyperliquid:testnet";
  asset_id = "USDC";
  amount = "12.5";
  recipient = some "0xdef";
  ordered_actions = "approve" ∷ "transfer" ∷ [];
  registry_digest = "r";
  quote_id = "q";
  quote_digest = "qd";
  final_payload = end;
  expires_at = pos 200;
}

abbrev authorization : AuthorizationEnvelope
authorization = record {
  authorization_id = "auth-1";
  device_id = "device-1";
  account = "0xabc";
  capsule_hash = "45";
  operation_type = "transfer";
  issued_at = pos 100;
  expires_at = pos 150;
  nonce = "nonce-1";
  user_review_digest = "u";
  proof_of_possession = "77";
}

abbrev gate : SignerGate
gate = record {
  store = durable [];
  require_durable_store = true;
  state = ready;
  last_signed_hash = none;
}

abbrev call : SignCall
call = record {
  capsule = capsule;
  authorization = authorization;
  release_go = true;
  runtime_lease_valid = true;
  now = pos 110;
  fail_after_sign = false;
}

abbrev row : Consumed
row = record { authorization_id = "auth-1"; nonce = "nonce-1"; operation_fingerprint = "45" }

sign_returns_bytes : is_err (sign host call gate).0 ≡ false
unfolding program
sign_returns_bytes = refl

abbrev second_call : SignCall
second_call = record call {
  capsule = record capsule { amount = "7" };
  authorization = record authorization {
    authorization_id = "auth-2";
    capsule_hash = "42";
    nonce = "nonce-2";
  };
}

abbrev second_row : Consumed
second_row = record { authorization_id = "auth-2"; nonce = "nonce-2"; operation_fingerprint = "42" }

abbrev after_sign : SignerGate
after_sign = (sign host call gate).1

abbrev confirmed : SignerGate
confirmed = (reconcile host "confirmed" after_sign).1

first_waits : new_operation_allowed after_sign.state ≡ false
unfolding program
first_waits = refl

rows_test : (consumed_by host call ≡ ok row) × (consumed_by host second_call ≡ ok second_row)
unfolding program
rows_test = (refl, refl)

first_HasSigned : HasSigned host call gate
unfolding program
first_HasSigned = returned refl

second_HasSigned : HasSigned host second_call confirmed
unfolding program
second_HasSigned = returned refl

no_double_sign_example : collides second_row row ≡ false
no_double_sign_example =
    no_double_sign host call second_call row second_row rows_test.0 rows_test.1 first_HasSigned
      (after_call here (reconcile_call "confirmed")) second_HasSigned

sign-Outcome_example : Outcome host call gate (sign host call gate)
sign-Outcome_example = sign-Outcome host call gate

no_sign_while_waiting_example :
    (all is_err (run_signs host (second_call ∷ call ∷ []) after_sign).0 ≡ true)
    × ((run_signs host (second_call ∷ call ∷ []) after_sign).1.state ≡ after_sign.state)
    × ((run_signs host (second_call ∷ call ∷ []) after_sign).1.last_signed_hash
        ≡ after_sign.last_signed_hash)
no_sign_while_waiting_example =
    no_sign_while_waiting host (second_call ∷ call ∷ []) after_sign first_waits

abbrev partial_gate : SignerGate
partial_gate = record gate { state = partial }

short_text :
    (bounded_text host (str "unknown") 32 ≡ ok "unknown")
    × (bounded_text host (str "rejected") 32 ≡ ok "rejected")
unfolding program
short_text = (refl, refl)

partial_forgotten_example :
    (reconcile host "rejected" partial_gate ≡ (err domain_error, partial_gate))
    × ((reconcile host "rejected" (reconcile host "unknown" partial_gate).1).0
        ≡ ok rejected_before_effect)
    × (new_operation_allowed
          (reconcile host "rejected" (reconcile host "unknown" partial_gate).1).1.state
        ≡ true)
partial_forgotten_example = partial_forgotten host partial_gate (short_text.0) (short_text.1) refl

memory-eq-durable_example :
    durable_answers [] (row ∷ second_row ∷ row ∷ [])
    ≡ memory_answers no_sets (row ∷ second_row ∷ row ∷ [])
memory-eq-durable_example = memory-eq-durable (row ∷ second_row ∷ row ∷ [])
