-- ===== src/Domain/Saga/Tests.antt =====
-- A saga of one step and its calls, and the theorems at it. The host is a stand-in: every text is in
-- NFC, and every digest is one text.
use mathlib.Core.List.{flat_map}
use cryptogpt_one_intent_wal.Base.{◌≡◌, refl, some, [], ◌∷◌, ok, err, true, map, find}
use cryptogpt_one_intent_wal.Canonical.Checks.{
  Host, validate_string, is_default_ignorable, visit, ensure_nfc,
}
use cryptogpt_one_intent_wal.Canonical.Bytes.{
  ordered, dumps, canonical_bytes, canonical_hash, leb_units,
}
use cryptogpt_one_intent_wal.Domain.Checks.{bounded_text, domain_error}
use cryptogpt_one_intent_wal.Domain.Saga.{
  SagaStep, DurableSaga, Submission, unknown, submitted, new_saga, check_steps, step_texts,
  submission_texts, precondition_hash, scan, submit, move_step, reconcile, authoritative_update,
  pending_states,
}
use cryptogpt_one_intent_wal.Domain.Saga.Unique.{IsUnique, has_key}
use cryptogpt_one_intent_wal.Domain.Saga.Traces.{
  Continues, SagaSteps, here, after_call, submit_call, reconcile_call, no_step_is_repeated,
  steps_only_advance,
}
use cryptogpt_one_intent_wal.Domain.Saga.Idempotent.{submit_is_idempotent}
use cryptogpt_one_intent_wal.Domain.Saga.Drain.{pending_steps_can_settle}

program : Unit {0}
unfolding validate_string is_default_ignorable visit ensure_nfc ordered dumps canonical_bytes
    canonical_hash leb_units bounded_text flat_map new_saga check_steps step_texts submission_texts
    precondition_hash scan submit move_step reconcile authoritative_update pending_states
program = tt

abbrev host : Host
host = record { is_nfc = λ _. true; sha256 = λ _. "digest" }

abbrev empty_saga : DurableSaga
empty_saga = record { operation_id = "op-1"; steps = [] }

abbrev transfer : Submission
transfer = record { step_id = "bridge"; idempotency_key = "key-1"; external_reference = "ref-1" }

abbrev other_reference : Submission
other_reference = record transfer { external_reference = "ref-2" }

abbrev after_submit : DurableSaga
after_submit = (submit host transfer empty_saga).1

abbrev after_unknown : DurableSaga
after_unknown = (reconcile host "bridge" unknown after_submit).1

-- the statuses of a run: submitted, then unknown, then finalized, and no way back
run :
    (map (λ x. x.state) after_submit.steps ≡ submitted ∷ [])
    × (pending_states after_unknown ≡ "bridge" ∷ [])
    × ((authoritative_update host "bridge" "FINALIZED" after_unknown).0 ≡ ok "FINALIZED")
    × ((reconcile host "bridge" submitted after_unknown).0 ≡ err domain_error)
    × ((submit host other_reference after_unknown).0 ≡ err domain_error)
unfolding program
run = (refl, refl, refl, refl, refl)

calls : SagaSteps host empty_saga after_unknown
calls = after_call (after_call here (submit_call transfer)) (reconcile_call "bridge" unknown)

made : new_saga host "op-1" [] ≡ ok empty_saga
unfolding program
made = refl

abbrev first_step : SagaStep
first_step = record {
  step_id = "bridge";
  idempotency_key = "key-1";
  state = submitted;
  external_reference = some "ref-1";
  precondition_hash = "digest";
}

returned : (submit host transfer empty_saga).0 ≡ ok first_step
unfolding program
returned = refl

later_call : SagaSteps host after_submit after_unknown
later_call = after_call here (reconcile_call "bridge" unknown)

found : find (has_key "key-1") after_submit.steps ≡ some first_step
unfolding program
found = refl

no_step_is_repeated_example : IsUnique after_unknown.steps
no_step_is_repeated_example = no_step_is_repeated host "op-1" [] made calls

steps_only_advance_example :
    (y : SagaStep) × (find (has_key "key-1") after_unknown.steps ≡ some y) × Continues first_step y
steps_only_advance_example = steps_only_advance host "key-1" later_call found

submit_is_idempotent_example :
    (y : SagaStep) × (submit host transfer after_unknown ≡ (ok y, after_unknown))
    × Continues first_step y
submit_is_idempotent_example = submit_is_idempotent host transfer empty_saga returned later_call

pending_steps_can_settle_example :
    (later : DurableSaga) × SagaSteps host after_unknown later × (pending_states later ≡ [])
pending_steps_can_settle_example = pending_steps_can_settle host "op-1" [] made calls
