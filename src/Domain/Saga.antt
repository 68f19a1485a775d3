-- ===== src/Domain/Saga.antt =====
-- `DurableSaga` of shared/domain.py and `Reconciler` of services/reconciler: the steps that a saga
-- has submitted, and what the authoritative states make of them. A call returns its result or
-- exception beside the saga; a step that the source returns by reference is returned as a value.
pub mod Unique
pub mod Traces
pub mod Idempotent
pub mod Drain
mod Tests
use cryptogpt_one_intent_wal.Base.{
  String, Bool, true, false, ◌&&◌, ◌||◌, not, Option, none, some, List, [], ◌∷◌, ◌++◌, map, str_eq,
  if◌then◌else◌, Result, ok, err, ◌>>=◌, ◌>>◌, guard, select,
}
use cryptogpt_one_intent_wal.Canonical.Value.{Value, str, obj, end, field}
use cryptogpt_one_intent_wal.Canonical.Checks.{Host}
use cryptogpt_one_intent_wal.Canonical.Bytes.{canonical_hash}
use cryptogpt_one_intent_wal.Domain.Checks.{
  Error, domain_error, value_error, raise_through, bounded_text, max_text_field,
}
use cryptogpt_one_intent_wal.Domain.Store.{contains}

pub data SagaStepState : Type 0 where
  not_started submitted accepted finalized failed unknown : SagaStepState

pub record SagaStep : Type 0 where
  pub step_id : String
  pub idempotency_key : String
  pub state : SagaStepState
  pub external_reference : Option String
  pub precondition_hash : String

pub record DurableSaga : Type 0 where
  pub operation_id : String
  pub steps : List SagaStep

-- the dictionary `transitions`
abbrev pub permitted : SagaStepState → SagaStepState → Bool
permitted not_started submitted = true
permitted not_started failed = true
permitted not_started _ = false
permitted submitted not_started = false
permitted submitted submitted = false
permitted submitted _ = true
permitted accepted finalized = true
permitted accepted failed = true
permitted accepted unknown = true
permitted accepted _ = false
permitted unknown not_started = false
permitted unknown submitted = false
permitted unknown _ = true
permitted finalized finalized = true
permitted finalized _ = false
permitted failed failed = true
permitted failed _ = false

module _ (host : Host) where
  unfoldable pub step_texts : SagaStep → Result Error (Unit {0})
  step_texts x = do
    bounded_text host (str x.step_id) max_text_field
    bounded_text host (str x.idempotency_key) max_text_field
    ok tt

  -- the loop of `__post_init__`, with its two sets
  unfoldable pub check_steps : List String → List String → List SagaStep → Result Error (Unit {0})
  check_steps seen_steps seen_keys [] = ok tt
  check_steps seen_steps seen_keys (x ∷ xs) =
      step_texts x
      >> guard (not (contains x.step_id seen_steps || contains x.idempotency_key seen_keys))
          domain_error
      >> check_steps (x.step_id ∷ seen_steps) (x.idempotency_key ∷ seen_keys) xs

  -- `DurableSaga(operation_id, steps)`
  unfoldable pub new_saga : String → List SagaStep → Result Error DurableSaga
  unfolding check_steps
  new_saga operation_id steps = do
    bounded_text host (str operation_id) max_text_field
    check_steps [] [] steps
    ok (record { operation_id = operation_id; steps = steps })

-- the arguments of `submit`
pub record Submission : Type 0 where
  pub step_id : String
  pub idempotency_key : String
  pub external_reference : String

-- `self.external_reference == external_reference`
abbrev pub refers_to : Option String → String → Bool
refers_to none s = false
refers_to (some r) s = str_eq r s

-- the loop of `submit`: the step that the key has, if any
unfoldable pub scan : Submission → List SagaStep → Result Error (Option SagaStep)
scan c [] = ok none
scan c (x ∷ xs) =
    let rest = scan c xs in
    if str_eq x.idempotency_key c.idempotency_key
    then (if not (str_eq x.step_id c.step_id)
          || not (refers_to x.external_reference c.external_reference)
        then err domain_error
        else ok (some x))
    else if str_eq x.step_id c.step_id
    then err domain_error
    else rest

abbrev precondition : String → Submission → Value
precondition operation_id c = obj (
    field "operationId" (str operation_id) (
      field "stepId" (str c.step_id) (
        field "idempotencyKey" (str c.idempotency_key)
          (field "externalReference" (str c.external_reference) end))))

abbrev pub new_step : Submission → String → SagaStep
new_step c hash = record {
  step_id = c.step_id;
  idempotency_key = c.idempotency_key;
  state = submitted;
  external_reference = some c.external_reference;
  precondition_hash = hash;
}

module _ (host : Host) where
  unfoldable pub submission_texts : Submission → Result Error (Unit {0})
  submission_texts c = do
    bounded_text host (str c.step_id) max_text_field
    bounded_text host (str c.idempotency_key) max_text_field
    bounded_text host (str c.external_reference) 512
    ok tt

  unfoldable pub precondition_hash : String → Submission → Result Error String
  precondition_hash operation_id c =
      raise_through (canonical_hash host "saga-precondition-v1" (precondition operation_id c))

  abbrev pub append_step :
      Submission → DurableSaga → Result Error String → Result Error SagaStep × DurableSaga
  append_step c saga (err e) = (err e, saga)
  append_step c saga (ok hash) =
      (ok (new_step c hash), record saga { steps = saga.steps ++ new_step c hash ∷ [] })

  abbrev pub submit_found :
      Submission
      → DurableSaga
      → Result Error (Option SagaStep)
      → Result Error SagaStep × DurableSaga
  submit_found c saga (err e) = (err e, saga)
  submit_found c saga (ok (some x)) = (ok x, saga)
  submit_found c saga (ok none) = append_step c saga (precondition_hash saga.operation_id c)

  -- `DurableSaga.submit`
  unfoldable pub submit : Submission → DurableSaga → Result Error SagaStep × DurableSaga
  submit c saga = submit_found c saga (submission_texts c >> scan c saga.steps)

-- the loop of `reconcile`: the first step with the id gets the state, if it may
unfoldable pub move_step :
    String → SagaStepState → List SagaStep → Result Error (SagaStep × List SagaStep)
move_step step_id state [] = err domain_error
move_step step_id state (x ∷ xs) =
    let rest = move_step step_id state xs in
    if str_eq x.step_id step_id
    then (if permitted x.state state
        then ok (record x { state = state }, record x { state = state } ∷ xs)
        else err domain_error)
    else (rest >>= λ r. ok (r.0, x ∷ r.1))

abbrev pub store_moved :
    DurableSaga → Result Error (SagaStep × List SagaStep) → Result Error SagaStep × DurableSaga
store_moved saga (err e) = (err e, saga)
store_moved saga (ok (x, steps)) = (ok x, record saga { steps = steps })

-- `DurableSaga.reconcile`
unfoldable pub reconcile :
    Host → String → SagaStepState → DurableSaga → Result Error SagaStep × DurableSaga
reconcile host step_id state saga =
    store_moved saga
      (bounded_text host (str step_id) max_text_field >> move_step step_id state saga.steps)

-- the values of the enumeration, and `SagaStepState(text)`
abbrev pub state_value : SagaStepState → String
state_value not_started = "NOT_STARTED"
state_value submitted = "SUBMITTED"
state_value accepted = "ACCEPTED"
state_value finalized = "FINALIZED"
state_value failed = "FAILED"
state_value unknown = "UNKNOWN"

abbrev pub state_of : String → Option SagaStepState
state_of s =
    if str_eq s "NOT_STARTED"
    then some not_started
    else if str_eq s "SUBMITTED"
    then some submitted
    else if str_eq s "ACCEPTED"
    then some accepted
    else if str_eq s "FINALIZED"
    then some finalized
    else if str_eq s "FAILED"
    then some failed
    else if str_eq s "UNKNOWN"
    then some unknown
    else none

abbrev pub update_parsed :
    Host → String → Option SagaStepState → DurableSaga → Result Error String × DurableSaga
update_parsed host step_id none saga = (err value_error, saga)
update_parsed host step_id (some state) saga =
    let (result, saga') = reconcile host step_id state saga in
    ((result >>= λ x. ok (state_value x.state)), saga')

-- `Reconciler.authoritative_update`
unfoldable pub authoritative_update :
    Host → String → String → DurableSaga → Result Error String × DurableSaga
authoritative_update host step_id state saga = update_parsed host step_id (state_of state) saga

abbrev pub is_pending : SagaStepState → Bool
is_pending unknown = true
is_pending submitted = true
is_pending accepted = true
is_pending _ = false

-- `Reconciler.pending_states`
unfoldable pub pending_states : DurableSaga → List String
pending_states saga = map (λ x. x.step_id) (select (λ x. is_pending x.state) saga.steps)
