-- ===== src/Domain/Saga/Traces.antt =====
-- A saga over any sequence of calls: its steps stay unique, a step is never lost or moved back, and a
-- repeated submission returns the step of the first.
use cryptogpt_one_intent_wal.Base.{
  ℕ, ◌≤◌, ◌≡◌, refl, String, true, none, some, List, [], ◌∷◌, ◌++◌, Result, ok, err, ◌∙◌, any, find,
  arith, inl, inr, Result-cases, Bool-cases, subst,
}
use cryptogpt_one_intent_wal.Base.RowLaws.{find-append, find-any}
use cryptogpt_one_intent_wal.Canonical.Value.{str}
use cryptogpt_one_intent_wal.Canonical.Checks.{Host}
use cryptogpt_one_intent_wal.Domain.Checks.{Error, bounded_text, max_text_field}
use cryptogpt_one_intent_wal.Domain.Saga.{
  SagaStepState, not_started, submitted, accepted, finalized, failed, unknown, SagaStep,
  DurableSaga, Submission, permitted, new_step, scan, new_saga, submission_texts, precondition_hash,
  submit, move_step, reconcile,
}
use cryptogpt_one_intent_wal.Domain.Saga.Unique.{
  IsUnique, has_key, Moved, hit, miss, moved, move_step-Moved, IsUnique-Moved, append-IsUnique,
  new_saga-IsUnique,
}

-- How far a step has come; the states of the last phase are settled.
abbrev pub phase : SagaStepState → ℕ
phase not_started = 0
phase submitted = 1
phase accepted = 2
phase unknown = 2
phase finalized = 3
phase failed = 3

-- `y` is `x` later: the same step in a phase that is no earlier, and the same state once settled.
pub record Continues (x y : SagaStep) : Type 0 where
  pub step_id : y.step_id ≡ x.step_id
  pub idempotency_key : y.idempotency_key ≡ x.idempotency_key
  pub external_reference : y.external_reference ≡ x.external_reference
  pub precondition_hash : y.precondition_hash ≡ x.precondition_hash
  pub no_earlier : phase x.state ≤ phase y.state
  pub settled : phase x.state ≡ 3 → y.state ≡ x.state

pub Continues-refl : (x : SagaStep) → Continues x x
Continues-refl x = record {
  step_id = refl;
  idempotency_key = refl;
  external_reference = refl;
  precondition_hash = refl;
  no_earlier = omega arith;
  settled = λ e. refl;
}

pub Continues-trans : {x y z : SagaStep} → Continues x y → Continues y z → Continues x z
Continues-trans {x} {y} {z} f g = record {
  step_id = g.step_id ∙ f.step_id;
  idempotency_key = g.idempotency_key ∙ f.idempotency_key;
  external_reference = g.external_reference ∙ f.external_reference;
  precondition_hash = g.precondition_hash ∙ f.precondition_hash;
  no_earlier = omega (arith, f.no_earlier, g.no_earlier);
  settled = λ e. g.settled (rw (f.settled e) e) ∙ f.settled e;
}

permitted-phase :
    (a b : SagaStepState) → permitted a b ≡ true → (phase a ≤ phase b) × (phase a ≡ 3 → b ≡ a)
permitted-phase a b h = ground arith

pub moved-Continues :
    (t : SagaStepState) (x : SagaStep) → permitted x.state t ≡ true → Continues x (moved t x)
moved-Continues t x may =
    let (no_earlier, settled) = permitted-phase x.state t may in
    record {
      step_id = refl;
      idempotency_key = refl;
      external_reference = refl;
      precondition_hash = refl;
      no_earlier = no_earlier;
      settled = settled;
    }

-- The step with the key `k` goes on, or it is the step that moved.
find-Moved :
    (k s : String) (t : SagaStepState) {xs ys : List SagaStep} {moved_step x : SagaStep}
    → Moved s t xs moved_step ys
    → find (has_key k) xs ≡ some x
    → (y : SagaStep) × (find (has_key k) ys ≡ some y) × Continues x y
find-Moved k s t {x} (hit z zs same may) e = elim (Bool-cases (has_key k z)) [
  | inl here ↦ (
    moved t z,
    rw here refl,
    subst (λ w. Continues w (moved t z)) (ground arith) (moved-Continues t z may),
  )
  | inr other ↦ (x, rw other (rw other at e), Continues-refl x)
]
find-Moved k s t {x} (miss z other m) e = elim (Bool-cases (has_key k z)) [
  | inl here ↦ (x, rw here (rw here at e), Continues-refl x)
  | inr apart ↦
      let (y, found, continues) = find-Moved k s t m (rw apart at e) in
      (y, rw apart found, continues)
]

module _ (host : Host) where
  -- Any call of the saga, whether it returns or raises.
  pub data SagaStepTo (saga : DurableSaga) : DurableSaga → Type 0 where
    submit_call : (c : Submission) → SagaStepTo saga (submit host c saga).1
    reconcile_call : (s : String) (t : SagaStepState) → SagaStepTo saga (reconcile host s t saga).1

  pub data SagaSteps (saga : DurableSaga) : DurableSaga → Type 0 where
    here : SagaSteps saga saga
    after_call :
        {next later : DurableSaga}
        → SagaSteps saga next
        → SagaStepTo next later
        → SagaSteps saga later

  -- What `submit` answers: an exception, the step that has the key, or a new step.
  pub data Submitted (c : Submission) (saga : DurableSaga)
      : Result Error SagaStep × DurableSaga → Type 0 where
    refused : (e : Error) → Submitted c saga (err e, saga)
    repeated :
        (x : SagaStep)
        → submission_texts host c ≡ ok tt
        → scan c saga.steps ≡ ok (some x)
        → Submitted c saga (ok x, saga)
    created :
        (hash : String)
        → submission_texts host c ≡ ok tt
        → scan c saga.steps ≡ ok none
        → Submitted c saga
            (ok (new_step c hash), record saga { steps = saga.steps ++ new_step c hash ∷ [] })

  pub submit-Submitted :
      (c : Submission) (saga : DurableSaga) → Submitted c saga (submit host c saga)
  unfolding submit
  submit-Submitted c saga = elim (Result-cases (submission_texts host c)) [
    | inr (e, bad) ↦ rw (submit, bad) (refused e)
    | inl (tt, texts) ↦ elim (Result-cases (scan c saga.steps)) [
      | inr (e, bad) ↦ rw (submit, texts, bad) (refused e)
      | inl (some x, found) ↦ rw (submit, texts, found) (repeated x texts found)
      | inl (none, fresh) ↦ elim (Result-cases (precondition_hash host saga.operation_id c)) [
        | inr (e, bad) ↦ rw (submit, texts, fresh, bad) (refused e)
        | inl (hash, good) ↦ rw (submit, texts, fresh, good) (created hash texts fresh)
      ]
    ]
  ]

  -- What `reconcile` answers: an exception, or the step that moved.
  pub data Reconciled (s : String) (t : SagaStepState) (saga : DurableSaga)
      : Result Error SagaStep × DurableSaga → Type 0 where
    unmoved : (e : Error) → Reconciled s t saga (err e, saga)
    one_moved :
        (x : SagaStep) (steps : List SagaStep)
        → Moved s t saga.steps x steps
        → Reconciled s t saga (ok x, record saga { steps = steps })

  pub reconcile-Reconciled :
      (s : String) (t : SagaStepState) (saga : DurableSaga)
      → Reconciled s t saga (reconcile host s t saga)
  unfolding reconcile
  reconcile-Reconciled s t saga = elim (Result-cases (bounded_text host (str s) max_text_field)) [
    | inr (e, bad) ↦ rw (reconcile, bad) (unmoved e)
    | inl (u, texts) ↦ elim (Result-cases (move_step s t saga.steps)) [
      | inr (e, bad) ↦ rw (reconcile, texts, bad) (unmoved e)
      | inl ((x, steps), good) ↦
          rw (reconcile, texts, good) (one_moved x steps (move_step-Moved s t saga.steps good))
    ]
  ]

  IsUnique-submit :
      (c : Submission) (saga : DurableSaga) {out : Result Error SagaStep × DurableSaga}
      → Submitted c saga out
      → IsUnique saga.steps
      → IsUnique out.1.steps
  IsUnique-submit c saga (refused e) u = u
  IsUnique-submit c saga (repeated x texts found) u = u
  IsUnique-submit c saga (created hash texts fresh) u = append-IsUnique c hash saga.steps fresh u

  IsUnique-reconcile :
      (s : String) (t : SagaStepState) (saga : DurableSaga)
      {out : Result Error SagaStep × DurableSaga}
      → Reconciled s t saga out
      → IsUnique saga.steps
      → IsUnique out.1.steps
  IsUnique-reconcile s t saga (unmoved e) u = u
  IsUnique-reconcile s t saga (one_moved x steps m) u = IsUnique-Moved s t m u

  pub IsUnique-steps :
      {saga later : DurableSaga} → SagaSteps saga later → IsUnique saga.steps → IsUnique later.steps
  IsUnique-steps here u = u
  IsUnique-steps (after_call {next} calls (submit_call c)) u =
      IsUnique-submit c next (submit-Submitted c next) (IsUnique-steps calls u)
  IsUnique-steps (after_call {next} calls (reconcile_call s t)) u =
      IsUnique-reconcile s t next (reconcile-Reconciled s t next) (IsUnique-steps calls u)

  -- From a saga that the constructor has accepted, no calls give two steps one id or one key.
  pub no_step_is_repeated :
      (operation_id : String) (steps : List SagaStep) {saga later : DurableSaga}
      → new_saga host operation_id steps ≡ ok saga
      → SagaSteps saga later
      → IsUnique later.steps
  no_step_is_repeated operation_id steps made calls =
      IsUnique-steps calls (new_saga-IsUnique host operation_id steps made)

  abbrev Kept : String → SagaStep → List SagaStep → Type 0
  Kept key x later = (y : SagaStep) × (find (has_key key) later ≡ some y) × Continues x y

  Kept-submit :
      (key : String) (c : Submission) (saga : DurableSaga)
      {out : Result Error SagaStep × DurableSaga} {x : SagaStep}
      → Submitted c saga out
      → find (has_key key) saga.steps ≡ some x
      → Kept key x out.1.steps
  Kept-submit key c saga {x = x} (refused e) f = (x, f, Continues-refl x)
  Kept-submit key c saga {x = x} (repeated y texts found) f = (x, f, Continues-refl x)
  Kept-submit key c saga {x = x} (created hash texts fresh) f =
      let seen : any (has_key key) saga.steps ≡ true = find-any (has_key key) saga.steps x f in
      (
        x,
        rw (find-append (has_key key) saga.steps (new_step c hash ∷ []), seen, f) refl,
        Continues-refl x,
      )

  Kept-reconcile :
      (key s : String) (t : SagaStepState) (saga : DurableSaga)
      {out : Result Error SagaStep × DurableSaga} {x : SagaStep}
      → Reconciled s t saga out
      → find (has_key key) saga.steps ≡ some x
      → Kept key x out.1.steps
  Kept-reconcile key s t saga {x = x} (unmoved e) f = (x, f, Continues-refl x)
  Kept-reconcile key s t saga (one_moved y steps m) f = find-Moved key s t m f

  Kept-call :
      (key : String) {saga later : DurableSaga} {x : SagaStep}
      → SagaStepTo saga later
      → find (has_key key) saga.steps ≡ some x
      → Kept key x later.steps
  Kept-call key {saga} (submit_call c) f = Kept-submit key c saga (submit-Submitted c saga) f
  Kept-call key {saga} (reconcile_call s t) f =
      Kept-reconcile key s t saga (reconcile-Reconciled s t saga) f

  -- Whatever calls a saga sees, the step of a key stays, with its id, reference and hash; it never
  -- goes back to an earlier phase, and a finalized or failed step keeps its state.
  pub steps_only_advance :
      (key : String) {saga later : DurableSaga} {x : SagaStep}
      → SagaSteps saga later
      → find (has_key key) saga.steps ≡ some x
      → (y : SagaStep) × (find (has_key key) later.steps ≡ some y) × Continues x y
  steps_only_advance key {x = x} here f = (x, f, Continues-refl x)
  steps_only_advance key (after_call calls call) f =
      let (y, found, first) = steps_only_advance key calls f in
      let (z, last, second) = Kept-call key call found in (z, last, Continues-trans first second)
