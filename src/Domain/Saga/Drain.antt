-- ===== src/Domain/Saga/Drain.antt =====
-- The pending steps of a saga can always be settled: `pending_states` can be brought to the empty list.
use cryptogpt_one_intent_wal.Base.{
  ℕ, zero, suc, ◌≡◌, refl, String, Bool, true, false, List, [], ◌∷◌, str_eq, Result, ok, arith, inl,
  inr, Bool-cases, eq_refl, eq_iff, subst, any, All, count_where, map, select, Result-cases,
}
use cryptogpt_one_intent_wal.Base.RowLaws.{Distinct, All-append}
use cryptogpt_one_intent_wal.Canonical.Value.{str}
use cryptogpt_one_intent_wal.Canonical.Checks.{Host}
use cryptogpt_one_intent_wal.Domain.Checks.{Error, bounded_text, max_text_field}
use cryptogpt_one_intent_wal.Domain.Saga.{
  SagaStepState, finalized, SagaStep, DurableSaga, Submission, new_step, submission_texts,
  reconcile, permitted, is_pending, pending_states, move_step, check_steps, new_saga, step_texts,
}
use cryptogpt_one_intent_wal.Domain.Saga.Unique.{
  Moved, hit, miss, moved, has_id, new_saga-IsUnique, IsUnique,
}
use cryptogpt_one_intent_wal.Domain.Saga.Traces.{
  Submitted, refused, repeated, created, submit-Submitted, Reconciled, unmoved, one_moved,
  reconcile-Reconciled, SagaStepTo, submit_call, reconcile_call, SagaSteps, here, after_call,
  IsUnique-steps,
}

abbrev waits : SagaStep → Bool
waits x = is_pending x.state

pending-finalized : (t : SagaStepState) → is_pending t ≡ true → permitted t finalized ≡ true
pending-finalized t h = ground arith

-- One pending step can be finalized, and leaves one fewer.
pub record OneFewer (n : ℕ) (xs : List SagaStep) : Type 0 where
  pub step_id : String
  pub result : SagaStep
  pub later : List SagaStep
  pub named : any (has_id step_id) xs ≡ true
  pub moves : move_step step_id finalized xs ≡ ok (result, later)
  pub fewer : count_where waits later ≡ n

finalize_head :
    (n : ℕ) (x : SagaStep) (xs : List SagaStep)
    → waits x ≡ true
    → count_where waits (x ∷ xs) ≡ suc n
    → OneFewer n (x ∷ xs)
unfolding move_step
finalize_head n x xs pending h = record {
  step_id = x.step_id;
  result = moved finalized x;
  later = moved finalized x ∷ xs;
  named = rw (eq_refl x.step_id) refl;
  moves = rw (move_step, eq_refl x.step_id, pending-finalized x.state pending) refl;
  fewer = ground arith;
}

finalize_later :
    (n : ℕ) (x : SagaStep) (xs : List SagaStep)
    → waits x ≡ false
    → any (has_id x.step_id) xs ≡ false
    → OneFewer n xs
    → OneFewer n (x ∷ xs)
unfolding move_step
finalize_later n x xs settled apart o =
    let other : str_eq x.step_id o.step_id ≡ false =
      elim (Bool-cases (str_eq x.step_id o.step_id)) [
        | inr differ ↦ differ
        | inl same ↦ absurd (
            cc (
              subst (λ s. any (has_id s) xs ≡ false) ((eq_iff x.step_id o.step_id).0 same) apart,
              o.named,
            ))
      ] in
    record {
      step_id = o.step_id;
      result = o.result;
      later = x ∷ o.later;
      named = rw (other, o.named) refl;
      moves = rw (move_step, other, o.moves) refl;
      fewer = rw (settled, o.fewer) (omega arith);
    }

finalize_one :
    (n : ℕ) (xs : List SagaStep)
    → Distinct (λ x. x.step_id) xs
    → count_where waits xs ≡ suc n
    → OneFewer n xs
finalize_one n [] d h = absurd (omega arith)
finalize_one n (x ∷ xs) d h = elim (Bool-cases (waits x)) [
  | inl pending ↦ finalize_head n x xs pending h
  | inr settled ↦ finalize_later n x xs settled (d.0) (finalize_one n xs (d.1) (ground arith))
]

no_pending :
    (xs : List SagaStep) → count_where waits xs ≡ 0 → map (λ x. x.step_id) (select waits xs) ≡ []
no_pending [] h = refl
no_pending (x ∷ xs) h = ground (arith, no_pending xs)

module _ (host : Host) where
  -- The text passes the check that `reconcile` makes of a step id.
  abbrev IsText : String → Type 0
  IsText s = (t : String) × (bounded_text host (str s) max_text_field ≡ ok t)

  abbrev HasText : SagaStep → Type 0
  HasText x = IsText x.step_id

  check_steps-HasText :
      (ids keys : List String) (xs : List SagaStep)
      → check_steps host ids keys xs ≡ ok tt
      → All HasText xs
  unfolding check_steps step_texts
  check_steps-HasText ids keys [] h = tt
  check_steps-HasText ids keys (x ∷ xs) h =
      elim (Result-cases (bounded_text host (str x.step_id) max_text_field)) [
        | inl text ↦ (
          text,
          check_steps-HasText (x.step_id ∷ ids) (x.idempotency_key ∷ keys) xs (ground arith),
        )
        | inr (e, bad) ↦ absurd (ground arith)
      ]

  new_saga-HasText :
      (operation_id : String) (xs : List SagaStep) {saga : DurableSaga}
      → new_saga host operation_id xs ≡ ok saga
      → All HasText saga.steps
  unfolding new_saga
  new_saga-HasText operation_id xs {saga} h =
      let checked : check_steps host [] [] xs ≡ ok tt = ground arith in
      let steps : saga.steps ≡ xs = ground arith in rw steps (check_steps-HasText [] [] xs checked)

  submission-IsText : (c : Submission) → submission_texts host c ≡ ok tt → IsText c.step_id
  unfolding submission_texts
  submission-IsText c h = elim (Result-cases (bounded_text host (str c.step_id) max_text_field)) [
    | inl text ↦ text
    | inr (e, bad) ↦ absurd (ground arith)
  ]

  HasText-submit :
      (c : Submission) (saga : DurableSaga) {out : Result Error SagaStep × DurableSaga}
      → Submitted host c saga out
      → All HasText saga.steps
      → All HasText out.1.steps
  HasText-submit c saga (refused e) h = h
  HasText-submit c saga (repeated x texts found) h = h
  HasText-submit c saga (created hash texts fresh) h =
      All-append HasText saga.steps (new_step c hash ∷ []) h (submission-IsText c texts, tt)

  HasText-Moved :
      (s : String) (t : SagaStepState) {xs ys : List SagaStep} {x : SagaStep}
      → Moved s t xs x ys
      → All HasText xs
      → All HasText ys
  HasText-Moved s t (hit x xs same may) h = h
  HasText-Moved s t (miss x other m) h = (h.0, HasText-Moved s t m (h.1))

  HasText-reconcile :
      (s : String) (t : SagaStepState) (saga : DurableSaga)
      {out : Result Error SagaStep × DurableSaga}
      → Reconciled host s t saga out
      → All HasText saga.steps
      → All HasText out.1.steps
  HasText-reconcile s t saga (unmoved e) h = h
  HasText-reconcile s t saga (one_moved x steps m) h = HasText-Moved s t m h

  HasText-steps :
      {saga later : DurableSaga}
      → SagaSteps host saga later
      → All HasText saga.steps
      → All HasText later.steps
  HasText-steps here h = h
  HasText-steps (after_call {next} calls (submit_call c)) h =
      HasText-submit c next (submit-Submitted host c next) (HasText-steps calls h)
  HasText-steps (after_call {next} calls (reconcile_call s t)) h =
      HasText-reconcile s t next (reconcile-Reconciled host s t next) (HasText-steps calls h)

  named-IsText :
      (s : String) (xs : List SagaStep) → All HasText xs → any (has_id s) xs ≡ true → IsText s
  named-IsText s [] h n = cc
  named-IsText s (x ∷ xs) h n = elim (Bool-cases (has_id s x)) [
    | inl same ↦ subst IsText ((eq_iff x.step_id s).0 same) (h.0)
    | inr other ↦ named-IsText s xs (h.1) (ground arith)
  ]

  reconcile-eq :
      (s : String) (t : SagaStepState) (saga : DurableSaga) {x : SagaStep} {steps : List SagaStep}
      → IsText s
      → move_step s t saga.steps ≡ ok (x, steps)
      → (reconcile host s t saga).1 ≡ record saga { steps = steps }
  unfolding reconcile
  reconcile-eq s t saga (u, text) e = rw (reconcile, text, e) refl

  -- `n` calls of `reconcile` settle `n` pending steps.
  settle :
      (n : ℕ) {origin : DurableSaga} (saga : DurableSaga)
      → SagaSteps host origin saga
      → IsUnique saga.steps
      → All HasText saga.steps
      → count_where waits saga.steps ≡ n
      → (later : DurableSaga) × SagaSteps host origin later × (pending_states later ≡ [])
  unfolding pending_states
  settle zero saga calls u h e = (saga, calls, no_pending saga.steps e)
  settle (suc n) saga calls u h e =
      let o = finalize_one n saga.steps u.ids e in
      let next = record saga { steps = o.later } in
      let done : (reconcile host o.step_id finalized saga).1 ≡ next =
        reconcile-eq o.step_id finalized saga (named-IsText o.step_id saga.steps h o.named)
          o.moves in
      let call : SagaStepTo host saga next =
        subst (λ g. SagaStepTo host saga g) done (reconcile_call o.step_id finalized) in
      settle n next (after_call calls call) (IsUnique-steps host (after_call here call) u)
        (HasText-steps (after_call here call) h) o.fewer

  -- From a saga that the constructor has accepted, after any calls, some further calls leave no
  -- step pending.
  pub pending_steps_can_settle :
      (operation_id : String) (steps : List SagaStep) {saga now : DurableSaga}
      → new_saga host operation_id steps ≡ ok saga
      → SagaSteps host saga now
      → (later : DurableSaga) × SagaSteps host now later × (pending_states later ≡ [])
  pending_steps_can_settle operation_id steps {saga} {now} made calls =
      let accepted = new_saga-HasText operation_id steps made in
      settle (count_where waits now.steps) now here
        (IsUnique-steps host calls (new_saga-IsUnique host operation_id steps made))
        (HasText-steps calls accepted) refl
