-- ===== src/Domain/Saga/Idempotent.antt =====
-- A submission that is made again, after any calls, returns the step of the first.
use cryptogpt_one_intent_wal.Base.{
  ◌≡◌, refl, String, true, none, some, List, [], ◌∷◌, ◌++◌, str_eq, Result, ok, arith, inl, inr,
  Bool-cases, eq_refl, subst, ok-injective, ap, ◌∙◌,
}
use cryptogpt_one_intent_wal.Canonical.Checks.{Host}
use cryptogpt_one_intent_wal.Domain.Checks.{Error}
use cryptogpt_one_intent_wal.Domain.Saga.{
  SagaStepState, SagaStep, DurableSaga, Submission, new_step, scan, submission_texts, submit,
  permitted,
}
use cryptogpt_one_intent_wal.Domain.Saga.Unique.{Moved, hit, miss, moved}
use cryptogpt_one_intent_wal.Domain.Saga.Traces.{
  Continues, Continues-refl, Continues-trans, moved-Continues, Submitted, refused, repeated,
  created, submit-Submitted, Reconciled, unmoved, one_moved, reconcile-Reconciled, SagaStepTo,
  submit_call, reconcile_call, SagaSteps, here, after_call,
}

scan-append :
    (c : Submission) (xs ys : List SagaStep) (x : SagaStep)
    → scan c xs ≡ ok (some x)
    → scan c (xs ++ ys) ≡ ok (some x)
unfolding scan
scan-append c [] ys x h = cc
scan-append c (z ∷ xs) ys x h = ground (arith, scan-append c xs ys x)

scan-created :
    (c : Submission) (hash : String) (xs : List SagaStep)
    → scan c xs ≡ ok none
    → scan c (xs ++ new_step c hash ∷ []) ≡ ok (some (new_step c hash))
unfolding scan
scan-created c hash [] h =
    rw (eq_refl c.idempotency_key, eq_refl c.step_id, eq_refl c.external_reference) refl
scan-created c hash (z ∷ xs) h = ground (arith, scan-created c hash xs)

abbrev Scanned : Submission → SagaStep → List SagaStep → Type 0
Scanned c x later = (y : SagaStep) × (scan c later ≡ ok (some y)) × Continues x y

-- the scan stops at a step of which only the state moves
scan-hit :
    (c : Submission) (t : SagaStepState) (z x : SagaStep) (xs : List SagaStep)
    → permitted z.state t ≡ true
    → scan c (z ∷ xs) ≡ ok (some x)
    → Scanned c x (moved t z ∷ xs)
unfolding scan
scan-hit c t z x xs may h = elim (Bool-cases (str_eq z.idempotency_key c.idempotency_key)) [
  | inl key ↦ (
    moved t z,
    ground arith,
    subst (λ w. Continues w (moved t z)) (ground arith) (moved-Continues t z may),
  )
  | inr other ↦ (x, ground arith, Continues-refl x)
]

scan-Moved :
    (c : Submission) (s : String) (t : SagaStepState) {xs ys : List SagaStep} {w x : SagaStep}
    → Moved s t xs w ys
    → scan c xs ≡ ok (some x)
    → Scanned c x ys
unfolding scan
scan-Moved c s t {x = x} (hit z xs same may) h = scan-hit c t z x xs may h
scan-Moved c s t {x = x} (miss z {xs = xs} {ys = ys} other m) h =
    elim (Bool-cases (str_eq z.idempotency_key c.idempotency_key)) [
      | inl key ↦ (x, ground arith, Continues-refl x)
      | inr apart ↦
          let rest : scan c xs ≡ ok (some x) = ground arith in
          let (y, found, continues) = scan-Moved c s t m rest in (y, ground arith, continues)
    ]

module _ (host : Host) where
  scan-submit :
      (c d : Submission) (saga : DurableSaga) {out : Result Error SagaStep × DurableSaga}
      {x : SagaStep}
      → Submitted host d saga out
      → scan c saga.steps ≡ ok (some x)
      → Scanned c x out.1.steps
  scan-submit c d saga {x = x} (refused e) h = (x, h, Continues-refl x)
  scan-submit c d saga {x = x} (repeated y texts found) h = (x, h, Continues-refl x)
  scan-submit c d saga {x = x} (created hash texts fresh) h =
      (x, scan-append c saga.steps (new_step d hash ∷ []) x h, Continues-refl x)

  scan-reconcile :
      (c : Submission) (s : String) (t : SagaStepState) (saga : DurableSaga)
      {out : Result Error SagaStep × DurableSaga} {x : SagaStep}
      → Reconciled host s t saga out
      → scan c saga.steps ≡ ok (some x)
      → Scanned c x out.1.steps
  scan-reconcile c s t saga {x = x} (unmoved e) h = (x, h, Continues-refl x)
  scan-reconcile c s t saga (one_moved y steps m) h = scan-Moved c s t m h

  scan-call :
      (c : Submission) {saga later : DurableSaga} {x : SagaStep}
      → SagaStepTo host saga later
      → scan c saga.steps ≡ ok (some x)
      → Scanned c x later.steps
  scan-call c {saga} (submit_call d) h = scan-submit c d saga (submit-Submitted host d saga) h
  scan-call c {saga} (reconcile_call s t) h =
      scan-reconcile c s t saga (reconcile-Reconciled host s t saga) h

  scan-calls :
      (c : Submission) {saga later : DurableSaga} {x : SagaStep}
      → SagaSteps host saga later
      → scan c saga.steps ≡ ok (some x)
      → Scanned c x later.steps
  scan-calls c {x = x} here h = (x, h, Continues-refl x)
  scan-calls c (after_call calls call) h =
      let (y, found, first) = scan-calls c calls h in
      let (z, last, second) = scan-call c call found in (z, last, Continues-trans first second)

  Submitted-texts :
      (c : Submission) (saga : DurableSaga) {out : Result Error SagaStep × DurableSaga}
      {x : SagaStep}
      → Submitted host c saga out
      → out.0 ≡ ok x
      → (submission_texts host c ≡ ok tt) × (scan c out.1.steps ≡ ok (some x))
  Submitted-texts c saga (refused e) h = absurd (cc h)
  Submitted-texts c saga (repeated y texts found) h = (texts, cc)
  Submitted-texts c saga (created hash texts fresh) h = (
    texts,
    scan-created c hash saga.steps fresh
        ∙ ap (λ y. ok (some y)) (ok-injective (new_step c hash) _ h),
  )

  submit-eq :
      (c : Submission) (saga : DurableSaga) {x : SagaStep}
      → submission_texts host c ≡ ok tt
      → scan c saga.steps ≡ ok (some x)
      → submit host c saga ≡ (ok x, saga)
  unfolding submit
  submit-eq c saga texts found = rw (submit, texts, found) refl

  -- A submission that returned, made again after any calls, returns its own step, as it is by
  -- then, and leaves the saga as it is.
  pub submit_is_idempotent :
      (c : Submission) (saga : DurableSaga) {later : DurableSaga} {x : SagaStep}
      → (submit host c saga).0 ≡ ok x
      → SagaSteps host (submit host c saga).1 later
      → (y : SagaStep) × (submit host c later ≡ (ok y, later)) × Continues x y
  submit_is_idempotent c saga {later} returned calls =
      let (texts, found) = Submitted-texts c saga (submit-Submitted host c saga) returned in
      let (y, again, continues) = scan-calls c calls found in
      (y, submit-eq c later texts again, continues)
