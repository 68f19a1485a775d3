-- ===== src/Domain/Saga/Unique.antt =====
-- The ids and the idempotency keys of a saga's steps differ, after any calls.
use cryptogpt_one_intent_wal.Base.{
  ◌≡◌, refl, String, Bool, true, false, none, List, [], ◌∷◌, ◌++◌, str_eq, ok, err, any, arith, inl,
  inr, Result-cases, ok-injective, Bool-cases, subst, ap, eq_iff, eq_refl,
}
use cryptogpt_one_intent_wal.Base.RowLaws.{Distinct, Distinct-append}
use cryptogpt_one_intent_wal.Canonical.Checks.{Host}
use cryptogpt_one_intent_wal.Domain.Checks.{Error, domain_error}
use cryptogpt_one_intent_wal.Domain.Store.{contains}
use cryptogpt_one_intent_wal.Domain.Saga.{
  SagaStepState, SagaStep, DurableSaga, Submission, permitted, new_step, scan, check_steps,
  new_saga, move_step,
}

-- No two steps share an id, and no two share an idempotency key.
pub record IsUnique (steps : List SagaStep) : Type 0 where
  pub ids : Distinct (λ x. x.step_id) steps
  pub keys : Distinct (λ x. x.idempotency_key) steps

abbrev pub has_id : String → SagaStep → Bool
has_id s x = str_eq x.step_id s

abbrev pub has_key : String → SagaStep → Bool
has_key s x = str_eq x.idempotency_key s

module _ (host : Host) where
  check_steps-cons :
      (ids keys : List String) (x : SagaStep) (xs : List SagaStep)
      → check_steps host ids keys (x ∷ xs) ≡ ok tt
      → (contains x.step_id ids ≡ false)
        × (contains x.idempotency_key keys ≡ false)
        × (check_steps host (x.step_id ∷ ids) (x.idempotency_key ∷ keys) xs ≡ ok tt)
  unfolding check_steps
  check_steps-cons ids keys x xs h = (ground arith, ground arith, ground arith)

  pub check_steps-fresh :
      (ids keys : List String) (xs : List SagaStep) (s : String)
      → check_steps host ids keys xs ≡ ok tt
      → (contains s ids ≡ true → any (has_id s) xs ≡ false)
        × (contains s keys ≡ true → any (has_key s) xs ≡ false)
  unfolding check_steps
  check_steps-fresh ids keys [] s h = (λ c. refl, λ c. refl)
  check_steps-fresh ids keys (x ∷ xs) s h =
      let (new_id, new_key, rest) = check_steps-cons ids keys x xs h in
      let (old_ids, old_keys) =
        check_steps-fresh (x.step_id ∷ ids) (x.idempotency_key ∷ keys) xs s rest in
      (λ c. ground (arith, eq_iff x.step_id s), λ c. ground (arith, eq_iff x.idempotency_key s))

  pub check_steps-IsUnique :
      (ids keys : List String) (xs : List SagaStep)
      → check_steps host ids keys xs ≡ ok tt
      → IsUnique xs
  unfolding check_steps
  check_steps-IsUnique ids keys [] h = record { ids = tt; keys = tt }
  check_steps-IsUnique ids keys (x ∷ xs) h =
      let (_, _, rest) = check_steps-cons ids keys x xs h in
      let inner = check_steps-IsUnique (x.step_id ∷ ids) (x.idempotency_key ∷ keys) xs rest in
      let id_again =
        (check_steps-fresh (x.step_id ∷ ids) (x.idempotency_key ∷ keys) xs x.step_id rest).0 in
      let key_again =
        (check_steps-fresh (x.step_id ∷ ids) (x.idempotency_key ∷ keys) xs x.idempotency_key
          rest).1 in
      record {
        ids = (id_again (rw (eq_refl x.step_id) refl), inner.ids);
        keys = (key_again (rw (eq_refl x.idempotency_key) refl), inner.keys);
      }

  -- What the constructor accepts has unique ids and keys.
  pub new_saga-IsUnique :
      (operation_id : String) (xs : List SagaStep) {saga : DurableSaga}
      → new_saga host operation_id xs ≡ ok saga
      → IsUnique saga.steps
  unfolding new_saga
  new_saga-IsUnique operation_id xs {saga} h =
      let checked : check_steps host [] [] xs ≡ ok tt = ground arith in
      let steps : saga.steps ≡ xs = ground arith in rw steps (check_steps-IsUnique [] [] xs checked)

-- A scan that finds nothing has seen neither the key nor the id.
pub scan-none :
    (c : Submission) (xs : List SagaStep)
    → scan c xs ≡ ok none
    → (any (has_id c.step_id) xs ≡ false) × (any (has_key c.idempotency_key) xs ≡ false)
unfolding scan
scan-none c [] h = (refl, refl)
scan-none c (x ∷ xs) h = (ground (arith, scan-none c xs), ground (arith, scan-none c xs))

pub append-IsUnique :
    (c : Submission) (hash : String) (xs : List SagaStep)
    → scan c xs ≡ ok none
    → IsUnique xs
    → IsUnique (xs ++ new_step c hash ∷ [])
append-IsUnique c hash xs h u =
    let (new_id, new_key) = scan-none c xs h in
    record {
      ids = Distinct-append (λ x. x.step_id) xs (new_step c hash) u.ids new_id;
      keys = Distinct-append (λ x. x.idempotency_key) xs (new_step c hash) u.keys new_key;
    }

abbrev pub moved : SagaStepState → SagaStep → SagaStep
moved t x = record x { state = t }

-- The first step with the id `s` moves to the state `t`: the steps before, the moved step, and after.
pub data Moved (s : String) (t : SagaStepState)
    : List SagaStep → SagaStep → List SagaStep → Type 0 where
  hit :
      (x : SagaStep) (xs : List SagaStep)
      → x.step_id ≡ s
      → permitted x.state t ≡ true
      → Moved s t (x ∷ xs) (moved t x) (moved t x ∷ xs)
  miss :
      (x : SagaStep) {y : SagaStep} {xs ys : List SagaStep}
      → str_eq x.step_id s ≡ false
      → Moved s t xs y ys
      → Moved s t (x ∷ xs) y (x ∷ ys)

module _ (s : String) (t : SagaStepState) (y : SagaStep) (xs : List SagaStep) where
  refused_hit :
      str_eq y.step_id s ≡ true
      → permitted y.state t ≡ false
      → move_step s t (y ∷ xs) ≡ err domain_error
  unfolding move_step
  refused_hit same not_may = rw (move_step, same, not_may) refl

  refused_miss :
      {f : Error}
      → str_eq y.step_id s ≡ false
      → move_step s t xs ≡ err f
      → move_step s t (y ∷ xs) ≡ err f
  unfolding move_step
  refused_miss other e = rw (move_step, other, e) refl

pub move_step-Moved :
    (s : String) (t : SagaStepState) (xs : List SagaStep) {x : SagaStep} {ys : List SagaStep}
    → move_step s t xs ≡ ok (x, ys)
    → Moved s t xs x ys
unfolding move_step
move_step-Moved s t [] h = cc
move_step-Moved s t (y ∷ xs) {x} {ys} h = elim (Bool-cases (str_eq y.step_id s)) [
  | inl same ↦ elim (Bool-cases (permitted y.state t)) [
    | inl may ↦
        subst (λ r. Moved s t (y ∷ xs) (r.0) (r.1))
          (ok-injective (moved t y, moved t y ∷ xs) (x, ys) (rw (same, may) at h))
          (hit y xs ((eq_iff y.step_id s).0 same) may)
    | inr not_may ↦ absurd (cc (refused_hit s t y xs same not_may, h))
  ]
  | inr other ↦ elim (Result-cases (move_step s t xs)) [
    | inl ((z, zs), e) ↦
        subst (λ r. Moved s t (y ∷ xs) (r.0) (r.1))
          (ok-injective (z, y ∷ zs) (x, ys) (rw (other, e) at h))
          (miss y other (move_step-Moved s t xs e))
    | inr (f, e) ↦ absurd (cc (refused_miss s t y xs other e, h))
  ]
]

-- A step that moves keeps its id and its key, and all others stay.
pub any-Moved :
    (q : SagaStep → Bool) (s : String) (t : SagaStepState) {xs ys : List SagaStep} {x : SagaStep}
    → ((y : SagaStep) → q (moved t y) ≡ q y)
    → Moved s t xs x ys
    → any q ys ≡ any q xs
any-Moved q s t k (hit x xs same may) = rw k refl
any-Moved q s t k (miss x other m) = rw (any-Moved q s t k m) refl

pub Distinct-Moved :
    (key : SagaStep → String) (s : String) (t : SagaStepState) {xs ys : List SagaStep}
    {x : SagaStep}
    → ((y : SagaStep) → key (moved t y) ≡ key y)
    → Moved s t xs x ys
    → Distinct key xs
    → Distinct key ys
Distinct-Moved key s t k (hit x xs same may) d = (rw (k x) (d.0), d.1)
Distinct-Moved key s t k (miss x other m) d = (
  rw (any-Moved (λ y. str_eq (key y) (key x)) s t (λ y. ap (λ w. str_eq w (key x)) (k y)) m) (d.0),
  Distinct-Moved key s t k m d.1,
)

pub IsUnique-Moved :
    (s : String) (t : SagaStepState) {xs ys : List SagaStep} {x : SagaStep}
    → Moved s t xs x ys
    → IsUnique xs
    → IsUnique ys
IsUnique-Moved s t m u = record {
  ids = Distinct-Moved (λ x. x.step_id) s t (λ y. refl) m u.ids;
  keys = Distinct-Moved (λ x. x.idempotency_key) s t (λ y. refl) m u.keys;
}
