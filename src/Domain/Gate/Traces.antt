-- ===== src/Domain/Gate/Traces.antt =====
-- `SignerGate` of shared/domain.py over any sequence of calls of `sign` and `reconcile`.
use cryptogpt_one_intent_wal.Base.{
  ℕ, ◌≡◌, refl, String, true, false, List, [], ◌∷◌, Result, ok, err, arith, inl, inr, Bool-cases,
  ◌∙◌, all, sym, subst, ◌≢◌, ok-injective,
}
use cryptogpt_one_intent_wal.Canonical.Checks.{Host}
use cryptogpt_one_intent_wal.Domain.Checks.{Error, domain_error, bounded_text}
use cryptogpt_one_intent_wal.Canonical.Value.{str}
use cryptogpt_one_intent_wal.Domain.Store.{Consumed, collides}
use cryptogpt_one_intent_wal.Domain.Store.Single.{blocked, blocked-reserve_in, reserve_in_blocks}
use cryptogpt_one_intent_wal.Domain.Gate.{
  SignerGate, SignCall, partial, rejected_before_effect, manual_resolution_required,
  new_operation_allowed, sign, sign_checks, consumed_by, reconcile, reconcile_to, outcome_state,
}
use cryptogpt_one_intent_wal.Domain.Gate.Signing.{Signed, Refused, is_err, sign-Outcome}

module _ (host : Host) where
  -- Any call of the gate, whether it returns or raises.
  pub data GateStep (gate : SignerGate) : SignerGate → Type 0 where
    sign_call : (c : SignCall) → GateStep gate (sign host c gate).1
    reconcile_call : (outcome : String) → GateStep gate (reconcile host outcome gate).1

  pub data GateSteps (gate : SignerGate) : SignerGate → Type 0 where
    here : GateSteps gate gate
    after_call : {g h : SignerGate} → GateSteps gate g → GateStep g h → GateSteps gate h

  store-reconcile : (o : String) (gate : SignerGate) → (reconcile host o gate).1.store ≡ gate.store
  unfolding reconcile
  store-reconcile o gate = ground arith

  blocked-sign :
      (c : SignCall) (gate : SignerGate) (q : Consumed)
      → blocked gate.store q ≡ true
      → blocked (sign host c gate).1.store q ≡ true
  blocked-sign c gate q h = elim (sign-Outcome host c gate) [
    | inl (r, s) ↦ rw s.reserved (blocked-reserve_in gate.store r q h)
    | inr refused ↦ elim (refused.store) [
      | inl same ↦ rw same h
      | inr (r, e) ↦ rw e (blocked-reserve_in gate.store r q h)
    ]
  ]

  blocked-steps :
      {g h : SignerGate} (q : Consumed)
      → GateSteps g h
      → blocked g.store q ≡ true
      → blocked h.store q ≡ true
  blocked-steps q here b = b
  blocked-steps q (after_call {g} s (sign_call c)) b = blocked-sign c g q (blocked-steps q s b)
  blocked-steps q (after_call {g} s (reconcile_call o)) b =
      rw (store-reconcile o g) (blocked-steps q s b)

  -- Seen from outside, a call has signed when it returned, or left another state or another hash.
  pub data HasSigned (c : SignCall) (gate : SignerGate) : Type 0 where
    returned : is_err (sign host c gate).0 ≡ false → HasSigned c gate
    other_state : (sign host c gate).1.state ≢ gate.state → HasSigned c gate
    other_hash : (sign host c gate).1.last_signed_hash ≢ gate.last_signed_hash → HasSigned c gate

  -- A call that was refused shows none of it.
  Refused-silent :
      (c : SignCall) (gate : SignerGate)
      → HasSigned c gate
      → ¬ (Refused host gate (sign host c gate))
  Refused-silent c gate (returned h) refused = cc (h, refused.raised)
  Refused-silent c gate (other_state h) refused = h refused.state
  Refused-silent c gate (other_hash h) refused = h refused.hash

  HasSigned-Signed :
      (c : SignCall) (gate : SignerGate) (r : Consumed)
      → HasSigned c gate
      → consumed_by host c ≡ ok r
      → Signed host c gate (sign host c gate) r
  HasSigned-Signed c gate r h e = elim (sign-Outcome host c gate) [
    | inl (q, s) ↦
        subst (Signed host c gate (sign host c gate)) (ok-injective q r (sym s.row ∙ e)) s
    | inr refused ↦ absurd (Refused-silent c gate h refused)
  ]

  -- Two calls of sign that signed, seen by a returned answer or by another state or hash of the
  -- gate, so crashed ones are included, never share an authorization id, a nonce or the hash of a
  -- capsule, whatever calls came between them.
  pub no_double_sign :
      (c c' : SignCall) (r r' : Consumed) {gate later : SignerGate}
      → consumed_by host c ≡ ok r
      → consumed_by host c' ≡ ok r'
      → HasSigned c gate
      → GateSteps (sign host c gate).1 later
      → HasSigned c' later
      → collides r' r ≡ false
  no_double_sign c c' r r' {gate} {later} e e' first steps second =
      elim (Bool-cases (collides r' r)) [
        | inl shared ↦
            let s = HasSigned-Signed c gate r first e in
            let used : blocked (sign host c gate).1.store r' ≡ true =
              rw s.reserved (reserve_in_blocks gate.store r r' s.fresh shared) in
            absurd
              (cc (blocked-steps r' steps used, (HasSigned-Signed c' later r' second e').fresh))
        | inr apart ↦ apart
      ]

  -- the results of calls of `sign` in a row, and the gate after them
  unfoldable pub run_signs : List SignCall → SignerGate → List (Result Error (List ℕ)) × SignerGate
  run_signs [] gate = ([], gate)
  run_signs (c ∷ cs) gate =
      let (result, gate') = sign host c gate in
      let (results, last) = run_signs cs gate' in (result ∷ results, last)

  waiting_refuses :
      (c : SignCall) (gate : SignerGate)
      → new_operation_allowed gate.state ≡ false
      → ¬ (sign_checks host c gate ≡ ok tt)
  unfolding sign_checks
  waiting_refuses c gate w h = ground arith

  sign_waiting :
      (c : SignCall) (gate : SignerGate)
      → new_operation_allowed gate.state ≡ false
      → Refused host gate (sign host c gate)
  sign_waiting c gate w = elim (sign-Outcome host c gate) [
    | inl (r, s) ↦ absurd (waiting_refuses c gate w s.checked)
    | inr refused ↦ refused
  ]

  -- While an operation waits for reconciliation, calls of sign alone all raise and leave the state
  -- and the last signed hash as they are.
  pub no_sign_while_waiting :
      (cs : List SignCall) (gate : SignerGate)
      → new_operation_allowed gate.state ≡ false
      → (all is_err (run_signs cs gate).0 ≡ true)
        × ((run_signs cs gate).1.state ≡ gate.state)
        × ((run_signs cs gate).1.last_signed_hash ≡ gate.last_signed_hash)
  unfolding run_signs
  no_sign_while_waiting [] gate w = (refl, refl, refl)
  no_sign_while_waiting (c ∷ cs) gate w =
      let refused = sign_waiting c gate w in
      let (raised, state, hash) =
        no_sign_while_waiting cs (sign host c gate).1 (rw refused.state w) in
      (rw (refused.raised) raised, state ∙ refused.state, hash ∙ refused.hash)

  -- `reconcile` on every branch, for an outcome that is a valid text: it needs a waiting operation
  -- and a known outcome, and refuses "rejected" directly after "partial".
  pub reconcile-eq :
      (outcome : String) (gate : SignerGate)
      → bounded_text host (str outcome) 32 ≡ ok outcome
      → reconcile host outcome gate ≡ reconcile_to outcome (outcome_state outcome) gate
  unfolding reconcile
  reconcile-eq outcome gate h = rw (reconcile, h)

  -- The refusal of "rejected" after "partial" is passed by: from every gate whose operation had a
  -- partial effect, "rejected" raises, but "unknown" and then "rejected" returns, and the gate may
  -- sign new operations again, for a host that takes both outcomes as valid texts.
  pub partial_forgotten :
      (gate : SignerGate)
      → bounded_text host (str "unknown") 32 ≡ ok "unknown"
      → bounded_text host (str "rejected") 32 ≡ ok "rejected"
      → gate.state ≡ partial
      → let gate' = (reconcile host "unknown" gate).1 in
        (reconcile host "rejected" gate ≡ (err domain_error, gate))
        × ((reconcile host "rejected" gate').0 ≡ ok rejected_before_effect)
        × (new_operation_allowed (reconcile host "rejected" gate').1.state ≡ true)
  partial_forgotten gate u r p =
      let gate' = record gate { state = manual_resolution_required } in
      let to_manual : reconcile host "unknown" gate ≡ (ok manual_resolution_required, gate') =
        reconcile-eq "unknown" gate u ∙ rw p in
      rw to_manual (
        reconcile-eq "rejected" gate r ∙ rw p,
        rw (reconcile-eq "rejected" gate' r),
        rw (reconcile-eq "rejected" gate' r),
      )
