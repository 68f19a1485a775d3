-- ===== src/Atomic/Journal/Steps.antt =====
-- `transition` in a valid journal, and what every step of the journal keeps.
use cryptogpt_one_intent_wal.Base.{
  ℕ, ◌+◌, ◌≤◌, ◌<◌, ◌≡◌, refl, String, true, false, none, some, List, [], ◌∷◌, ◌++◌, arith, eq_iff,
  Result, ok, ◌>>◌, guard, any, find, update_where, count_where, ap, ◌∙◌, inl, inr, Bool-cases,
  Option-cases, >>=-eq-ok,
}
use cryptogpt_one_intent_wal.Base.Text.{is_digest}
use cryptogpt_one_intent_wal.Base.RowLaws.{
  find-any, update_where-miss, Distinct, Distinct-update_where, any-update_where, All-append,
  All-imp, All-update_where,
}
use cryptogpt_one_intent_wal.Atomic.Journal.{
  JournalState, is_allowed, is_terminal, is_current, Transition, OperationRow, EventRow, Journal,
  JournalError, meta, has_id, is_unresolved, is_event, transition, record_transition,
  apply_transition, transition_event, last_sequence, operation, insert_event, contract_error,
  bind_integer, value_error,
}
use cryptogpt_one_intent_wal.Atomic.Journal.Invariant.{IsClaimed, IsValid}

-- The number after the last one is not taken.
next_event_fresh :
    (id : String) (n : ℕ) (events : List EventRow)
    → last_sequence id events ≤ n
    → any (is_event id (n + 1)) events ≡ false
next_event_fresh id n [] h = refl
next_event_fresh id n (e ∷ es) h = ground (arith, next_event_fresh id n es)

-- The journal after a transition.
unfoldable pub moved : Transition → Journal → Journal
moved t j = record j {
  operations = update_where (has_id t.operation_id) (apply_transition t) j.operations;
  operation_events =
      j.operation_events
      ++ transition_event t (last_sequence t.operation_id j.operation_events + 1) ∷ [];
}

any-has_id-update :
    (id : String) (t : Transition) (rows : List OperationRow)
    → any (has_id id) (update_where (has_id t.operation_id) (apply_transition t) rows)
      ≡ any (has_id id) rows
any-has_id-update id t rows =
    any-update_where (has_id id) (has_id t.operation_id) (apply_transition t) rows (λ r. refl)

find-update :
    (t : Transition) (rows : List OperationRow) (r : OperationRow)
    → find (has_id t.operation_id) rows ≡ some r
    → find (has_id t.operation_id) (update_where (has_id t.operation_id) (apply_transition t) rows)
      ≡ some (apply_transition t r)
find-update t [] r e = cc
find-update t (s ∷ rows) r e = ground (arith, find-update t rows r)

record_transition-eq :
    (t : Transition) (j : Journal) (r : OperationRow)
    → find (has_id t.operation_id) j.operations ≡ some r
    → record_transition t j ≡ ok (moved t j)
unfolding record_transition insert_event moved
record_transition-eq t j r e = rw (
  next_event_fresh t.operation_id (last_sequence t.operation_id j.operation_events)
      j.operation_events (omega arith),
  any-has_id-update t.operation_id t j.operations,
  find-any (has_id t.operation_id) j.operations r e,
)

operation-moved :
    (t : Transition) (j : Journal) (r : OperationRow)
    → find (has_id t.operation_id) j.operations ≡ some r
    → operation t.operation_id (moved t j) ≡ ok (apply_transition t r)
unfolding operation moved
operation-moved t j r e = rw (operation, find-update t j.operations r e)

-- The three conditions under which `transition` moves the operation in the row `r`.
abbrev pub permission : Transition → OperationRow → Result JournalError (Unit {0})
permission t r = do
  guard (is_allowed t.expected_state t.new_state) value_error
  guard (is_digest t.payload_digest) value_error
  guard (is_current t (some r)) contract_error
  bind_integer t.observed_at

-- a transition of a known operation is one of the four errors, or moves the row
transition-eq :
    (t : Transition) (j : Journal) (r : OperationRow)
    → find (has_id t.operation_id) j.operations ≡ some r
    → transition t j ≡ (permission t r >> ok (apply_transition t r, moved t j))
unfolding transition
transition-eq t j r e =
    rw (e, record_transition-eq t j r e) (simp (operation-moved t j r e) (ground arith))

-- What a transition needs: a well-formed call, for the row `r` as it is.
pub record IsPermitted (t : Transition) (r : OperationRow) : Type 0 where
  pub edge : is_allowed t.expected_state t.new_state ≡ true
  pub digest : is_digest t.payload_digest ≡ true
  pub token : r.fencing_token ≡ t.fencing_token
  pub state : r.state ≡ t.expected_state
  pub in_range : t.observed_at < 9223372036854775808

permission-IsPermitted :
    (t : Transition) (r : OperationRow) → permission t r ≡ ok tt → IsPermitted t r
unfolding bind_integer
permission-IsPermitted t r h = record {
  edge = ground arith;
  digest = ground arith;
  token = ground arith;
  state = ground arith;
  in_range = ground arith;
}

IsPermitted-permission :
    (t : Transition) (r : OperationRow) → IsPermitted t r → permission t r ≡ ok tt
unfolding bind_integer
IsPermitted-permission t r p = ground (arith, p.edge, p.digest, p.token, p.state, p.in_range)

permission-inv :
    (t : Transition) (r : OperationRow) (x : OperationRow × Journal) {out : OperationRow × Journal}
    → (permission t r >> ok x) ≡ ok out
    → (is_allowed t.expected_state t.new_state ≡ true)
      × (r.fencing_token ≡ t.fencing_token)
      × (r.state ≡ t.expected_state)
      × (out ≡ x)
permission-inv t r x h = ground arith

transition_unknown :
    (t : Transition) (j : Journal) {out : OperationRow × Journal}
    → find (has_id t.operation_id) j.operations ≡ none
    → ¬ (transition t j ≡ ok out)
unfolding transition
transition_unknown t j e h = ground arith

-- A transition of a known operation returns exactly if the step is an edge of the state diagram,
-- the digest is well formed, the row carries the given fencing token and state, and the time fits
-- an INTEGER; it then returns the moved row, and neither a constraint nor the second reading
-- fails.
pub transition_moves_exactly :
    (t : Transition) (j : Journal) (r : OperationRow) {out : OperationRow × Journal}
    → find (has_id t.operation_id) j.operations ≡ some r
    → (transition t j ≡ ok out → IsPermitted t r)
      × (IsPermitted t r → transition t j ≡ ok (apply_transition t r, moved t j))
transition_moves_exactly t j r e = (
  λ h.
      permission-IsPermitted t r (>>=-eq-ok (permission t r) _ (rw (transition-eq t j r e) at h)).1,
  λ p. rw (transition-eq t j r e) (rw (IsPermitted-permission t r p)),
)

-- A transition that succeeded found its operation under the given fencing token and state, and took
-- an edge of the state diagram.
pub transition-inv :
    (t : Transition) (j : Journal) {out : OperationRow × Journal}
    → transition t j ≡ ok out
    → (r : OperationRow) × (find (has_id t.operation_id) j.operations ≡ some r)
      × (is_allowed t.expected_state t.new_state ≡ true)
      × (r.fencing_token ≡ t.fencing_token)
      × (r.state ≡ t.expected_state)
      × (out.0 ≡ apply_transition t r)
      × (out.1 ≡ moved t j)
transition-inv t j h = elim (Option-cases (find (has_id t.operation_id) j.operations)) [
  | inl e ↦ absurd (transition_unknown t j e h)
  | inr (r, e) ↦
      let (allowed, token, state, result) =
        permission-inv t r (apply_transition t r, moved t j) (rw (transition-eq t j r e) at h) in
      (r, e, allowed, token, state, ap (λ p. p.0) result, ap (λ p. p.1) result)
]

-- A move is from a state that is not terminal.
pub allowed-is_terminal : (s t : JournalState) → is_allowed s t ≡ true → is_terminal s ≡ false
allowed-is_terminal s t h = ground arith

-- Moving the one unresolved operation leaves at most one.
moved_single :
    (t : Transition) (rows : List OperationRow) (r : OperationRow)
    → Distinct (λ s. s.operation_id) rows
    → find (has_id t.operation_id) rows ≡ some r
    → is_terminal r.state ≡ false
    → count_where is_unresolved (update_where (has_id t.operation_id) (apply_transition t) rows)
      ≤ count_where is_unresolved rows
moved_single t [] r d e live = cc
moved_single t (s ∷ rows) r d e live = elim (Bool-cases (has_id t.operation_id s)) [
  | inl here ↦
      let same : s.operation_id ≡ t.operation_id = (eq_iff s.operation_id t.operation_id).0 here in
      let miss : any (has_id t.operation_id) rows ≡ false = rw (← same) d.0 in
      rw (update_where-miss (has_id t.operation_id) (apply_transition t) rows miss) (ground arith)
  | inr later ↦ ground (arith, moved_single t rows r d.1)
]

-- A transition keeps the journal valid.
pub moved-IsValid :
    (t : Transition) (j : Journal) (r : OperationRow)
    → IsValid j
    → find (has_id t.operation_id) j.operations ≡ some r
    → is_terminal r.state ≡ false
    → IsValid (moved t j)
unfolding moved
moved-IsValid t j r h e live =
    let p = has_id t.operation_id in
    let f = apply_transition t in
    let n = meta "next_operation_sequence" 1 j.journal_meta in
    let k = meta "next_fencing_token" 1 j.journal_meta in
    record {
      sequences =
          All-update_where (λ s. s.operation_sequence < n) p f j.operations (λ s _ q. q)
            h.sequences;
      tokens = All-update_where (λ s. s.fencing_token < k) p f j.operations (λ s _ q. q) h.tokens;
      claimed =
          All-update_where (IsClaimed j.replay_claims) p f j.operations
            (λ s _ q. record {
              request = q.request;
              authorization = q.authorization;
              nonce = q.nonce;
              operation = q.operation;
            })
            h.claimed;
      owned =
          All-append (λ x. any (has_id x.operation_id) (update_where p f j.operations) ≡ true)
            j.operation_events _
            (All-imp (λ x. any (has_id x.operation_id) j.operations ≡ true)
              (λ x. any (has_id x.operation_id) (update_where p f j.operations) ≡ true)
              (λ x q. any-has_id-update x.operation_id t j.operations ∙ q) j.operation_events
              h.owned)
            (any-has_id-update t.operation_id t j.operations ∙ find-any p j.operations r e, tt);
      distinct =
          Distinct-update_where (λ s. s.operation_id) p f j.operations (λ s. refl) h.distinct;
      single = omega (arith, h.single, moved_single t j.operations r h.distinct e live);
    }
