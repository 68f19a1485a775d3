-- ===== src/Atomic/Journal/Fencing.antt =====
-- Fencing tokens and the single unresolved operation, over runs of the journal.
use cryptogpt_one_intent_wal.Base.{
  ℕ, ◌≤◌, ◌<◌, ◌≡◌, refl, sym, ◌∙◌, String, arith, ok, count_where, ap, All, eq_iff,
}
use cryptogpt_one_intent_wal.Base.RowLaws.{
  find-holds, All-find, All-append, All-imp, All-update_where,
}
use cryptogpt_one_intent_wal.Atomic.Journal.{
  Transition, Verified, OperationRow, Journal, JournalReservation, empty_journal, meta, has_id,
  is_unresolved, reserve, transition, apply_transition,
}
use cryptogpt_one_intent_wal.Atomic.Journal.Invariant.{IsValid}
use cryptogpt_one_intent_wal.Atomic.Journal.Reservation.{reserved, counters-reserved}
use cryptogpt_one_intent_wal.Atomic.Journal.Steps.{moved, transition-inv}
use cryptogpt_one_intent_wal.Atomic.Journal.Replay.{
  Step, reserve_step, transition_step, Steps, here, after_step, reserve-inv, Step-IsValid,
  Steps-IsValid, empty_journal-IsValid,
}

abbrev next_token : Journal → ℕ
next_token j = meta "next_fencing_token" 1 j.journal_meta

abbrev next_sequence : Journal → ℕ
next_sequence j = meta "next_operation_sequence" 1 j.journal_meta

Step-next :
    {j k : Journal}
    → Step j k
    → IsValid j
    → (next_token j ≤ next_token k) × (next_sequence j ≤ next_sequence k)
unfolding moved
Step-next {j} (reserve_step v t m e) h =
    rw (reserve-inv v t m j h e).3 (omega (arith, counters-reserved v t j))
Step-next {j} (transition_step t e) h = rw (transition-inv t j e).6 (omega arith)

Steps-next :
    {j k : Journal}
    → IsValid j
    → Steps j k
    → (next_token j ≤ next_token k) × (next_sequence j ≤ next_sequence k)
Steps-next h here = omega arith
Steps-next h (after_step s st) = omega (arith, Steps-next h s, Step-next st (Steps-IsValid h s))

-- From a valid journal, every later reservation carries a larger fencing token and a larger
-- sequence number, whatever calls came between.
pub fencing_increases :
    (v w : Verified) (t m t' m' : ℕ) {j k : Journal} {out again : JournalReservation × Journal}
    → IsValid j
    → reserve v t m j ≡ ok out
    → Steps out.1 k
    → reserve w t' m' k ≡ ok again
    → (out.0.fencing_token < again.0.fencing_token)
      × (out.0.operation_sequence < again.0.operation_sequence)
fencing_increases v w t m t' m' {j} {k} {out} {again} h first steps second =
    let valid : IsValid out.1 = Step-IsValid (reserve_step v t m first) h in
    let (_, _, token, after) = reserve-inv v t m j h first in
    let (_, _, token', _) = reserve-inv w t' m' k (Steps-IsValid valid steps) second in
    rw (token, token')
      (omega (
        arith,
        Steps-next valid steps,
        ap next_token after,
        ap next_sequence after,
        counters-reserved v t j,
      ))

-- No operation but `id` carries the token.
abbrev Owns : String → ℕ → Journal → Type 0
Owns id token j = All (λ s. s.fencing_token ≡ token → s.operation_id ≡ id) j.operations

reserved-Owns :
    (v : Verified) (t : ℕ) (j : Journal)
    → IsValid j
    → Owns v.operation.operation_id (next_token j) (reserved v t j)
unfolding reserved
reserved-Owns v t j h =
    All-append _ j.operations _
      (All-imp (λ s. s.fencing_token < next_token j) _ (λ s below same. absurd (omega arith))
        j.operations h.tokens)
      (λ _. refl, tt)

Step-Owns :
    {j k : Journal} (id : String) (token : ℕ)
    → Step j k
    → IsValid j
    → token < next_token j
    → Owns id token j
    → Owns id token k
unfolding reserved moved
Step-Owns {j} id token (reserve_step v t m e) h given o =
    rw (reserve-inv v t m j h e).3
      (All-append _ j.operations _ o (λ same. absurd (omega arith), tt))
Step-Owns {j} id token (transition_step t e) h given o = rw (transition-inv t j e).6 (
    All-update_where (λ (s : OperationRow). s.fencing_token ≡ token → s.operation_id ≡ id)
      (has_id t.operation_id) (apply_transition t) j.operations (λ s _ q. q) o)

Steps-Owns :
    {j k : Journal} (id : String) (token : ℕ)
    → IsValid j
    → Steps j k
    → token < next_token j
    → Owns id token j
    → Owns id token k
Steps-Owns id token h here given o = o
Steps-Owns id token h (after_step s st) given o =
    Step-Owns id token st (Steps-IsValid h s) (omega (arith, Steps-next h s))
      (Steps-Owns id token h s given o)

-- A token that a reservation in a valid journal gave out moves only the operation it was given to:
-- after any calls, a transition that names it and returns is one of that operation.
pub token_moves_one_operation :
    (v : Verified) (t m : ℕ) (x : Transition) {j k : Journal} {out : JournalReservation × Journal}
    {result : OperationRow × Journal}
    → IsValid j
    → reserve v t m j ≡ ok out
    → Steps out.1 k
    → x.fencing_token ≡ out.0.fencing_token
    → transition x k ≡ ok result
    → x.operation_id ≡ v.operation.operation_id
token_moves_one_operation v t m x {j} {k} {out} h first steps named second =
    let valid : IsValid out.1 = Step-IsValid (reserve_step v t m first) h in
    let (_, _, token, after) = reserve-inv v t m j h first in
    let (r, found, _, held, _, _, _) = transition-inv x k second in
    let given : next_token j < next_token out.1 =
      rw after (omega (arith, counters-reserved v t j)) in
    let owned : Owns v.operation.operation_id (next_token j) k =
      Steps-Owns v.operation.operation_id (next_token j) valid steps given
        (rw after (reserved-Owns v t j h)) in
    let of_row : r.operation_id ≡ v.operation.operation_id =
      All-find
        (λ (s : OperationRow).
          s.fencing_token ≡ next_token j → s.operation_id ≡ v.operation.operation_id)
        (has_id x.operation_id) k.operations owned found
        (held ∙ named ∙ ap (λ (y : JournalReservation). y.fencing_token) token) in
    sym (
      (eq_iff r.operation_id x.operation_id).0
        (find-holds (has_id x.operation_id) k.operations r found))
    ∙ of_row

-- In every journal that calls reach from the empty one at most one operation is unresolved.
pub single_flight :
    {j : Journal} → Steps empty_journal j → count_where is_unresolved j.operations ≤ 1
single_flight s = (Steps-IsValid empty_journal-IsValid s).single
