-- ===== src/Atomic/Journal/Replay.antt =====
-- Runs of the journal: what a caller can rely on over any sequence of calls.
use cryptogpt_one_intent_wal.Base.{
  ℕ, ◌≡◌, String, true, false, ◌&&◌, List, [], ◌∷◌, arith, eq_iff, str_eq, ok, any, >>=-eq-ok, map,
}
use cryptogpt_one_intent_wal.Base.RowLaws.{any-append}
use cryptogpt_one_intent_wal.Atomic.Journal.{
  claims, is_claim, Transition, Verified, OperationRow, Journal, JournalReservation, empty_journal,
  meta, is_unresolved, ClaimRow, reserve, transition, check_claims, reservation,
}
use cryptogpt_one_intent_wal.Atomic.Journal.Invariant.{IsValid, Claimed}
use cryptogpt_one_intent_wal.Atomic.Journal.Fresh.{claim_row, Unclaimed}
use cryptogpt_one_intent_wal.Atomic.Journal.Reservation.{
  admission, reserved, reserve-eq, reserved-IsValid,
}
use cryptogpt_one_intent_wal.Atomic.Journal.Steps.{
  moved, transition-inv, allowed-is_terminal, moved-IsValid,
}

-- One committed call of the journal, with any arguments.
pub data Step (j : Journal) : Journal → Type 0 where
  reserve_step :
      (v : Verified) (observed_at maximum_rollback : ℕ) {out : JournalReservation × Journal}
      → reserve v observed_at maximum_rollback j ≡ ok out
      → Step j out.1
  transition_step :
      (t : Transition) {out : OperationRow × Journal} → transition t j ≡ ok out → Step j out.1

pub data Steps (j : Journal) : Journal → Type 0 where
  here : Steps j j
  after_step : {k l : Journal} → Steps j k → Step k l → Steps j l

admission-inv :
    (v : Verified) (t m : ℕ) (j : Journal) {u : Unit {0}}
    → admission v t m j ≡ ok u
    → Unclaimed j.replay_claims (claims v) × (any is_unresolved j.operations ≡ false)
unfolding check_claims
admission-inv v t m j h = ground arith

-- A reservation that succeeded was of unused claims, with nothing unresolved.
pub reserve-inv :
    (v : Verified) (t m : ℕ) (j : Journal) {out : JournalReservation × Journal}
    → IsValid j
    → reserve v t m j ≡ ok out
    → Unclaimed j.replay_claims (claims v)
      × (any is_unresolved j.operations ≡ false)
      × (out.0
          ≡ reservation v
              (meta "next_operation_sequence" 1 j.journal_meta)
              (meta "next_fencing_token" 1 j.journal_meta))
      × (out.1 ≡ reserved v t j)
reserve-inv v t m j {out} h e =
    let (u, admitted, result) = >>=-eq-ok (admission v t m j) _ (rw (reserve-eq v t m j h) at e) in
    let (fresh, quiet) = admission-inv v t m j admitted in
    (fresh, quiet, ground arith, ground arith)

pub Step-IsValid : {j k : Journal} → Step j k → IsValid j → IsValid k
Step-IsValid {j} (reserve_step v t m e) h =
    let (fresh, quiet, _, result) = reserve-inv v t m j h e in
    rw result (reserved-IsValid v t j h fresh quiet)
Step-IsValid {j} (transition_step t e) h =
    let (r, found, allowed, token, state, _, result) = transition-inv t j e in
    rw result (
      moved-IsValid t j r h found
        (rw state (allowed-is_terminal t.expected_state t.new_state allowed)))

pub Steps-IsValid : {j k : Journal} → IsValid j → Steps j k → IsValid k
Steps-IsValid h here = h
Steps-IsValid h (after_step s st) = Step-IsValid st (Steps-IsValid h s)

pub empty_journal-IsValid : IsValid empty_journal
empty_journal-IsValid = record {
  sequences = tt;
  tokens = tt;
  claimed = tt;
  owned = tt;
  distinct = tt;
  single = omega arith;
}

-- A used claim stays used.
Step-Claimed :
    {j k : Journal} (a b : String)
    → Step j k
    → IsValid j
    → Claimed j.replay_claims a b
    → Claimed k.replay_claims a b
unfolding reserved moved
Step-Claimed {j} a b (reserve_step v t m e) h c =
    rw ((reserve-inv v t m j h e).3) (rw any-append (rw c))
Step-Claimed {j} a b (transition_step t e) h c = rw ((transition-inv t j e).6) c

Steps-Claimed :
    {j k : Journal} (a b : String)
    → IsValid j
    → Steps j k
    → Claimed j.replay_claims a b
    → Claimed k.replay_claims a b
Steps-Claimed a b h here c = c
Steps-Claimed a b h (after_step s st) c =
    Step-Claimed a b st (Steps-IsValid h s) (Steps-Claimed a b h s c)

-- The request makes the claim `claim_value` of the type `claim_type`.
abbrev pub Makes : Verified → String → String → Type 0
Makes v claim_type claim_value =
    any (λ c. str_eq c.0 claim_type && str_eq c.1 claim_value) (claims v) ≡ true

claims_claimed :
    (id a b : String) (cs : List (String × String))
    → any (λ c. str_eq c.0 a && str_eq c.1 b) cs ≡ true
    → any (is_claim a b) (map (claim_row id) cs) ≡ true
claims_claimed id a b [] h = h
claims_claimed id a b (c ∷ cs) h = ground (arith, claims_claimed id a b cs)

Unclaimed-makes :
    (table : List ClaimRow) (a b : String) (cs : List (String × String))
    → Unclaimed table cs
    → any (λ c. str_eq c.0 a && str_eq c.1 b) cs ≡ true
    → any (is_claim a b) table ≡ false
Unclaimed-makes table a b [] u h = cc
Unclaimed-makes table a b (c ∷ cs) u h =
    ground (arith, eq_iff c.0 a, eq_iff c.1 b, Unclaimed-makes table a b cs u.1)

Claimed-reserved :
    (v : Verified) (t : ℕ) (j : Journal) (a b : String)
    → Makes v a b
    → Claimed (reserved v t j).replay_claims a b
unfolding reserved
Claimed-reserved v t j a b h =
    rw any-append (ground (arith, claims_claimed v.operation.operation_id a b (claims v) h))

-- A request that shares a claim (request id, authorization id, nonce, operation id or operation
-- digest) with one that was reserved in a valid journal is refused for ever, whatever calls came
-- between.
pub no_replay :
    (v w : Verified) (t m t' m' : ℕ) {j k : Journal} {out : JournalReservation × Journal}
    {again : JournalReservation × Journal} (a b : String)
    → IsValid j
    → reserve v t m j ≡ ok out
    → Steps out.1 k
    → Makes v a b
    → Makes w a b
    → ¬ (reserve w t' m' k ≡ ok again)
no_replay v w t m t' m' {j} {k} {out} a b h first steps makes_v makes_w second =
    let result = (reserve-inv v t m j h first).3 in
    let valid : IsValid out.1 = Step-IsValid (reserve_step v t m first) h in
    let used : Claimed out.1.replay_claims a b = rw result (Claimed-reserved v t j a b makes_v) in
    let still = Steps-Claimed a b valid steps used in
    let unused =
      Unclaimed-makes k.replay_claims a b (claims w)
        (reserve-inv w t' m' k (Steps-IsValid valid steps) second).0 makes_w in
    cc (still, unused)
