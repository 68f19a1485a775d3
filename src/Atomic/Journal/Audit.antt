-- ===== src/Atomic/Journal/Audit.antt =====
-- The event log: the last event of an operation is what its row says.
use cryptogpt_one_intent_wal.Base.{
  ℕ, ◌≡◌, refl, String, true, false, Option, none, some, List, [], ◌∷◌, ◌++◌, arith, eq_iff,
  eq_refl, str_eq, if◌then◌else◌, any, update_where, All, inl, inr, Bool-cases,
}
use cryptogpt_one_intent_wal.Atomic.Journal.{
  Transition, Verified, OperationRow, EventRow, Journal, empty_journal, has_id, apply_transition,
  transition_event, reserved_row, reserved_event,
}
use cryptogpt_one_intent_wal.Atomic.Journal.Fresh.{ids_fresh}
use cryptogpt_one_intent_wal.Atomic.Journal.Reservation.{reserved}
use cryptogpt_one_intent_wal.Atomic.Journal.Steps.{moved, transition-inv}
use cryptogpt_one_intent_wal.Atomic.Journal.Replay.{
  reserve_step, transition_step, Steps, here, after_step, reserve-inv, Steps-IsValid,
  empty_journal-IsValid,
}

abbrev pub or_else {ℓ} : {A : Type ℓ} → Option A → Option A → Option A
or_else none d = d
or_else (some a) d = some a

-- The last event of an operation.
pub last_event : String → List EventRow → Option EventRow
last_event id [] = none
last_event id (e ∷ es) =
    or_else (last_event id es) (if str_eq e.operation_id id then some e else none)

last_event-append :
    (id : String) (es : List EventRow) (e : EventRow)
    → last_event id (es ++ e ∷ []) ≡ (if str_eq e.operation_id id then some e else last_event id es)
unfolding last_event
last_event-append id [] e = refl
last_event-append id (d ∷ es) e = ground (arith, last_event-append id es e)

-- The state, the payload digest and the time of a row, as its last event has them.
abbrev pub IsLogged : List EventRow → OperationRow → Type 0
IsLogged events r =
    (e : EventRow) × (last_event r.operation_id events ≡ some e)
    × (e.state ≡ r.state)
    × (e.payload_digest ≡ r.payload_digest)
    × (e.observed_at ≡ r.updated_at)

IsLogged-other :
    (events : List EventRow) (e : EventRow) (r : OperationRow)
    → str_eq e.operation_id r.operation_id ≡ false
    → IsLogged events r
    → IsLogged (events ++ e ∷ []) r
IsLogged-other events e r ne (d, last, s, p, o) =
    (d, rw (last_event-append r.operation_id events e, ne) last, s, p, o)

IsLogged-new :
    (events : List EventRow) (e : EventRow) (r : OperationRow)
    → str_eq e.operation_id r.operation_id ≡ true
    → e.state ≡ r.state
    → e.payload_digest ≡ r.payload_digest
    → e.observed_at ≡ r.updated_at
    → IsLogged (events ++ e ∷ []) r
IsLogged-new events e r same s p o =
    (e, rw (last_event-append r.operation_id events e, same), s, p, o)

IsLogged-reserved :
    (v : Verified) (n k t : ℕ) (events : List EventRow) (rows : List OperationRow)
    → any (has_id v.operation.operation_id) rows ≡ false
    → All (IsLogged events) rows
    → All (IsLogged (events ++ reserved_event v t ∷ [])) (rows ++ reserved_row v n k t ∷ [])
IsLogged-reserved v n k t events [] fresh h = (
  IsLogged-new events (reserved_event v t) (reserved_row v n k t) (eq_refl v.operation.operation_id)
      refl refl refl,
  tt,
)
IsLogged-reserved v n k t events (r ∷ rows) fresh h = (
  IsLogged-other events (reserved_event v t) r
      (ground (
        arith,
        eq_iff r.operation_id v.operation.operation_id,
        eq_iff v.operation.operation_id r.operation_id,
      ))
      h.0,
  IsLogged-reserved v n k t events rows (ground arith) h.1,
)

IsLogged-moved :
    (t : Transition) (n : ℕ) (events : List EventRow) (rows : List OperationRow)
    → All (IsLogged events) rows
    → All
        (IsLogged (events ++ transition_event t n ∷ []))
        (update_where (has_id t.operation_id) (apply_transition t) rows)
IsLogged-moved t n events [] h = tt
IsLogged-moved t n events (r ∷ rows) h = elim (Bool-cases (has_id t.operation_id r)) [
  | inl hit ↦ (
    rw hit (
        IsLogged-new events (transition_event t n) (apply_transition t r)
          (ground
            (arith, eq_iff r.operation_id t.operation_id, eq_iff t.operation_id r.operation_id))
          refl refl refl),
    IsLogged-moved t n events rows h.1,
  )
  | inr miss ↦ (
    rw miss (
        IsLogged-other events (transition_event t n) r
          (ground
            (arith, eq_iff r.operation_id t.operation_id, eq_iff t.operation_id r.operation_id))
          h.0),
    IsLogged-moved t n events rows h.1,
  )
]

-- In every journal that calls reach from the empty one, each operation has a last event, and that
-- event carries the state, payload digest and time of change of the operation.
pub events_follow_states :
    {j : Journal} → Steps empty_journal j → All (IsLogged j.operation_events) j.operations
unfolding reserved moved
events_follow_states here = tt
events_follow_states (after_step {k = j} s (reserve_step v t m e)) =
    let h = Steps-IsValid empty_journal-IsValid s in
    let (fresh, _, _, after) = reserve-inv v t m j h e in
    rw after (
      IsLogged-reserved v _ _ t j.operation_events j.operations
        (ids_fresh j.replay_claims v.operation.operation_id j.operations h.claimed fresh.1.1.1.0)
        (events_follow_states s))
events_follow_states (after_step {k = j} s (transition_step t e)) =
    rw (transition-inv t j e).6
      (IsLogged-moved t _ j.operation_events j.operations (events_follow_states s))
