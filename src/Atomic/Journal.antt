-- ===== src/Atomic/Journal.antt =====
-- `SQLiteOperationJournal` of shared/atomic_signer_contract.py: the durable record of what the
-- signer was asked to do. The four tables are lists of rows in the order of insertion (so a row of
-- `operation_events` needs no number of its own), a statement that SQLite refuses by a constraint
-- of the schema is an error, and an error keeps the journal that was there (ROLLBACK).
pub mod Invariant
mod Fresh
pub mod Reservation
pub mod Steps
pub mod Replay
pub mod Fencing
pub mod Audit
mod Tests
use Prim.Native.Nat.{max}
use mathlib.Core.Logic.{ite}
use cryptogpt_one_intent_wal.Base.{
  ℕ, ◌+◌, String, Bool, true, false, not, ◌&&◌, ◌||◌, Option, none, some, List, [], ◌∷◌, ◌++◌, leb,
  ltb, ◌==◌, str_eq, if◌then◌else◌, Result, ok, err, ◌>>=◌, ◌>>◌, guard, any, find, select,
  update_where,
}
use cryptogpt_one_intent_wal.Base.Dict.{Dict, lookup, insert}
use cryptogpt_one_intent_wal.Base.Text.{is_digest}
use cryptogpt_one_intent_wal.Atomic.Operation.{TypedOperationSpec}

pub data JournalState : Type 0 where
  authorization_reserved signing_intent_recorded signed_broadcast_unknown : JournalState
  broadcast_intent_recorded broadcast_confirmed finalized aborted_before_signing : JournalState

pub JournalState-discrete : Discrete JournalState
JournalState-discrete = hlevel

abbrev pub state_eq : JournalState → JournalState → Bool
state_eq s t = ite (JournalState-discrete s t) true false

-- `_TERMINAL_STATES`
abbrev pub is_terminal : JournalState → Bool
is_terminal finalized = true
is_terminal aborted_before_signing = true
is_terminal _ = false

-- `new_state in _ALLOWED_TRANSITIONS.get(expected_state, frozenset())`
abbrev pub is_allowed : JournalState → JournalState → Bool
is_allowed authorization_reserved signing_intent_recorded = true
is_allowed authorization_reserved aborted_before_signing = true
is_allowed signing_intent_recorded signed_broadcast_unknown = true
is_allowed signed_broadcast_unknown broadcast_intent_recorded = true
is_allowed broadcast_intent_recorded broadcast_confirmed = true
is_allowed broadcast_confirmed finalized = true
is_allowed _ _ = false

pub data JournalError : Type 0 where
  clock_rollback : JournalError
  replay_detected : (claim_type : String) → JournalError
  unresolved_operation contract_error value_error key_error integrity_error : JournalError
  overflow_error : JournalError

-- `_VerifiedWithoutReservation`, less the request itself, which the journal does not read
pub record Verified : Type 0 where
  pub request_id : String
  pub authorization_id : String
  pub nonce : String
  pub operation_spec_digest : String
  pub review_receipt_digest : String
  pub runtime_decision_digest : String
  pub canonical_digest : String
  pub operation : TypedOperationSpec

pub record OperationRow : Type 0 where
  pub operation_id : String
  pub request_id : String
  pub authorization_id : String
  pub nonce : String
  pub payload_digest : String
  pub operation_sequence : ℕ
  pub fencing_token : ℕ
  pub state : JournalState
  pub created_at : ℕ
  pub updated_at : ℕ

pub record ClaimRow : Type 0 where
  pub claim_type : String
  pub claim_value : String
  pub operation_id : String

pub record EventRow : Type 0 where
  pub operation_id : String
  pub operation_sequence : ℕ
  pub event_type : String
  pub state : JournalState
  pub payload_digest : String
  pub observed_at : ℕ

pub record Journal : Type 0 where
  pub journal_meta : Dict ℕ
  pub operations : List OperationRow
  pub replay_claims : List ClaimRow
  pub operation_events : List EventRow

-- the journal that the schema script creates
abbrev pub empty_journal : Journal
empty_journal = record {
  journal_meta = [];
  operations = [];
  replay_claims = [];
  operation_events = [];
}

pub record JournalReservation : Type 0 where
  pub operation_id : String
  pub operation_sequence : ℕ
  pub fencing_token : ℕ
  pub state : JournalState

-- the range of an INTEGER: `OverflowError` for a parameter of a statement that is outside it
unfoldable pub bind_integer : ℕ → Result JournalError (Unit {0})
bind_integer n = guard (ltb n 9223372036854775808) overflow_error

-- `_meta` and `_set_meta`
abbrev pub meta : String → ℕ → Dict ℕ → ℕ
meta key default m = elim (lookup key m) [ none ↦ default | some value ↦ value ]

abbrev pub set_meta : String → ℕ → Dict ℕ → Dict ℕ
set_meta = insert

abbrev pub has_id : String → OperationRow → Bool
has_id id r = str_eq r.operation_id id

-- PRIMARY KEY and UNIQUE columns of `operations`
abbrev pub same_operation : OperationRow → OperationRow → Bool
same_operation r s =
    str_eq s.operation_id r.operation_id
    || str_eq s.request_id r.request_id
    || str_eq s.authorization_id r.authorization_id
    || str_eq s.nonce r.nonce
    || s.operation_sequence == r.operation_sequence
    || s.fencing_token == r.fencing_token

unfoldable pub insert_operation :
    OperationRow → List OperationRow → Result JournalError (List OperationRow)
insert_operation r table = do
  guard (not (any (same_operation r) table)) integrity_error
  ok (table ++ r ∷ [])

abbrev pub is_claim : String → String → ClaimRow → Bool
is_claim claim_type claim_value c =
    str_eq c.claim_type claim_type && str_eq c.claim_value claim_value

-- PRIMARY KEY (claim_type, claim_value), and the reference to `operations`
unfoldable pub insert_claim :
    List OperationRow → ClaimRow → List ClaimRow → Result JournalError (List ClaimRow)
insert_claim operations c table = do
  guard (not (any (is_claim c.claim_type c.claim_value) table)) integrity_error
  guard (any (has_id c.operation_id) operations) integrity_error
  ok (table ++ c ∷ [])

abbrev pub is_event : String → ℕ → EventRow → Bool
is_event operation_id sequence e =
    str_eq e.operation_id operation_id && e.operation_sequence == sequence

-- UNIQUE (operation_id, operation_sequence), and the reference to `operations`
unfoldable pub insert_event :
    List OperationRow → EventRow → List EventRow → Result JournalError (List EventRow)
insert_event operations e table = do
  guard (not (any (is_event e.operation_id e.operation_sequence) table)) integrity_error
  guard (any (has_id e.operation_id) operations) integrity_error
  ok (table ++ e ∷ [])

-- the five one-time claims of a request
abbrev pub claims : Verified → List (String × String)
claims v =
    ("requestId", v.request_id)
    ∷ ("authorizationId", v.authorization_id)
    ∷ ("nonce", v.nonce)
    ∷ ("operationId", v.operation.operation_id)
    ∷ ("operationSpecDigest", v.operation_spec_digest)
    ∷ []

-- the loop of `reserve` that refuses a claim which is in the table
unfoldable pub check_claims :
    List ClaimRow → List (String × String) → Result JournalError (Unit {0})
check_claims table [] = ok tt
check_claims table ((claim_type, claim_value) ∷ rest) =
    guard (not (any (is_claim claim_type claim_value) table)) (replay_detected claim_type)
    >> check_claims table rest

-- `executemany` over the claims
unfoldable pub insert_claims :
    List OperationRow
    → String
    → List (String × String)
    → List ClaimRow
    → Result JournalError (List ClaimRow)
insert_claims operations id [] table = ok table
insert_claims operations id ((claim_type, claim_value) ∷ rest) table =
    insert_claim operations
      (record { claim_type = claim_type; claim_value = claim_value; operation_id = id }) table
    >>= insert_claims operations id rest

abbrev pub is_unresolved : OperationRow → Bool
is_unresolved r = not (is_terminal r.state)

unfoldable pub assert_clock : ℕ → ℕ → Journal → Result JournalError (Unit {0})
assert_clock observed_at maximum_rollback j =
    guard
      (leb (meta "high_water_wall_time" observed_at j.journal_meta)
        (observed_at + maximum_rollback))
      clock_rollback

-- the row that `reserve` inserts
abbrev pub reserved_row : Verified → ℕ → ℕ → ℕ → OperationRow
reserved_row v sequence fencing_token observed_at = record {
  operation_id = v.operation.operation_id;
  request_id = v.request_id;
  authorization_id = v.authorization_id;
  nonce = v.nonce;
  payload_digest = v.operation.payload_commitment;
  operation_sequence = sequence;
  fencing_token = fencing_token;
  state = authorization_reserved;
  created_at = observed_at;
  updated_at = observed_at;
}

-- its first event
abbrev pub reserved_event : Verified → ℕ → EventRow
reserved_event v observed_at = record {
  operation_id = v.operation.operation_id;
  operation_sequence = 1;
  event_type = "AUTHORIZATION_RESERVED";
  state = authorization_reserved;
  payload_digest = v.operation.payload_commitment;
  observed_at = observed_at;
}

-- the high-water mark, raised by the time that the caller observed
abbrev pub high_water : ℕ → Dict ℕ → ℕ
high_water observed_at m = max observed_at (meta "high_water_wall_time" observed_at m)

abbrev pub observe : ℕ → Dict ℕ → Dict ℕ
observe observed_at m = set_meta "high_water_wall_time" (high_water observed_at m) m

-- the counters after a reservation
abbrev pub advance : ℕ → ℕ → Dict ℕ → Dict ℕ
advance sequence fencing_token m =
    set_meta "next_fencing_token" (fencing_token + 1)
      (set_meta "next_operation_sequence" (sequence + 1) m)

abbrev pub reservation : Verified → ℕ → ℕ → JournalReservation
reservation v sequence fencing_token = record {
  operation_id = v.operation.operation_id;
  operation_sequence = sequence;
  fencing_token = fencing_token;
  state = authorization_reserved;
}

-- the three inserts of `reserve`
unfoldable pub record_reservation :
    Verified → ℕ → Dict ℕ → Journal → Result JournalError (JournalReservation × Journal)
record_reservation v observed_at seen j = do
  let sequence = meta "next_operation_sequence" 1 seen
  let fencing_token = meta "next_fencing_token" 1 seen
  operations ← insert_operation (reserved_row v sequence fencing_token observed_at) j.operations
  replay_claims ← insert_claims operations v.operation.operation_id (claims v) j.replay_claims
  operation_events ← insert_event operations (reserved_event v observed_at) j.operation_events
  ok (
    reservation v sequence fencing_token,
    record {
      journal_meta = advance sequence fencing_token seen;
      operations = operations;
      replay_claims = replay_claims;
      operation_events = operation_events;
    },
  )

-- `reserve`; the high-water mark is not one of the two counters, which are read from the same table
unfoldable pub reserve :
    Verified → ℕ → ℕ → Journal → Result JournalError (JournalReservation × Journal)
unfolding assert_clock bind_integer
reserve v observed_at maximum_rollback j = do
  assert_clock observed_at maximum_rollback j
  bind_integer (high_water observed_at j.journal_meta)
  check_claims j.replay_claims (claims v)
  guard (not (any is_unresolved j.operations)) unresolved_operation
  bind_integer (meta "next_operation_sequence" 1 j.journal_meta + 1)
  bind_integer (meta "next_fencing_token" 1 j.journal_meta + 1)
  record_reservation v observed_at (observe observed_at j.journal_meta) j

-- SELECT COALESCE(MAX(operation_sequence), 0) FROM operation_events WHERE operation_id = ?
abbrev pub last_sequence : String → List EventRow → ℕ
last_sequence id [] = 0
last_sequence id (e ∷ es) =
    if str_eq e.operation_id id
    then max e.operation_sequence (last_sequence id es)
    else last_sequence id es

-- the arguments of `transition`
pub record Transition : Type 0 where
  pub operation_id : String
  pub fencing_token : ℕ
  pub expected_state : JournalState
  pub new_state : JournalState
  pub event_type : String
  pub payload_digest : String
  pub observed_at : ℕ

abbrev pub is_current : Transition → Option OperationRow → Bool
is_current t none = false
is_current t (some r) = r.fencing_token == t.fencing_token && state_eq r.state t.expected_state

abbrev pub apply_transition : Transition → OperationRow → OperationRow
apply_transition t r = record r {
  state = t.new_state;
  payload_digest = t.payload_digest;
  updated_at = t.observed_at;
}

-- `operation`: the row, or KeyError
pub operation : String → Journal → Result JournalError OperationRow
operation id j = elim (find (has_id id) j.operations) [ none ↦ err key_error | some r ↦ ok r ]

-- the event that `transition` appends
abbrev pub transition_event : Transition → ℕ → EventRow
transition_event t sequence = record {
  operation_id = t.operation_id;
  operation_sequence = sequence;
  event_type = t.event_type;
  state = t.new_state;
  payload_digest = t.payload_digest;
  observed_at = t.observed_at;
}

-- the two statements that change the tables
pub record_transition : Transition → Journal → Result JournalError Journal
record_transition t j = do
  let operations = update_where (has_id t.operation_id) (apply_transition t) j.operations
  operation_events ←
      insert_event operations
        (transition_event t (last_sequence t.operation_id j.operation_events + 1))
        j.operation_events
  ok (record j { operations = operations; operation_events = operation_events })

-- The row is read again after COMMIT; it is there, since the update did not remove it.
pub transition : Transition → Journal → Result JournalError (OperationRow × Journal)
transition t j = do
  guard (is_allowed t.expected_state t.new_state) value_error
  guard (is_digest t.payload_digest) value_error
  guard (is_current t (find (has_id t.operation_id) j.operations)) contract_error
  bind_integer t.observed_at
  j' ← record_transition t j
  row ← operation t.operation_id j'
  ok (row, j')

-- The rows of `unresolved_operations`, in the order of insertion, which is that of
-- `operation_sequence`.
pub unresolved_operations : Journal → List OperationRow
unresolved_operations j = select is_unresolved j.operations
