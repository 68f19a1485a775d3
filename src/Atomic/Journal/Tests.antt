-- ===== src/Atomic/Journal/Tests.antt =====
-- The journal on concrete requests, and the theorems at them.
use cryptogpt_one_intent_wal.Base.{String, ◌≤◌, ◌<◌, ◌≡◌, refl, [], ◌∷◌, ok, err, count_where, All}
use cryptogpt_one_intent_wal.Base.Text.{is_digest}
use cryptogpt_one_intent_wal.Atomic.Operation.{
  TypedOperationSpec, OperationType, OperationAction, cancel_details,
}
use cryptogpt_one_intent_wal.Atomic.Journal.{
  Verified, Journal, Transition, authorization_reserved, aborted_before_signing, empty_journal,
  reserve, bind_integer, transition, check_claims, insert_operation, insert_claims, insert_claim,
  insert_event, record_reservation, record_transition, operation, assert_clock, replay_detected,
  OperationRow, is_unresolved, overflow_error, JournalState-discrete, unresolved_operation,
}
use cryptogpt_one_intent_wal.Atomic.Journal.Invariant.{IsValid}
use cryptogpt_one_intent_wal.Atomic.Journal.Reservation.{reserved, reserve-eq}
use cryptogpt_one_intent_wal.Atomic.Journal.Steps.{moved, IsPermitted, transition_moves_exactly}
use cryptogpt_one_intent_wal.Atomic.Journal.Replay.{
  Steps, here, after_step, reserve_step, transition_step, empty_journal-IsValid, Steps-IsValid,
  no_replay,
}
use cryptogpt_one_intent_wal.Atomic.Journal.Fencing.{
  fencing_increases, token_moves_one_operation, single_flight,
}
use cryptogpt_one_intent_wal.Atomic.Journal.Audit.{IsLogged, events_follow_states}

program : Unit {0}
unfolding reserve bind_integer transition check_claims insert_operation insert_claims insert_claim
    insert_event record_reservation record_transition operation assert_clock reserved moved
    is_digest JournalState-discrete
program = tt

abbrev spec : TypedOperationSpec
spec = record {
  operation_id = "op-1";
  operation_type = OperationType.cancel;
  account = 1 ∷ 2 ∷ [];
  network = "hyperliquid:testnet";
  asset_id = "USDC";
  ordered_actions = OperationAction.cancel ∷ [];
  details = cancel_details "op-0" "BTC";
  payload_commitment = "p";
  expires_at = 500;
}

abbrev request : Verified
request = record {
  request_id = "r-1";
  authorization_id = "a-1";
  nonce = "n-1";
  operation_spec_digest = "d-1";
  review_receipt_digest = "rr";
  runtime_decision_digest = "rd";
  canonical_digest = "c";
  operation = spec;
}

-- another operation under the nonce of the first
abbrev replayed : Verified
replayed = record request {
  request_id = "r-2";
  authorization_id = "a-2";
  operation_spec_digest = "d-2";
  operation = record spec { operation_id = "op-2" };
}

abbrev fresh : Verified
fresh = record replayed { nonce = "n-2" }

abbrev first : Journal
first = reserved request 100 empty_journal

reserve-first :
    reserve request 100 5 empty_journal
    ≡ ok (
      record {
        operation_id = "op-1";
        operation_sequence = 1;
        fencing_token = 1;
        state = authorization_reserved;
      },
      first,
    )
unfolding program
reserve-first = refl

reserve-replayed : reserve replayed 101 5 first ≡ err (replay_detected "nonce")
unfolding program
reserve-replayed = refl

-- a clock that is beyond the range of an INTEGER
reserve_overflow : reserve request 9223372036854775808 5 empty_journal ≡ err overflow_error
unfolding program
reserve_overflow = refl

reserve_busy : reserve fresh 101 5 first ≡ err unresolved_operation
unfolding program
reserve_busy = refl

abbrev abort : Transition
abort = record {
  operation_id = "op-1";
  fencing_token = 1;
  expected_state = authorization_reserved;
  new_state = aborted_before_signing;
  event_type = "ABORTED";
  payload_digest = "0123456789abcdef0123456789abcdef0123456789abcdef0123456789abcdef";
  observed_at = 101;
}

abbrev second : Journal
second = moved abort first

abbrev first_row : OperationRow
first_row = record {
  operation_id = "op-1";
  request_id = "r-1";
  authorization_id = "a-1";
  nonce = "n-1";
  payload_digest = "p";
  operation_sequence = 1;
  fencing_token = 1;
  state = authorization_reserved;
  created_at = 100;
  updated_at = 100;
}

abbrev moved_row : OperationRow
moved_row = record first_row {
  state = aborted_before_signing;
  payload_digest = abort.payload_digest;
  updated_at = 101;
}

abort-first : transition abort first ≡ ok (moved_row, second)
unfolding program
abort-first = refl

reserve-second :
    reserve fresh 102 5 second
    ≡ ok (
      record {
        operation_id = "op-2";
        operation_sequence = 2;
        fencing_token = 2;
        state = authorization_reserved;
      },
      reserved fresh 102 second,
    )
unfolding program
reserve-second = refl

trace : Steps first second
trace = after_step here (transition_step abort abort-first)

whole_trace : Steps empty_journal second
whole_trace =
    after_step (after_step here (reserve_step request 100 5 reserve-first))
      (transition_step abort abort-first)

first-IsValid : IsValid first
first-IsValid =
    Steps-IsValid empty_journal-IsValid (after_step here (reserve_step request 100 5 reserve-first))

reserve-eq_example : reserve replayed 101 5 first ≡ err (replay_detected "nonce")
unfolding program
reserve-eq_example = reserve-eq replayed 101 5 first first-IsValid

transition_moves_exactly_example :
    (transition abort first ≡ ok (moved_row, second) → IsPermitted abort first_row)
    × (IsPermitted abort first_row → transition abort first ≡ ok (moved_row, second))
unfolding program
transition_moves_exactly_example = transition_moves_exactly abort first first_row refl

no_replay_example : ¬ (
    reserve replayed 103 5 second
    ≡ ok (
      record {
        operation_id = "op-2";
        operation_sequence = 2;
        fencing_token = 2;
        state = authorization_reserved;
      },
      second,
    ))
no_replay_example =
    no_replay request replayed 100 5 103 5 "nonce" "n-1" empty_journal-IsValid reserve-first trace
      refl refl

fencing_increases_example : (1 < 2) × (1 < 2)
fencing_increases_example =
    fencing_increases request fresh 100 5 102 5 empty_journal-IsValid reserve-first trace
      reserve-second

token_moves_one_operation_example : ◌≡◌ {A = String} "op-1" "op-1"
token_moves_one_operation_example =
    token_moves_one_operation request 100 5 abort empty_journal-IsValid reserve-first here refl
      abort-first

single_flight_example : count_where is_unresolved second.operations ≤ 1
single_flight_example = single_flight whole_trace

events_follow_states_example : All (IsLogged second.operation_events) second.operations
events_follow_states_example = events_follow_states whole_trace
