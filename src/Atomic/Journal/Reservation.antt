-- ===== src/Atomic/Journal/Reservation.antt =====
-- `reserve` in a valid journal.
use cryptogpt_one_intent_wal.Base.{
  ℕ, ◌+◌, ◌<◌, ◌≡◌, refl, String, true, false, not, List, [], ◌∷◌, ◌++◌, map, arith, eq_refl,
  str_eq, if◌then◌else◌, Result, ok, ◌>>◌, guard, any, All, inl, inr,
}
use cryptogpt_one_intent_wal.Base.RowLaws.{
  any-append, count_where-append, count_where-eq-zero, All-append, All-imp, Distinct-append,
}
use cryptogpt_one_intent_wal.Base.Dict.{Dict, lookup-insert}
use cryptogpt_one_intent_wal.Atomic.Journal.Invariant.{IsClaimed, IsValid}
use cryptogpt_one_intent_wal.Atomic.Journal.Fresh.{
  Unclaimed, rows_fresh, claim_row, insert_claims-eq, AreFresh-claims, check_claims-cases,
  events_fresh, ids_fresh,
}
use cryptogpt_one_intent_wal.Atomic.Journal.{
  Verified, OperationRow, Journal, JournalError, meta, set_meta, has_id, claims, is_unresolved,
  reserved_row, insert_operation, check_claims, reserved_event, observe, advance, reserve,
  record_reservation, reservation, insert_event, unresolved_operation, assert_clock, bind_integer,
  high_water,
}

pub meta-set_meta :
    (k j : String) (d v : ℕ) (m : Dict ℕ)
    → meta k d (set_meta j v m) ≡ (if str_eq j k then v else meta k d m)
meta-set_meta k j d v m = ground (arith, lookup-insert j k v m)

-- The high-water mark does not touch the counters.
meta-observe :
    (t : ℕ) (m : Dict ℕ)
    → (meta "next_operation_sequence" 1 (observe t m) ≡ meta "next_operation_sequence" 1 m)
      × (meta "next_fencing_token" 1 (observe t m) ≡ meta "next_fencing_token" 1 m)
meta-observe t m = (rw meta-set_meta, rw meta-set_meta)

-- The journal after a reservation.
unfoldable pub reserved : Verified → ℕ → Journal → Journal
reserved v observed_at j =
    let sequence = meta "next_operation_sequence" 1 j.journal_meta in
    let fencing_token = meta "next_fencing_token" 1 j.journal_meta in
    record {
      journal_meta = advance sequence fencing_token (observe observed_at j.journal_meta);
      operations = j.operations ++ reserved_row v sequence fencing_token observed_at ∷ [];
      replay_claims = j.replay_claims ++ map (claim_row v.operation.operation_id) (claims v);
      operation_events = j.operation_events ++ reserved_event v observed_at ∷ [];
    }

-- The operation is known once its row is in the table.
known_after :
    (v : Verified) (n k t : ℕ) (rows : List OperationRow)
    → any (has_id v.operation.operation_id) (rows ++ reserved_row v n k t ∷ []) ≡ true
known_after v n k t rows = rw any-append (ground (arith, eq_refl v.operation.operation_id))

-- In a valid journal no constraint of the schema refuses the inserts of a fresh request.
pub record_reservation-eq :
    (v : Verified) (t : ℕ) (j : Journal)
    → IsValid j
    → Unclaimed j.replay_claims (claims v)
    → record_reservation v t (observe t j.journal_meta) j
      ≡ ok (
        reservation v
            (meta "next_operation_sequence" 1 j.journal_meta)
            (meta "next_fencing_token" 1 j.journal_meta),
        reserved v t j,
      )
unfolding record_reservation insert_operation insert_event reserved
record_reservation-eq v t j h u =
    let n = meta "next_operation_sequence" 1 j.journal_meta in
    let k = meta "next_fencing_token" 1 j.journal_meta in
    let known = known_after v n k t j.operations in
    rw (
      (meta-observe t j.journal_meta).0,
      (meta-observe t j.journal_meta).1,
      rows_fresh j.replay_claims v n k t j.operations h.claimed u h.sequences h.tokens,
      insert_claims-eq (j.operations ++ reserved_row v n k t ∷ []) v.operation.operation_id
          (claims v) j.replay_claims known (AreFresh-claims j.replay_claims v u),
      known,
      events_fresh v.operation.operation_id j.operations j.operation_events
          (ids_fresh j.replay_claims v.operation.operation_id j.operations h.claimed u.1.1.1.0)
          h.owned,
    )

-- The checks of `reserve` that the caller can fail, in their order.
abbrev pub admission : Verified → ℕ → ℕ → Journal → Result JournalError (Unit {0})
admission v observed_at maximum_rollback j = do
  assert_clock observed_at maximum_rollback j
  bind_integer (high_water observed_at j.journal_meta)
  check_claims j.replay_claims (claims v)
  guard (not (any is_unresolved j.operations)) unresolved_operation
  bind_integer (meta "next_operation_sequence" 1 j.journal_meta + 1)
  bind_integer (meta "next_fencing_token" 1 j.journal_meta + 1)

-- In a valid journal reserve either raises one of its own errors (clock behind the mark, a claim
-- that was used, an operation that is unresolved, a time or counter beyond the range of an
-- INTEGER), or records the reservation under the next sequence number and fencing token; a
-- constraint of the database never refuses it.
pub reserve-eq :
    (v : Verified) (observed_at maximum_rollback : ℕ) (j : Journal)
    → IsValid j
    → reserve v observed_at maximum_rollback j ≡ (
        admission v observed_at maximum_rollback j
        >> ok (
          reservation v
              (meta "next_operation_sequence" 1 j.journal_meta)
              (meta "next_fencing_token" 1 j.journal_meta),
          reserved v observed_at j,
        ))
unfolding reserve
reserve-eq v t m j h = elim (check_claims-cases j.replay_claims (claims v)) [
  | inl fresh ↦ rw (record_reservation-eq v t j h fresh) (ground arith)
  | inr (c, e) ↦ rw e (ground arith)
]

-- The counters after a reservation.
pub counters-reserved :
    (v : Verified) (t : ℕ) (j : Journal)
    → (meta "next_operation_sequence" 1 (reserved v t j).journal_meta
        ≡ meta "next_operation_sequence" 1 j.journal_meta + 1)
      × (meta "next_fencing_token" 1 (reserved v t j).journal_meta
          ≡ meta "next_fencing_token" 1 j.journal_meta + 1)
unfolding reserved
counters-reserved v t j = (simp meta-set_meta, simp meta-set_meta)

IsClaimed-after :
    (j : Journal) (v : Verified) (t : ℕ) (r : OperationRow)
    → IsClaimed j.replay_claims r
    → IsClaimed (reserved v t j).replay_claims r
unfolding reserved
IsClaimed-after j v t r c = record {
  request = rw any-append (rw c.request);
  authorization = rw any-append (rw c.authorization);
  nonce = rw any-append (rw c.nonce);
  operation = rw any-append (rw c.operation);
}

new-IsClaimed :
    (j : Journal) (v : Verified) (t n k : ℕ)
    → IsClaimed (reserved v t j).replay_claims (reserved_row v n k t)
unfolding reserved
new-IsClaimed j v t n k = record {
  request = rw any-append (ground (arith, eq_refl v.request_id));
  authorization = rw any-append (ground (arith, eq_refl v.authorization_id));
  nonce = rw any-append (ground (arith, eq_refl v.nonce));
  operation = rw any-append (ground (arith, eq_refl v.operation.operation_id));
}

-- Rows below a bound, and one row at the bound, are below the next number.
below_next :
    (f : OperationRow → ℕ) (n : ℕ) (rows : List OperationRow) (r : OperationRow)
    → f r ≡ n
    → All (λ s. f s < n) rows
    → All (λ s. f s < n + 1) (rows ++ r ∷ [])
below_next f n rows r e h =
    All-append (λ s. f s < n + 1) rows (r ∷ [])
      (All-imp (λ s. f s < n) (λ s. f s < n + 1) (λ s p. omega arith) rows h) (omega arith)

owned_after :
    (id : String) (rows : List OperationRow) (r : OperationRow)
    → any (has_id id) rows ≡ true
    → any (has_id id) (rows ++ r ∷ []) ≡ true
owned_after id rows r h = rw any-append (rw h)

-- A reservation keeps the journal valid.
pub reserved-IsValid :
    (v : Verified) (t : ℕ) (j : Journal)
    → IsValid j
    → Unclaimed j.replay_claims (claims v)
    → any is_unresolved j.operations ≡ false
    → IsValid (reserved v t j)
unfolding reserved
reserved-IsValid v t j h u quiet =
    let n = meta "next_operation_sequence" 1 j.journal_meta in
    let k = meta "next_fencing_token" 1 j.journal_meta in
    let r = reserved_row v n k t in
    record {
      sequences =
          simp meta-set_meta
            (below_next (λ s. s.operation_sequence) n j.operations r refl h.sequences);
      tokens =
          simp meta-set_meta (below_next (λ s. s.fencing_token) k j.operations r refl h.tokens);
      claimed =
          All-append (IsClaimed (reserved v t j).replay_claims) j.operations (r ∷ [])
            (All-imp (IsClaimed j.replay_claims) (IsClaimed (reserved v t j).replay_claims)
              (IsClaimed-after j v t) j.operations h.claimed)
            (new-IsClaimed j v t n k, tt);
      owned =
          All-append (λ e. any (has_id e.operation_id) (j.operations ++ r ∷ []) ≡ true)
            j.operation_events (reserved_event v t ∷ [])
            (All-imp (λ e. any (has_id e.operation_id) j.operations ≡ true)
              (λ e. any (has_id e.operation_id) (j.operations ++ r ∷ []) ≡ true)
              (λ e p. owned_after e.operation_id j.operations r p) j.operation_events h.owned)
            (known_after v n k t j.operations, tt);
      distinct =
          Distinct-append (λ s. s.operation_id) j.operations r h.distinct
            (ids_fresh j.replay_claims v.operation.operation_id j.operations h.claimed u.1.1.1.0);
      single =
          rw count_where-append
            (omega (arith, count_where-eq-zero is_unresolved j.operations quiet));
    }
