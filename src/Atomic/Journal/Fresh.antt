-- ===== src/Atomic/Journal/Fresh.antt =====
-- What a request with unused claims means for the tables: no key of its rows is there.
use cryptogpt_one_intent_wal.Base.{
  ℕ, ◌<◌, ◌≡◌, refl, String, true, false, List, [], ◌∷◌, ◌++◌, map, arith, eq_iff, str_eq, ok, err,
  any, All, ◌∙◌, ◌⊎◌, inl, inr, Bool-cases,
}
use mathlib.Core.List.{append-nil, append_assoc}
use cryptogpt_one_intent_wal.Base.RowLaws.{any-append}
use cryptogpt_one_intent_wal.Atomic.Journal.Invariant.{IsClaimed}
use cryptogpt_one_intent_wal.Atomic.Journal.{
  Verified, OperationRow, ClaimRow, EventRow, has_id, same_operation, is_claim, claims,
  insert_claims, insert_claim, reserved_row, check_claims, replay_detected, is_event,
}

-- None of the claims of the request is in the table.
abbrev pub Unclaimed : List ClaimRow → List (String × String) → Type 0
Unclaimed table = All (λ c. any (is_claim c.0 c.1) table ≡ false)

-- A request with fresh claims shares no key with a row of the table.
row_fresh :
    (table : List ClaimRow) (v : Verified) (n k t : ℕ) (s : OperationRow)
    → IsClaimed table s
    → Unclaimed table (claims v)
    → s.operation_sequence < n
    → s.fencing_token < k
    → same_operation (reserved_row v n k t) s ≡ false
row_fresh table v n k t s c u hn hk = ground (
  arith,
  eq_iff s.operation_id v.operation.operation_id,
  eq_iff s.request_id v.request_id,
  eq_iff s.authorization_id v.authorization_id,
  eq_iff s.nonce v.nonce,
)

pub rows_fresh :
    (table : List ClaimRow) (v : Verified) (n k t : ℕ) (rows : List OperationRow)
    → All (IsClaimed table) rows
    → Unclaimed table (claims v)
    → All (λ r. r.operation_sequence < n) rows
    → All (λ r. r.fencing_token < k) rows
    → any (same_operation (reserved_row v n k t)) rows ≡ false
rows_fresh table v n k t [] c u hn hk = refl
rows_fresh table v n k t (s ∷ rows) c u hn hk = ground (
  arith,
  row_fresh table v n k t s c.0 u hn.0 hk.0,
  rows_fresh table v n k t rows c.1 u hn.1 hk.1,
)

abbrev pub claim_row : String → String × String → ClaimRow
claim_row id c = record { claim_type = c.0; claim_value = c.1; operation_id = id }

-- The claims are pairwise of different types, and none is in the table.
abbrev pub AreFresh : List ClaimRow → List (String × String) → Type 0
AreFresh table [] = Unit
AreFresh table (c ∷ cs) =
    (any (is_claim c.0 c.1) table ≡ false)
    × All (λ d. str_eq c.0 d.0 ≡ false) cs
    × AreFresh table cs

AreFresh-append :
    (table : List ClaimRow) (r : ClaimRow) (cs : List (String × String))
    → All (λ d. str_eq r.claim_type d.0 ≡ false) cs
    → AreFresh table cs
    → AreFresh (table ++ r ∷ []) cs
AreFresh-append table r [] d h = tt
AreFresh-append table r (c ∷ cs) d h =
    (rw any-append (ground arith), h.1, AreFresh-append table r cs d.1 h.2)

pub insert_claims-eq :
    (operations : List OperationRow) (id : String) (cs : List (String × String))
    (table : List ClaimRow)
    → any (has_id id) operations ≡ true
    → AreFresh table cs
    → insert_claims operations id cs table ≡ ok (table ++ map (claim_row id) cs)
unfolding insert_claims insert_claim
insert_claims-eq operations id [] table known h = rw append-nil
insert_claims-eq operations id (c ∷ cs) table known h =
    rw (h.0, known)
      (insert_claims-eq operations id cs (table ++ claim_row id c ∷ []) known
          (AreFresh-append table (claim_row id c) cs h.1 h.2)
        ∙ rw append_assoc)

-- The five claims of a request have five types.
pub AreFresh-claims :
    (table : List ClaimRow) (v : Verified) → Unclaimed table (claims v) → AreFresh table (claims v)
AreFresh-claims table v h = ground arith

pub check_claims-cases :
    (table : List ClaimRow) (cs : List (String × String))
    → Unclaimed table cs ⊎ ((t : String) × (check_claims table cs ≡ err (replay_detected t)))
unfolding check_claims
check_claims-cases table [] = inl tt
check_claims-cases table (c ∷ cs) = elim (Bool-cases (any (is_claim c.0 c.1) table)) [
  | inl used ↦ inr (c.0, rw used)
  | inr free ↦ elim (check_claims-cases table cs) [
    | inl rest ↦ inl (free, rest)
    | inr (t, e) ↦ inr (t, rw (free, e))
  ]
]

-- An event of an operation that is not in the table is not there either.
pub events_fresh :
    (id : String) (operations : List OperationRow) (events : List EventRow)
    → any (has_id id) operations ≡ false
    → All (λ e. any (has_id e.operation_id) operations ≡ true) events
    → any (is_event id 1) events ≡ false
events_fresh id operations [] u h = refl
events_fresh id operations (e ∷ es) u h =
    ground (arith, eq_iff e.operation_id id, events_fresh id operations es u h.1)

pub ids_fresh :
    (table : List ClaimRow) (id : String) (rows : List OperationRow)
    → All (IsClaimed table) rows
    → any (is_claim "operationId" id) table ≡ false
    → any (has_id id) rows ≡ false
ids_fresh table id [] c u = refl
ids_fresh table id (s ∷ rows) c u =
    ground (arith, c.0, eq_iff s.operation_id id, ids_fresh table id rows c.1 u)
