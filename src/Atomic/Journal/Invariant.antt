-- ===== src/Atomic/Journal/Invariant.antt =====
-- What holds of a journal between two calls.
use cryptogpt_one_intent_wal.Base.{◌≤◌, ◌<◌, ◌≡◌, String, true, List, any, count_where, All}
use cryptogpt_one_intent_wal.Base.RowLaws.{Distinct}
use cryptogpt_one_intent_wal.Atomic.Journal.{
  OperationRow, ClaimRow, Journal, meta, has_id, is_claim, is_unresolved,
}

abbrev pub Claimed : List ClaimRow → String → String → Type 0
Claimed table claim_type claim_value = any (is_claim claim_type claim_value) table ≡ true

-- The identities of a row are consumed claims.
pub record IsClaimed (table : List ClaimRow) (r : OperationRow) : Type 0 where
  pub request : Claimed table "requestId" r.request_id
  pub authorization : Claimed table "authorizationId" r.authorization_id
  pub nonce : Claimed table "nonce" r.nonce
  pub operation : Claimed table "operationId" r.operation_id

pub record IsValid (j : Journal) : Type 0 where
  pub sequences :
      All (λ r. r.operation_sequence < meta "next_operation_sequence" 1 j.journal_meta) j.operations
  pub tokens : All (λ r. r.fencing_token < meta "next_fencing_token" 1 j.journal_meta) j.operations
  pub claimed : All (IsClaimed j.replay_claims) j.operations
  pub owned : All (λ e. any (has_id e.operation_id) j.operations ≡ true) j.operation_events
  pub distinct : Distinct (λ r. r.operation_id) j.operations
  pub single : count_where is_unresolved j.operations ≤ 1
