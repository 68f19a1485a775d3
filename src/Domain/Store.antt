-- ===== src/Domain/Store.antt =====
-- The single-use stores of shared/domain.py: a table with three unique columns, and three sets.
pub mod Agree
pub mod Single
use cryptogpt_one_intent_wal.Base.{
  ℕ, String, Bool, true, false, not, ◌&&◌, ◌||◌, List, [], ◌∷◌, ◌++◌, str_eq, if◌then◌else◌, Result,
  ok, err, ◌>>=◌, ◌>>◌, any,
}
use cryptogpt_one_intent_wal.Canonical.Value.{str}
use cryptogpt_one_intent_wal.Canonical.Checks.{Host}
use cryptogpt_one_intent_wal.Domain.Checks.{Error, bounded_text, max_text_field}

-- a row of `consumed_authorization`
pub record Consumed : Type 0 where
  pub authorization_id : String
  pub nonce : String
  pub operation_fingerprint : String

-- a row with the primary key or a unique value of `r`
abbrev pub collides : Consumed → Consumed → Bool
collides r s =
    str_eq s.authorization_id r.authorization_id
    || str_eq s.nonce r.nonce
    || str_eq s.operation_fingerprint r.operation_fingerprint

-- `_authorization_ids`, `_nonces` and `_operation_fingerprints`
pub record MemorySets : Type 0 where
  pub authorization_ids : List String
  pub nonces : List String
  pub operation_fingerprints : List String

-- `x in s` and `s.add(x)`
abbrev pub contains : String → List String → Bool
contains x s = any (λ y. str_eq y x) s

abbrev pub add : String → List String → List String
add x s = if contains x s then s else s ++ x ∷ []

pub data Store : Type 0 where
  durable : List Consumed → Store
  memory : MemorySets → Store

-- the class attribute `persistent`
abbrev pub persistent : Store → Bool
persistent (durable rows) = true
persistent (memory sets) = false

abbrev pub all_texts : Host → Consumed → Result Error (Unit {0})
all_texts host r = do
  bounded_text host (str r.authorization_id) max_text_field
  bounded_text host (str r.nonce) max_text_field
  bounded_text host (str r.operation_fingerprint) max_text_field
  ok tt

-- `DurableAuthorizationStore.reserve`: INSERT, and `sqlite3.IntegrityError` on a collision
unfoldable pub insert_consumed : Consumed → List Consumed → Bool × List Consumed
insert_consumed r rows = if any (collides r) rows then (false, rows) else (true, rows ++ r ∷ [])

-- `MemoryAuthorizationStore.reserve`
unfoldable pub add_to_sets : Consumed → MemorySets → Bool × MemorySets
add_to_sets r s =
    if contains r.authorization_id s.authorization_ids
      || contains r.nonce s.nonces
      || contains r.operation_fingerprint s.operation_fingerprints
    then (false, s)
    else (
      true,
      record {
        authorization_ids = add r.authorization_id s.authorization_ids;
        nonces = add r.nonce s.nonces;
        operation_fingerprints = add r.operation_fingerprint s.operation_fingerprints;
      },
    )

abbrev pub reserve_in : Store → Consumed → Bool × Store
reserve_in (durable rows) r = let (done, rows') = insert_consumed r rows in (done, durable rows')
reserve_in (memory sets) r = let (done, sets') = add_to_sets r sets in (done, memory sets')

-- `reserve(authorization_id, nonce, operation_fingerprint)` of both classes
unfoldable pub reserve : Host → Consumed → Store → Result Error (Bool × Store)
reserve host r store = all_texts host r >> ok (reserve_in store r)
