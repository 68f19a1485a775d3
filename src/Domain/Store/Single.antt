-- ===== src/Domain/Store/Single.antt =====
-- Single use: what was reserved stays reserved, in either store.
use cryptogpt_one_intent_wal.Base.{
  ◌≡◌, Bool, true, false, ◌||◌, if◌then◌else◌, any, arith, Bool-cases, inl, inr,
}
use cryptogpt_one_intent_wal.Base.RowLaws.{any-append}
use cryptogpt_one_intent_wal.Domain.Store.{
  Store, durable, memory, Consumed, collides, contains, insert_consumed, add_to_sets, reserve_in,
}
use cryptogpt_one_intent_wal.Domain.Store.Agree.{contains-add}

-- Some value of the row is in the store.
abbrev pub blocked : Store → Consumed → Bool
blocked (durable rows) r = any (collides r) rows
blocked (memory sets) r =
    contains r.authorization_id sets.authorization_ids
    || contains r.nonce sets.nonces
    || contains r.operation_fingerprint sets.operation_fingerprints

-- A reservation succeeds exactly if no value of the row is in the store, and a refused one changes
-- nothing.
pub reserve_in-blocked :
    (store : Store) (r : Consumed)
    → ((reserve_in store r).0 ≡ (if blocked store r then false else true))
      × (blocked store r ≡ true → (reserve_in store r).1 ≡ store)
unfolding insert_consumed add_to_sets
reserve_in-blocked (durable rows) r = ground arith
reserve_in-blocked (memory sets) r = ground arith

pub reserve_in_used :
    (store : Store) (r : Consumed) → blocked store r ≡ true → reserve_in store r ≡ (false, store)
unfolding insert_consumed add_to_sets
reserve_in_used (durable rows) r h = ground arith
reserve_in_used (memory sets) r h = ground arith

pub reserve_in_fresh :
    (store : Store) (r : Consumed)
    → blocked store r ≡ false
    → reserve_in store r ≡ (true, (reserve_in store r).1)
unfolding insert_consumed add_to_sets
reserve_in_fresh (durable rows) r h = ground arith
reserve_in_fresh (memory sets) r h = ground arith

-- What is blocked stays blocked.
pub blocked-reserve_in :
    (store : Store) (r q : Consumed)
    → blocked store q ≡ true
    → blocked (reserve_in store r).1 q ≡ true
unfolding insert_consumed add_to_sets
blocked-reserve_in (durable rows) r q h = elim (Bool-cases (any (collides r) rows)) [
  | inl used ↦ rw used h
  | inr fresh ↦ rw fresh (rw (any-append, h))
]
blocked-reserve_in (memory sets) r q h = ground (
  arith,
  contains-add q.authorization_id r.authorization_id sets.authorization_ids,
  contains-add q.nonce r.nonce sets.nonces,
  contains-add q.operation_fingerprint r.operation_fingerprint sets.operation_fingerprints,
)

-- A reservation that succeeds blocks every row that shares a value with it.
pub reserve_in_blocks :
    (store : Store) (r q : Consumed)
    → blocked store r ≡ false
    → collides q r ≡ true
    → blocked (reserve_in store r).1 q ≡ true
unfolding insert_consumed add_to_sets
reserve_in_blocks (durable rows) r q fresh h = rw fresh (rw any-append (ground arith))
reserve_in_blocks (memory sets) r q fresh h = ground (
  arith,
  contains-add q.authorization_id r.authorization_id sets.authorization_ids,
  contains-add q.nonce r.nonce sets.nonces,
  contains-add q.operation_fingerprint r.operation_fingerprint sets.operation_fingerprints,
)
