-- ===== src/Domain/Store/Agree.antt =====
-- The three sets of the memory store stand for the rows of the durable one.
use cryptogpt_one_intent_wal.Base.{
  ◌≡◌, refl, String, Bool, ◌||◌, List, [], ◌∷◌, ◌++◌, str_eq, any, arith, eq_iff, Bool-cases, inl,
  inr, ◌∙◌,
}
use mathlib.Core.Path.{ap, ap₂}
use cryptogpt_one_intent_wal.Base.RowLaws.{any-append}
use cryptogpt_one_intent_wal.Domain.Store.{
  Consumed, MemorySets, collides, contains, add, insert_consumed, add_to_sets,
}

-- The values of one column.
abbrev pub Column : (Consumed → String) → List Consumed → List String → Type 0
Column f rows set = (x : String) → contains x set ≡ any (λ r. str_eq (f r) x) rows

pub record Agree (rows : List Consumed) (sets : MemorySets) : Type 0 where
  pub ids : Column (λ r. r.authorization_id) rows sets.authorization_ids
  pub nonces : Column (λ r. r.nonce) rows sets.nonces
  pub fingerprints : Column (λ r. r.operation_fingerprint) rows sets.operation_fingerprints

any-|| {ℓ} :
    {A : Type ℓ} (p q : A → Bool) (xs : List A) → any (λ x. p x || q x) xs ≡ (any p xs || any q xs)
any-|| p q [] = refl
any-|| p q (x ∷ xs) = ground (arith, any-|| p q xs)

pub contains-add :
    (x y : String) (set : List String) → contains x (add y set) ≡ (contains x set || str_eq y x)
contains-add x y set = elim (Bool-cases (contains y set)) [
  | inl old ↦ rw old (ground (arith, eq_iff y x, old))
  | inr new ↦ rw new (rw any-append (ground arith))
]

Column-add :
    (f : Consumed → String) (r : Consumed) (rows : List Consumed) (set : List String)
    → Column f rows set
    → Column f (rows ++ r ∷ []) (add (f r) set)
Column-add f r rows set h x = contains-add x (f r) set ∙ rw (any-append, h x) (ground arith)

-- The test of the one store is the test of the other.
any-collides :
    (r : Consumed) (rows : List Consumed) (sets : MemorySets)
    → Agree rows sets
    → any (collides r) rows ≡ (
        contains r.authorization_id sets.authorization_ids
        || contains r.nonce sets.nonces
        || contains r.operation_fingerprint sets.operation_fingerprints)
any-collides r rows sets h =
    let i = λ (s : Consumed). str_eq s.authorization_id r.authorization_id in
    let n = λ (s : Consumed). str_eq s.nonce r.nonce in
    let f = λ (s : Consumed). str_eq s.operation_fingerprint r.operation_fingerprint in
    any-|| (λ s. i s || n s) f rows
    ∙ ap (λ b. b || any f rows) (any-|| i n rows)
    ∙ rw (h.ids r.authorization_id, h.nonces r.nonce, h.fingerprints r.operation_fingerprint)

-- Both stores give the same answer, and go on to hold the same values.
pub reserve-Agree :
    (r : Consumed) (rows : List Consumed) (sets : MemorySets)
    → Agree rows sets
    → ((insert_consumed r rows).0 ≡ (add_to_sets r sets).0)
      × Agree (insert_consumed r rows).1 (add_to_sets r sets).1
unfolding insert_consumed add_to_sets
reserve-Agree r rows sets h = elim (Bool-cases (any (collides r) rows)) [
  | inl used ↦ rw (← any-collides r rows sets h) (rw used (refl, h))
  | inr fresh ↦ rw (← any-collides r rows sets h) (
      rw fresh (
        refl,
        record {
          ids = Column-add (λ s. s.authorization_id) r rows sets.authorization_ids h.ids;
          nonces = Column-add (λ s. s.nonce) r rows sets.nonces h.nonces;
          fingerprints =
              Column-add (λ s. s.operation_fingerprint) r rows sets.operation_fingerprints
                h.fingerprints;
        },
      ))
]

-- The answers to a sequence of reservations.
pub durable_answers : List Consumed → List Consumed → List Bool
durable_answers rows [] = []
durable_answers rows (r ∷ rs) =
    let (done, rows') = insert_consumed r rows in done ∷ durable_answers rows' rs

pub memory_answers : MemorySets → List Consumed → List Bool
memory_answers sets [] = []
memory_answers sets (r ∷ rs) =
    let (done, sets') = add_to_sets r sets in done ∷ memory_answers sets' rs

answers-Agree :
    (rs rows : List Consumed) (sets : MemorySets)
    → Agree rows sets
    → durable_answers rows rs ≡ memory_answers sets rs
unfolding durable_answers memory_answers
answers-Agree [] rows sets h = refl
answers-Agree (r ∷ rs) rows sets h =
    let (same, agree) = reserve-Agree r rows sets h in
    ap₂ ◌∷◌ same (answers-Agree rs (insert_consumed r rows).1 (add_to_sets r sets).1 agree)

abbrev pub no_sets : MemorySets
no_sets = record { authorization_ids = []; nonces = []; operation_fingerprints = [] }

-- From empty stores, the table with unique columns and the three sets answer every sequence of
-- reservations alike.
pub memory-eq-durable : (rs : List Consumed) → durable_answers [] rs ≡ memory_answers no_sets rs
memory-eq-durable rs =
    answers-Agree rs [] no_sets
      (record { ids = λ x. refl; nonces = λ x. refl; fingerprints = λ x. refl })
