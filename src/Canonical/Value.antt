-- ===== src/Canonical/Value.antt =====
-- The values of the dynamic language that cross a boundary of the program: JSON and the two kinds
-- that canonical JSON rejects. A `tuple` counts as an array, and an object has its keys in order.
use cryptogpt_one_intent_wal.Base.{String, Bool, Option, none, some, str_eq, if◌then◌else◌, ℕ, suc}
use cryptogpt_one_intent_wal.Base.Int.{ℤ}

mutual
  pub data Value : Type 0 where
    null : Value
    bool : Bool → Value
    int : ℤ → Value
    str : String → Value
    float : Value
    arr : Items → Value
    obj : Fields → Value
    -- a value of any other type
    other : Value

  pub data Fields : Type 0 where
    end : Fields
    field : String → Value → Fields → Fields

  pub data Items : Type 0 where
    nil : Items
    cons : Value → Items → Items

-- `mapping.get(key)`
abbrev pub get : String → Fields → Option Value
get key end = none
get key (field k v fs) = if str_eq k key then some v else get key fs

-- `len(mapping)`
abbrev pub size : Fields → ℕ
size end = 0
size (field k v fs) = suc (size fs)
