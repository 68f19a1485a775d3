-- ===== src/Canonical/Bytes.antt =====
-- `canonical_bytes` and `canonical_hash` of shared/canonical.py: JSON with sorted keys, minimal
-- separators and no escapes but the necessary ones, in UTF-8.
use Prim.Native.Nat.{◌/◌, ◌%◌, ◌*◌}
use mathlib.Core.List.{flat_map}
use cryptogpt_one_intent_wal.Base.{
  ℕ, zero, suc, ◌+◌, ◌-◌, String, Bool, true, false, not, ◌&&◌, ◌||◌, List, [], ◌∷◌, ◌++◌, leb, ltb,
  ◌==◌, if◌then◌else◌, Result, ok, ◌>>=◌, ◌>>◌, guard, length, any,
}
use cryptogpt_one_intent_wal.Base.Int.{ℤ, pos, negsuc}
use cryptogpt_one_intent_wal.Base.Text.{codes}
use cryptogpt_one_intent_wal.Canonical.Value.{
  Value, Items, Fields, null, bool, int, str, float, arr, obj, other, nil, cons, end, field,
}
use cryptogpt_one_intent_wal.Canonical.Checks.{
  Host, CanonicalError, resource_limit, invalid_domain, validate_string, ensure_nfc,
}

-- A number in decimal; a number has fewer digits than the fuel `n + 1`.
pub digits_from : ℕ → ℕ → List ℕ
digits_from zero n = []
digits_from (suc fuel) n =
    let rest = digits_from fuel (n / 10) in
    if ltb n 10 then (48 + n) ∷ [] else rest ++ (48 + n % 10) ∷ []

abbrev pub show_ℕ : ℕ → List ℕ
show_ℕ n = digits_from (suc n) n

abbrev pub show_ℤ : ℤ → List ℕ
show_ℤ (pos n) = show_ℕ n
show_ℤ (negsuc n) = 45 ∷ show_ℕ (suc n)

abbrev pub hex_digit : ℕ → ℕ
hex_digit n = if ltb n 10 then 48 + n else 87 + n

-- a character inside quotes, as `json.dumps(ensure_ascii=False)` escapes it
abbrev pub escape : ℕ → List ℕ
escape c =
    if c == 34
    then 92 ∷ 34 ∷ []
    else if c == 92
    then 92 ∷ 92 ∷ []
    else if c == 10
    then 92 ∷ 110 ∷ []
    else if c == 13
    then 92 ∷ 114 ∷ []
    else if c == 9
    then 92 ∷ 116 ∷ []
    else if c == 12
    then 92 ∷ 102 ∷ []
    else if c == 8
    then 92 ∷ 98 ∷ []
    else if ltb c 32
    then 92 ∷ 117 ∷ 48 ∷ 48 ∷ hex_digit (c / 16) ∷ hex_digit (c % 16) ∷ []
    else c ∷ []

abbrev pub quote : List ℕ → List ℕ
quote cs = 34 ∷ (flat_map escape cs ++ 34 ∷ [])

-- the code units of a character in UTF-16
abbrev pub utf16_units : ℕ → List ℕ
utf16_units c =
    if ltb c 0x10000
    then c ∷ []
    else (0xD800 + (c - 0x10000) / 1024) ∷ (0xDC00 + (c - 0x10000) % 1024) ∷ []

-- the order of byte strings in big-endian UTF-16 is that of their code units
unfoldable pub leb_units : List ℕ → List ℕ → Bool
leb_units [] ys = true
leb_units (x ∷ xs) [] = false
leb_units (x ∷ xs) (y ∷ ys) = ltb x y || x == y && leb_units xs ys

abbrev pub sort_key : String → List ℕ
sort_key s = flat_map utf16_units (codes s)

-- `sorted` is stable, and the keys of an object are distinct
pub insert_field : (String → List ℕ) → String → Value → Fields → Fields
unfolding leb_units
insert_field key k v end = field k v end
insert_field key k v (field j w fs) =
    if leb_units (key k) (key j)
    then field k v (field j w fs)
    else field j w (insert_field key k v fs)

-- `_ordered_json_value`, by any key; `json.dumps(sort_keys=True)` orders by code points
unfoldable mutual
  unfolding insert_field

  pub ordered : (String → List ℕ) → Value → Value
  ordered key (arr xs) = arr (ordered_items key xs)
  ordered key (obj fs) = obj (ordered_fields key fs)
  ordered key null = null
  ordered key (bool b) = bool b
  ordered key (int z) = int z
  ordered key (str s) = str s
  ordered key float = float
  ordered key other = other

  pub ordered_items : (String → List ℕ) → Items → Items
  ordered_items key nil = nil
  ordered_items key (cons x xs) = cons (ordered key x) (ordered_items key xs)

  pub ordered_fields : (String → List ℕ) → Fields → Fields
  ordered_fields key end = end
  ordered_fields key (field k v fs) = insert_field key k (ordered key v) (ordered_fields key fs)

-- `json.dumps`; `ensure_nfc` has refused floats and values of other types before.
unfoldable mutual
  unfolding digits_from

  pub dumps : Value → List ℕ
  dumps null = codes "null"
  dumps (bool true) = codes "true"
  dumps (bool false) = codes "false"
  dumps (int z) = show_ℤ z
  dumps (str s) = quote (codes s)
  dumps float = []
  dumps other = []
  dumps (arr nil) = 91 ∷ 93 ∷ []
  dumps (arr (cons x xs)) = 91 ∷ (dumps x ++ dumps_items xs)
  dumps (obj end) = 123 ∷ 125 ∷ []
  dumps (obj (field k v fs)) = 123 ∷ (quote (codes k) ++ 58 ∷ (dumps v ++ dumps_fields fs))

  pub dumps_items : Items → List ℕ
  dumps_items nil = 93 ∷ []
  dumps_items (cons x xs) = 44 ∷ (dumps x ++ dumps_items xs)

  pub dumps_fields : Fields → List ℕ
  dumps_fields end = 125 ∷ []
  dumps_fields (field k v fs) = 44 ∷ (quote (codes k) ++ 58 ∷ (dumps v ++ dumps_fields fs))

-- a character in UTF-8
abbrev pub utf8 : ℕ → List ℕ
utf8 c =
    if ltb c 0x80
    then c ∷ []
    else if ltb c 0x800
    then (0xC0 + c / 64) ∷ (0x80 + c % 64) ∷ []
    else if ltb c 0x10000
    then (0xE0 + c / 4096) ∷ (0x80 + c / 64 % 64) ∷ (0x80 + c % 64) ∷ []
    else (0xF0 + c / 262144) ∷ (0x80 + c / 4096 % 64) ∷ (0x80 + c / 64 % 64) ∷ (0x80 + c % 64) ∷ []

abbrev pub max_canonical_bytes : ℕ
max_canonical_bytes = 1024 * 1024

abbrev pub max_hash_domain_length : ℕ
max_hash_domain_length = 128

module _ (host : Host) where
  unfoldable pub canonical_bytes : Value → Result CanonicalError (List ℕ)
  unfolding ensure_nfc ordered dumps
  canonical_bytes value = do
    ensure_nfc host value
    let encoded = flat_map utf8 (dumps (ordered sort_key value))
    guard (leb (length encoded) max_canonical_bytes) resource_limit
    ok encoded

  -- SHA-256 over the domain, a zero byte and the canonical bytes
  unfoldable pub canonical_hash : String → Value → Result CanonicalError String
  unfolding validate_string canonical_bytes
  canonical_hash domain value = do
    validate_string host domain
    guard
        (not (length (codes domain) == 0)
          && leb (length (codes domain)) max_hash_domain_length
          && not (any (λ c. c == 0) (codes domain)))
        invalid_domain
    encoded ← canonical_bytes value
    ok (host.sha256 (flat_map utf8 (codes domain) ++ 0 ∷ encoded))
