-- ===== src/Ledger/Checks.antt =====
-- The validators of services/ledger_store/store.py. Arguments have the types that the signatures
-- declare, so the tests of runtime types pass and are left out.
use mathlib.Core.List.{flat_map}
use Prim.Native.Nat.{◌*◌}
use cryptogpt_one_intent_wal.Base.{
  ℕ, ◌+◌, ◌-◌, ◌^◌, String, Bool, true, false, not, ◌&&◌, ◌||◌, List, [], ◌∷◌, leb, ◌==◌, Result,
  ok, err, ◌>>=◌, ◌>>◌, guard, length, any, all,
}
use cryptogpt_one_intent_wal.Base.Int.{ℤ, pos, negsuc, magnitude}
use cryptogpt_one_intent_wal.Base.Text.{codes, is_digit, is_trimmed}
use cryptogpt_one_intent_wal.Canonical.Value.{
  Value, Items, Fields, null, bool, int, str, float, arr, obj, other, nil, cons, end, field,
}
use cryptogpt_one_intent_wal.Canonical.Bytes.{ordered, dumps, utf8}
use cryptogpt_one_intent_wal.Domain.Checks.{is_control}
use cryptogpt_one_intent_wal.Ledger.Rows.{LedgerError, validation}

-- What the store takes of other libraries: SHA-256 as hexadecimal text, and `json.loads`.
pub record LedgerHost : Type 0 where
  pub sha256 : List ℕ → String
  pub json_loads : List ℕ → Value

abbrev pub max_text : ℕ
max_text = 512

abbrev pub max_payload_bytes : ℕ
max_payload_bytes = 64 * 1024

abbrev pub max_json_depth : ℕ
max_json_depth = 32

abbrev pub max_json_nodes : ℕ
max_json_nodes = 4096

abbrev pub max_lines : ℕ
max_lines = 128

abbrev pub max_minor_units : ℕ
max_minor_units = 10 ^ 15

abbrev pub max_sqlite_integer : ℕ
max_sqlite_integer = 2 ^ 63 - 1

unfoldable pub validate_text : String → ℕ → Result LedgerError String
validate_text value maximum = do
  guard (is_trimmed (codes value)) validation
  guard (leb (length (codes value)) maximum && not (any is_control (codes value))) validation
  ok value

-- texts that are checked one after the other
unfoldable pub validate_texts : List String → Result LedgerError (Unit {0})
unfolding validate_text
validate_texts [] = ok tt
validate_texts (value ∷ values) = validate_text value max_text >> validate_texts values

unfoldable pub validate_time : ℤ → Result LedgerError ℕ
validate_time (pos n) = guard (leb n max_sqlite_integer) validation >> ok n
validate_time (negsuc n) = err validation

unfoldable pub validate_positive_int : ℤ → ℕ → Result LedgerError ℕ
validate_positive_int (pos n) maximum = guard (leb 1 n && leb n maximum) validation >> ok n
validate_positive_int (negsuc n) maximum = err validation

abbrev pub is_upper : ℕ → Bool
is_upper c = leb 65 c && leb c 90

-- `[A-Z][A-Z0-9_.:-]{0,127}`, matched as a whole
abbrev pub is_error_code : List ℕ → Bool
is_error_code [] = false
is_error_code (c ∷ cs) =
    is_upper c
    && leb (length cs) 127
    && all (λ d. is_upper d || is_digit d || d == 95 || d == 46 || d == 58 || d == 45) cs

-- the count of nodes and the depth, which `validate` checks first
abbrev pub enter : ℕ → ℕ → Result LedgerError ℕ
enter depth nodes =
    guard (leb (nodes + 1) max_json_nodes && leb depth max_json_depth) validation >> ok (nodes + 1)

-- the inner `validate` of `_canonical_json`, with the count of nodes passed along
unfoldable mutual
  unfolding validate_text

  pub validate_node : Value → ℕ → ℕ → Result LedgerError ℕ
  validate_node null depth nodes = enter depth nodes
  validate_node (bool b) depth nodes = enter depth nodes
  validate_node (str s) depth nodes = do
    n ← enter depth nodes
    guard (leb (length (codes s)) max_payload_bytes) validation
    ok n
  validate_node (int z) depth nodes = do
    n ← enter depth nodes
    guard (leb (magnitude z) max_sqlite_integer) validation
    ok n
  validate_node float depth nodes = enter depth nodes >>= λ _. err validation
  validate_node other depth nodes = enter depth nodes >>= λ _. err validation
  validate_node (arr xs) depth nodes = enter depth nodes >>= λ n. validate_items xs (depth + 1) n
  validate_node (obj fs) depth nodes = enter depth nodes >>= λ n. validate_fields fs (depth + 1) n

  pub validate_items : Items → ℕ → ℕ → Result LedgerError ℕ
  validate_items nil depth nodes = ok nodes
  validate_items (cons x xs) depth nodes =
      validate_node x depth nodes >>= λ n. validate_items xs depth n

  pub validate_fields : Fields → ℕ → ℕ → Result LedgerError ℕ
  validate_fields end depth nodes = ok nodes
  validate_fields (field k v fs) depth nodes = do
    validate_text k max_text
    n ← validate_node v depth nodes
    validate_fields fs depth n

abbrev pub is_object : Value → Bool
is_object (obj fs) = true
is_object _ = false

-- `_canonical_json`: the text of the payload
unfoldable pub canonical_json : Value → Result LedgerError (List ℕ)
unfolding validate_node ordered dumps
canonical_json value = do
  guard (is_object value) validation
  validate_node value 0 0
  let encoded = dumps (ordered codes value)
  guard (leb (length (flat_map utf8 encoded)) max_payload_bytes) validation
  ok encoded

-- `_hash_json`
unfoldable pub hash_json : LedgerHost → Value → String
unfolding ordered dumps
hash_json host value = host.sha256 (flat_map utf8 (dumps (ordered codes value)))
