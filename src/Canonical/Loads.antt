-- ===== src/Canonical/Loads.antt =====
-- `strict_loads` and `strict_loads_bytes` of shared/canonical.py. The grammar of JSON and the decoding
-- of UTF-8 belong to the language's library; the hooks that `json.loads` calls are modelled.
use cryptogpt_one_intent_wal.Base.{
  ℕ, ◌*◌, String, Bool, true, false, not, ◌&&◌, Option, none, some, List, [], ◌∷◌, leb, ◌==◌,
  if◌then◌else◌, Result, ok, err, ◌>>=◌, ◌>>◌, guard, length, ◌≡◌, refl, arith, returns, ap, sym,
  ◌∙◌,
}
use cryptogpt_one_intent_wal.Base.Int.{ℤ, pos, negate, magnitude}
use cryptogpt_one_intent_wal.Base.Text.{is_prefix}
use cryptogpt_one_intent_wal.Canonical.Value.{
  Value, Items, Fields, null, bool, int, str, arr, obj, nil, cons, end, field, get,
}
use cryptogpt_one_intent_wal.Canonical.Checks.{
  Host, CanonicalError, resource_limit, unsafe_number, not_canonical, duplicate_key,
  max_safe_integer, ensure_nfc,
}
use cryptogpt_one_intent_wal.Canonical.Decimal.{digits_value}
use cryptogpt_one_intent_wal.Canonical.Bytes.{canonical_bytes}

-- A JSON text as the library reads it before the hooks: an integer has the codes of its digits and
-- sign, and an object has all its pairs.
mutual
  pub data Json : Type 0 where
    json_null : Json
    json_bool : Bool → Json
    json_int : List ℕ → Json
    json_float : Json
    json_constant : Json
    json_str : String → Json
    json_arr : JsonItems → Json
    json_obj : JsonPairs → Json

  pub data JsonItems : Type 0 where
    no_items : JsonItems
    item : Json → JsonItems → JsonItems

  pub data JsonPairs : Type 0 where
    no_pairs : JsonPairs
    pair : String → Json → JsonPairs → JsonPairs

-- What the source takes of the language: strict UTF-8, and the grammar of `json.loads`.
pub record JsonHost : Type 0 where
  pub decode_utf8 : List ℕ → Option String
  pub parse_json : String → Option Json

abbrev signed_value : List ℕ → ℤ
signed_value [] = pos 0
signed_value (c ∷ cs) =
    if c == 45 then negate (pos (digits_value 0 cs)) else pos (digits_value 0 (c ∷ cs))

abbrev is_negative_zero : List ℕ → Bool
is_negative_zero (a ∷ b ∷ []) = a == 45 && b == 48
is_negative_zero _ = false

-- `_parse_int`
unfoldable pub parse_int : List ℕ → Result CanonicalError Value
parse_int raw = do
  guard (not (is_negative_zero raw)) unsafe_number
  guard (leb (magnitude (signed_value raw)) max_safe_integer) unsafe_number
  ok (int (signed_value raw))

abbrev absent : Option Value → Bool
absent none = true
absent (some v) = false

-- `_parse_int`, `_reject_float`, `_reject_constant` and `_object_pairs`, where `json.loads` calls them
unfoldable mutual
  unfolding parse_int

  pub with_hooks : Json → Result CanonicalError Value
  with_hooks json_null = ok null
  with_hooks (json_bool b) = ok (bool b)
  with_hooks (json_int raw) = parse_int raw
  with_hooks json_float = err unsafe_number
  with_hooks json_constant = err unsafe_number
  with_hooks (json_str s) = ok (str s)
  with_hooks (json_arr xs) = items_with_hooks xs >>= λ items. ok (arr items)
  with_hooks (json_obj ps) = object_pairs ps >>= λ fs. ok (obj fs)

  pub items_with_hooks : JsonItems → Result CanonicalError Items
  items_with_hooks no_items = ok nil
  items_with_hooks (item x xs) = with_hooks x >>= λ v. items_with_hooks xs >>= λ vs. ok (cons v vs)

  pub object_pairs : JsonPairs → Result CanonicalError Fields
  object_pairs no_pairs = ok end
  object_pairs (pair k x ps) = do
    v ← with_hooks x
    fs ← object_pairs ps
    guard (absent (get k fs)) duplicate_key
    ok (field k v fs)

abbrev pub max_json_text_bytes : ℕ
max_json_text_bytes = 1024 * 1024

abbrev pub eq_bytes : List ℕ → List ℕ → Bool
eq_bytes [] [] = true
eq_bytes (x ∷ xs) (y ∷ ys) = x == y && eq_bytes xs ys
eq_bytes _ _ = false

pub eq_bytes-eq : (xs ys : List ℕ) → eq_bytes xs ys ≡ true → xs ≡ ys
eq_bytes-eq [] [] h = refl
eq_bytes-eq [] (y ∷ ys) h = cc
eq_bytes-eq (x ∷ xs) [] h = cc
eq_bytes-eq (x ∷ xs) (y ∷ ys) h = ground (arith, eq_bytes-eq xs ys)

module _ (host : Host) (json : JsonHost) where
  abbrev parsed : Option Json → Result CanonicalError Value
  parsed none = err not_canonical
  parsed (some j) = with_hooks j

  -- `strict_loads` of a text whose encoding is known to be short enough
  unfoldable pub strict_loads : String → Result CanonicalError Value
  strict_loads text = parsed (json.parse_json text) >>= λ v. ensure_nfc host v

  abbrev decoded : Option String → Result CanonicalError Value
  decoded none = err not_canonical
  decoded (some text) = strict_loads text

  -- the tests of `strict_loads_bytes` before it decodes
  unfoldable pub check_bytes : List ℕ → Result CanonicalError (Unit {0})
  check_bytes raw = do
    guard (not (is_prefix (0xEF ∷ 0xBB ∷ 0xBF ∷ []) raw)) not_canonical
    guard (leb (length raw) max_json_text_bytes) resource_limit

  -- `strict_loads_bytes` with `require_canonical`, as the signer calls it
  unfoldable pub strict_loads_bytes : List ℕ → Result CanonicalError Value
  strict_loads_bytes raw = do
    check_bytes raw
    value ← decoded (json.decode_utf8 raw)
    encoded ← canonical_bytes host value
    guard (eq_bytes encoded raw) not_canonical
    ok value

  -- What is loaded has the loaded bytes as its canonical bytes.
  pub canonical_bytes-loaded :
      (raw : List ℕ) {value : Value}
      → strict_loads_bytes raw ≡ ok value
      → canonical_bytes host value ≡ ok raw
  unfolding strict_loads_bytes
  canonical_bytes-loaded raw {value} h =
      let (loaded, read) = returns (decoded (json.decode_utf8 raw)) (λ e bad. ground arith) in
      let (encoded, written) = returns (canonical_bytes host loaded) (λ e bad. ground arith) in
      let same : eq_bytes encoded raw ≡ true = ground arith in
      let kept : loaded ≡ value = ground arith in
      ap (λ v. canonical_bytes host v) (sym kept) ∙ written ∙ ap ok (eq_bytes-eq encoded raw same)
