-- ===== src/Canonical/Checks.antt =====
-- `_validate_string` and `ensure_nfc` of shared/canonical.py: which values may be canonicalised.
use Prim.Native.Nat.{◌*◌}
use cryptogpt_one_intent_wal.Base.{
  ℕ, ◌+◌, ◌-◌, ◌^◌, String, Bool, not, ◌&&◌, List, [], ◌∷◌, leb, Result, ok, err, ◌>>=◌, ◌>>◌,
  guard, length, any,
}
use cryptogpt_one_intent_wal.Base.Int.{magnitude}
use cryptogpt_one_intent_wal.Base.Text.{codes}
use cryptogpt_one_intent_wal.Canonical.Value.{
  Value, Items, Fields, null, bool, int, str, float, arr, obj, other, nil, cons, end, field,
}

-- What the source takes of other libraries: Unicode normalisation and SHA-256 (as hexadecimal text).
pub record Host : Type 0 where
  pub is_nfc : String → Bool
  pub sha256 : List ℕ → String

pub data CanonicalError : Type 0 where
  resource_limit not_nfc ignorable_code_point unsafe_number not_canonical invalid_domain
        duplicate_key :
      CanonicalError

abbrev pub max_safe_integer : ℕ
max_safe_integer = 2 ^ 53 - 1

abbrev pub max_container_depth : ℕ
max_container_depth = 128

abbrev pub max_value_nodes : ℕ
max_value_nodes = 100000

abbrev pub max_string_length : ℕ
max_string_length = 256 * 1024

-- `_DEFAULT_IGNORABLE_RANGES`
abbrev pub default_ignorable_ranges : List (ℕ × ℕ)
default_ignorable_ranges =
    (0x00AD, 0x00AD)
    ∷ (0x034F, 0x034F)
    ∷ (0x061C, 0x061C)
    ∷ (0x115F, 0x1160)
    ∷ (0x17B4, 0x17B5)
    ∷ (0x180B, 0x180F)
    ∷ (0x200B, 0x200F)
    ∷ (0x202A, 0x202E)
    ∷ (0x2060, 0x206F)
    ∷ (0x3164, 0x3164)
    ∷ (0xFE00, 0xFE0F)
    ∷ (0xFEFF, 0xFEFF)
    ∷ (0xFFA0, 0xFFA0)
    ∷ (0x1BCA0, 0x1BCA3)
    ∷ (0x1D173, 0x1D17A)
    ∷ (0xE0000, 0xE0FFF)
    ∷ []

unfoldable pub is_default_ignorable : ℕ → Bool
is_default_ignorable c = any (λ r. leb r.0 c && leb c r.1) default_ignorable_ranges

module _ (host : Host) where
  -- A `Char` is a Unicode scalar, so the text has an encoding in UTF-8.
  unfoldable pub validate_string : String → Result CanonicalError String
  unfolding is_default_ignorable
  validate_string value = do
    guard (leb (length (codes value)) max_string_length) resource_limit
    guard (host.is_nfc value) not_nfc
    guard (not (any is_default_ignorable (codes value))) ignorable_code_point
    ok value

-- the two limits that `visit` checks first; the result is the new count of nodes
abbrev pub enter : ℕ → ℕ → Result CanonicalError ℕ
enter depth nodes = do
  guard (leb (nodes + 1) max_value_nodes) resource_limit
  guard (leb depth max_container_depth) resource_limit
  ok (nodes + 1)

-- `visit`, with the count of nodes passed along. Values are trees, so no container is met inside
-- itself, and the count and the depth bound the recursion.
unfoldable mutual
  pub visit : Host → Value → ℕ → ℕ → Result CanonicalError ℕ
  visit host null depth nodes = enter depth nodes
  visit host (bool b) depth nodes = enter depth nodes
  visit host (int z) depth nodes = do
    n ← enter depth nodes
    guard (leb (magnitude z) max_safe_integer) unsafe_number
    ok n
  visit host (str s) depth nodes = do n ← enter depth nodes; validate_string host s; ok n
  visit host float depth nodes = enter depth nodes >>= λ _. err unsafe_number
  visit host (arr xs) depth nodes = enter depth nodes >>= λ n. visit_items host xs (depth + 1) n
  visit host (obj fs) depth nodes = enter depth nodes >>= λ n. visit_fields host fs (depth + 1) n
  visit host other depth nodes = enter depth nodes >>= λ _. err not_canonical

  pub visit_items : Host → Items → ℕ → ℕ → Result CanonicalError ℕ
  visit_items host nil depth nodes = ok nodes
  visit_items host (cons x xs) depth nodes =
      visit host x depth nodes >>= λ n. visit_items host xs depth n

  -- keys are texts, visited like values
  pub visit_fields : Host → Fields → ℕ → ℕ → Result CanonicalError ℕ
  visit_fields host end depth nodes = ok nodes
  visit_fields host (field k v fs) depth nodes = do
    n ← enter depth nodes
    validate_string host k
    m ← visit host v depth n
    visit_fields host fs depth m

-- `ensure_nfc`, which returns its argument
unfoldable pub ensure_nfc : Host → Value → Result CanonicalError Value
ensure_nfc host value = visit host value 0 0 >>= λ _. ok value
