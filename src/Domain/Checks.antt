-- ===== src/Domain/Checks.antt =====
-- The validators of shared/domain.py. An exception is its class; messages are left out.
use cryptogpt_one_intent_wal.Base.{
  ℕ, String, Bool, true, not, ◌&&◌, ◌||◌, Option, none, some, leb, ltb, ◌==◌, Result, ok, err, ◌>>◌,
  guard, length, any,
}
use cryptogpt_one_intent_wal.Base.Int.{ℤ, pos, leb_ℤ}
use cryptogpt_one_intent_wal.Base.Text.{codes}
use cryptogpt_one_intent_wal.Canonical.Value.{Value, Fields, bool, int, str, obj, size}
use cryptogpt_one_intent_wal.Canonical.Checks.{Host, max_safe_integer, ensure_nfc}
use cryptogpt_one_intent_wal.Canonical.Decimal.{Decimal, decimal_string}

pub data Error : Type 0 where
  domain_error canonicalization_error runtime_error value_error : Error

-- `except CanonicalizationError as exc: raise DomainError(...)`
abbrev pub wrap {ℓ κ} : {E : Type ℓ} {A : Type κ} → Result E A → Result Error A
wrap (ok a) = ok a
wrap (err e) = err domain_error

-- a canonicalization error that nothing catches
abbrev pub raise_through {ℓ κ} : {E : Type ℓ} {A : Type κ} → Result E A → Result Error A
raise_through (ok a) = ok a
raise_through (err e) = err canonicalization_error

abbrev pub is_control : ℕ → Bool
is_control c = ltb c 32 || c == 127

abbrev pub max_text_field : ℕ
max_text_field = 256

abbrev pub max_signature_field : ℕ
max_signature_field = 4096

abbrev pub max_final_payload_fields : ℕ
max_final_payload_fields = 128

-- `_bounded_text` with `allow_empty` false, as every caller has it
unfoldable pub bounded_text : Host → Value → ℕ → Result Error String
bounded_text host (str s) maximum = do
  guard (not (length (codes s) == 0) && leb (length (codes s)) maximum) domain_error
  wrap (ensure_nfc host (str s))
  guard (not (any is_control (codes s))) domain_error
  ok s
bounded_text host _ maximum = err domain_error

-- the test `value < minimum` where a minimum is given
abbrev pub at_least : Option ℤ → ℤ → Bool
at_least none z = true
at_least (some m) z = leb_ℤ m z

unfoldable pub strict_int : Value → Option ℤ → Result Error ℤ
strict_int (int z) minimum = do
  guard (leb_ℤ z (pos max_safe_integer) && at_least minimum z) domain_error
  ok z
strict_int _ minimum = err domain_error

unfoldable pub strict_bool : Value → Result Error Bool
strict_bool (bool b) = ok b
strict_bool _ = err domain_error

-- `_mapping`
unfoldable pub mapping : Host → Value → ℕ → Result Error Fields
mapping host (obj fs) maximum_fields = do
  guard (leb (size fs) maximum_fields) domain_error
  wrap (ensure_nfc host (obj fs))
  ok fs
mapping host _ maximum_fields = err domain_error

-- a decimal text, with its error turned into a `DomainError`
abbrev pub decimal_field : String → Result Error Decimal
decimal_field s = wrap (decimal_string s none)

-- `_strict_int` with both limits given
unfoldable pub int_within : Value → ℤ → ℤ → Result Error ℤ
int_within (int z) minimum maximum = do
  guard (leb_ℤ z maximum && leb_ℤ minimum z) domain_error
  ok z
int_within _ minimum maximum = err domain_error
