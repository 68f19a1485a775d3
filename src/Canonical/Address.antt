-- ===== src/Canonical/Address.antt =====
-- `canonical_decimal_string`, `canonical_network_address` and the fingerprints of shared/canonical.py.
use Prim.Native.Nat.{◌*◌}
use cryptogpt_one_intent_wal.Base.{
  ℕ, zero, suc, ◌+◌, ◌-◌, String, Bool, false, not, ◌&&◌, ◌||◌, Option, none, some, List, [], ◌∷◌,
  leb, ◌==◌, str_eq, if◌then◌else◌, Result, ok, err, ◌>>=◌, ◌>>◌, guard, length, any, all, map,
}
use cryptogpt_one_intent_wal.Base.Text.{codes, is_digit, is_lower_hex, is_prefix, is_trimmed}
use cryptogpt_one_intent_wal.Base.Hex.{hex}
use cryptogpt_one_intent_wal.Canonical.Value.{str, obj, end, field}
use cryptogpt_one_intent_wal.Canonical.Checks.{Host, CanonicalError, not_canonical, validate_string}
use cryptogpt_one_intent_wal.Canonical.Decimal.{Decimal, DecimalError, not_decimal, decimal_string}
use cryptogpt_one_intent_wal.Canonical.Bytes.{canonical_hash}
use cryptogpt_one_intent_wal.Canonical.Alias.{is_control_code}

abbrev pub canonical_profile_version : String
canonical_profile_version = "CGPT-C14N-1"

-- `cs[:n]`
abbrev take : ℕ → List ℕ → List ℕ
take n [] = []
take zero (c ∷ cs) = []
take (suc n) (c ∷ cs) = c ∷ take n cs

abbrev ends_with_zero : List ℕ → Bool
ends_with_zero [] = false
ends_with_zero (c ∷ []) = c == 48
ends_with_zero (c ∷ cs) = ends_with_zero cs

-- `canonical_decimal_string`
unfoldable pub canonical_decimal_string : String → ℕ → Result DecimalError Decimal
canonical_decimal_string raw scale = do
  value ← decimal_string raw (some scale)
  guard (not (any (λ c. c == 46) (codes raw) && ends_with_zero (codes raw))) not_decimal
  ok value

abbrev after : ℕ → List ℕ → List ℕ
after n [] = []
after zero (c ∷ cs) = c ∷ cs
after (suc n) (c ∷ cs) = after n cs

-- `_NETWORK_ID_RE`
abbrev pub is_network_id : String → Bool
is_network_id s =
    is_prefix (codes "eip155:") (codes s)
      && leb 8 (length (codes s))
      && all is_digit (after 7 (codes s))
    || str_eq s "hyperliquid:mainnet"
    || str_eq s "hyperliquid:testnet"

-- `_LOWER_EVM_ADDRESS_RE`, and the digits after "0x"
abbrev pub address_digits : List ℕ → Option (List ℕ)
address_digits (a ∷ b ∷ cs) =
    if a == 48 && b == 120 && length cs == 40 && all is_lower_hex cs then some cs else none
address_digits _ = none

abbrev pub digit_value : ℕ → ℕ
digit_value c = if leb c 57 then c - 48 else c - 87

-- `bytes.fromhex`
abbrev pub from_hex : List ℕ → List ℕ
from_hex (a ∷ b ∷ cs) = (digit_value a * 16 + digit_value b) ∷ from_hex cs
from_hex _ = []

module _ (host : Host) where
  abbrev address_bytes : String → Option (List ℕ) → Result CanonicalError (List ℕ)
  address_bytes address none = err not_canonical
  address_bytes address (some digits) = validate_string host address >>= λ _. ok (from_hex digits)

  -- `canonical_network_address`
  unfoldable pub canonical_network_address : String → String → Result CanonicalError (List ℕ)
  canonical_network_address network address = guard (is_network_id network) not_canonical >>= λ _.
      address_bytes address (address_digits (codes address))

  -- `canonical_hash(...)[:12].upper()`; the digest is in lowercase hexadecimal
  abbrev display : List ℕ → List ℕ
  display cs = map (λ c. if leb 97 c then c - 32 else c) (take 12 cs)

  -- `scoped_address_fingerprint`, as the codes of its text
  unfoldable pub scoped_address_fingerprint : String → String → Result CanonicalError (List ℕ)
  scoped_address_fingerprint network address = do
    bytes ← canonical_network_address network address
    digest ← canonical_hash host "address-fingerprint-v2" (
        obj (
          field "canonicalProfile" (str canonical_profile_version)
            (field "network" (str network) (field "addressBytes" (str (hex bytes)) end))))
    ok (display (codes digest))

  -- `address_fingerprint`
  unfoldable pub address_fingerprint : String → Result CanonicalError (List ℕ)
  address_fingerprint address = do
    guard (is_trimmed (codes address) && leb (length (codes address)) 512) not_canonical
    validate_string host address
    guard (not (any is_control_code (codes address))) not_canonical
    digest ← canonical_hash host "address-fingerprint-v1" (obj (field "address" (str address) end))
    ok (display (codes digest))
