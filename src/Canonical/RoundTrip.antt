-- ===== src/Canonical/RoundTrip.antt =====
-- An address and its bytes: reading loses nothing, so two addresses with the same bytes are the same.
use Prim.Native.Nat.{◌/◌, ◌%◌, ◌*◌, ◌<◌}
use cryptogpt_one_intent_wal.Base.{
  ℕ, zero, suc, ◌+◌, ◌≡◌, refl, String, true, some, List, [], ◌∷◌, ok, length, all, arith, inl, inr,
  Option-cases, ap, sym, ◌∙◌,
}
use cryptogpt_one_intent_wal.Base.Text.{codes, is_lower_hex}
use cryptogpt_one_intent_wal.Canonical.Checks.{Host}
use cryptogpt_one_intent_wal.Canonical.Bytes.{hex_digit}
use cryptogpt_one_intent_wal.Canonical.Address.{
  digit_value, from_hex, address_digits, canonical_network_address,
}

-- `bytes.hex()`, as codes
abbrev pub hex_codes : List ℕ → List ℕ
hex_codes [] = []
hex_codes (b ∷ bs) = hex_digit (b / 16) ∷ hex_digit (b % 16) ∷ hex_codes bs

hex_digit-digit_value : (c : ℕ) → is_lower_hex c ≡ true → hex_digit (digit_value c) ≡ c
hex_digit-digit_value c h = ground arith

digit_value-bound : (c : ℕ) → is_lower_hex c ≡ true → digit_value c < 16
digit_value-bound c h = ground arith

high_digit : (x y : ℕ) → y < 16 → (x * 16 + y) / 16 ≡ x
high_digit x y h = omega arith

low_digit : (x y : ℕ) → y < 16 → (x * 16 + y) % 16 ≡ y
low_digit x y h = omega arith

-- an even number of digits, `n` pairs
pub hex_codes-from_hex :
    (n : ℕ) (cs : List ℕ)
    → length cs ≡ n + n
    → all is_lower_hex cs ≡ true
    → (hex_codes (from_hex cs) ≡ cs) × (length (from_hex cs) ≡ n)
hex_codes-from_hex n [] e h = (refl, omega arith)
hex_codes-from_hex n (a ∷ []) e h = absurd (omega arith)
hex_codes-from_hex zero (a ∷ b ∷ cs) e h = absurd (omega arith)
hex_codes-from_hex (suc n) (a ∷ b ∷ cs) e h =
    let is_a : is_lower_hex a ≡ true = ground arith in
    let is_b : is_lower_hex b ≡ true = ground arith in
    let (same, size) = hex_codes-from_hex n cs (omega arith) (ground arith) in
    let small = digit_value-bound b is_b in
    (
      rw
          (
            high_digit (digit_value a) (digit_value b) small,
            low_digit (digit_value a) (digit_value b) small,
            hex_digit-digit_value a is_a,
            hex_digit-digit_value b is_b,
            same,
          )
          refl,
      omega (arith, size),
    )

-- the digits of an address are what follows "0x"
address_digits-some :
    (cs digits : List ℕ)
    → address_digits cs ≡ some digits
    → (cs ≡ 48 ∷ 120 ∷ digits) × (length digits ≡ 40) × (all is_lower_hex digits ≡ true)
address_digits-some [] digits h = cc
address_digits-some (a ∷ []) digits h = cc
address_digits-some (a ∷ b ∷ cs) digits h =
    let same : cs ≡ digits = ground arith in
    let zero_x : (a ≡ 48) × (b ≡ 120) = (ground arith, ground arith) in
    (rw (zero_x.0, zero_x.1, same) refl, rw (sym same) (ground arith), rw (sym same) (ground arith))

module _ (host : Host) where
  read-digits :
      (network address : String) {bytes : List ℕ}
      → canonical_network_address host network address ≡ ok bytes
      → (digits : List ℕ) × (address_digits (codes address) ≡ some digits)
        × (bytes ≡ from_hex digits)
  unfolding canonical_network_address
  read-digits network address {bytes} h = elim (Option-cases (address_digits (codes address))) [
    | inl bad ↦ absurd (ground arith)
    | inr (digits, found) ↦ (digits, found, ground arith)
  ]

  address_text :
      (network address : String) {bytes : List ℕ}
      → canonical_network_address host network address ≡ ok bytes
      → (length bytes ≡ 20) × (codes address ≡ 48 ∷ 120 ∷ hex_codes bytes)
  address_text network address h =
      let (digits, found, read) = read-digits network address h in
      let (text, size, hexadecimal) = address_digits-some (codes address) digits found in
      let (again, twenty) = hex_codes-from_hex 20 digits size hexadecimal in
      (rw read twenty, text ∙ rw read (ap (λ ds. 48 ∷ 120 ∷ ds) (sym again)))

  -- An address that is read on a network has 20 bytes, and is "0x" and their lowercase hexadecimal
  -- digits, so any address that is read to the same bytes has the same characters.
  pub network_address_round_trip :
      (network other_network address other : String) {bytes : List ℕ}
      → canonical_network_address host network address ≡ ok bytes
      → canonical_network_address host other_network other ≡ ok bytes
      → (length bytes ≡ 20)
        × (codes address ≡ 48 ∷ 120 ∷ hex_codes bytes)
        × (codes other ≡ codes address)
  network_address_round_trip network other_network address other first second =
      let (size, text) = address_text network address first in
      (size, text, (address_text other_network other second).1 ∙ sym text)
