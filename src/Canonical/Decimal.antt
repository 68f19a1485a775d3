-- ===== src/Canonical/Decimal.antt =====
-- `decimal_string` of shared/canonical.py: plain decimal texts and the numbers that they stand for.
use cryptogpt_one_intent_wal.Base.{
  ℕ, ◌+◌, ◌-◌, ◌*◌, ◌^◌, String, Bool, true, false, ◌&&◌, Option, none, some, List, [], ◌∷◌, leb,
  ◌==◌, if◌then◌else◌, Result, ok, ◌>>◌, guard, length, all,
}
use cryptogpt_one_intent_wal.Base.Text.{codes, is_digit}

-- `coefficient / 10 ^ scale`
pub record Decimal : Type 0 where
  pub coefficient : ℕ
  pub scale : ℕ

-- `d <= 0`, where `d` is never negative
abbrev pub is_zero : Decimal → Bool
is_zero d = d.coefficient == 0

-- the text before the first point, and what follows the point
pub split_point : List ℕ → List ℕ × Option (List ℕ)
split_point [] = ([], none)
split_point (c ∷ cs) =
    let (whole, rest) = split_point cs in if c == 46 then ([], some cs) else (c ∷ whole, rest)

-- `0|[1-9][0-9]*`
pub is_whole : List ℕ → Bool
is_whole [] = false
is_whole (c ∷ []) = is_digit c
is_whole (c ∷ cs) = leb 49 c && leb c 57 && all is_digit cs

-- `[0-9]+`
abbrev pub is_fraction : List ℕ → Bool
is_fraction [] = false
is_fraction cs = all is_digit cs

abbrev pub fraction_digits : Option (List ℕ) → List ℕ
fraction_digits none = []
fraction_digits (some cs) = cs

abbrev pub is_tail : Option (List ℕ) → Bool
is_tail none = true
is_tail (some cs) = is_fraction cs

-- the number that a row of digits stands for, from the left
abbrev pub digits_value : ℕ → List ℕ → ℕ
digits_value n [] = n
digits_value n (c ∷ cs) = digits_value (n * 10 + (c - 48)) cs

-- the limit `scale`, where one is given
abbrev pub within : Option ℕ → ℕ → Bool
within none n = true
within (some limit) n = leb n limit

abbrev pub max_decimal_text_length : ℕ
max_decimal_text_length = 128

abbrev pub max_decimal_fraction_digits : ℕ
max_decimal_fraction_digits = 38

pub data DecimalError : Type 0 where
  not_decimal too_long bad_scale_limit too_precise scale_mismatch : DecimalError

-- a limit is at most 38 itself
abbrev pub is_scale : Option ℕ → Bool
is_scale none = true
is_scale (some limit) = leb limit max_decimal_fraction_digits

-- `decimal_string(raw, scale=...)`; `Decimal(raw)` of such a text cannot fail.
unfoldable pub decimal_codes : List ℕ → Option ℕ → Result DecimalError Decimal
unfolding split_point is_whole
decimal_codes raw scale = do
  let parts = split_point raw
  let fraction = fraction_digits parts.1
  guard (is_whole parts.0 && is_tail parts.1) not_decimal
  guard (leb (length raw) max_decimal_text_length) too_long
  guard (is_scale scale) bad_scale_limit
  guard (leb (length fraction) max_decimal_fraction_digits) too_precise
  guard (within scale (length fraction)) scale_mismatch
  ok (record {
    coefficient = digits_value (digits_value 0 parts.0) fraction;
    scale = length fraction;
  })

unfoldable pub decimal_string : String → Option ℕ → Result DecimalError Decimal
unfolding decimal_codes
decimal_string raw = decimal_codes (codes raw)

-- `a <= b` of two numbers
abbrev pub leb_decimal : Decimal → Decimal → Bool
leb_decimal a b = leb (a.coefficient * 10 ^ b.scale) (b.coefficient * 10 ^ a.scale)
