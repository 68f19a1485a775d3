-- ===== src/Canonical/Tests.antt =====
-- Canonical bytes and decimals of concrete values.
use cryptogpt_one_intent_wal.Base.{◌≡◌, refl, true, none, ok, err}
use cryptogpt_one_intent_wal.Base.Int.{pos}
use cryptogpt_one_intent_wal.Base.Text.{codes}
use mathlib.Core.List.{flat_map}
use cryptogpt_one_intent_wal.Canonical.Value.{
  Value, bool, int, str, arr, obj, nil, cons, end, field,
}
use cryptogpt_one_intent_wal.Canonical.Checks.{Host, visit, validate_string}
use cryptogpt_one_intent_wal.Canonical.Decimal.{decimal_string, not_decimal}
use cryptogpt_one_intent_wal.Canonical.Bytes.{canonical_bytes}

abbrev plain : Host
plain = record { is_nfc = λ s. true; sha256 = λ bytes. "digest" }

abbrev sample : Value
sample =
    obj (field "b" (arr (cons (int (pos 12)) (cons (bool true) nil))) (field "a" (str "x\"y") end))

bytes_of_sample : canonical_bytes plain sample ≡ ok (codes "{\"a\":\"x\\\"y\",\"b\":[12,true]}")
unfolding canonical_bytes visit validate_string flat_map
bytes_of_sample = refl

decimal_of_text :
    (decimal_string "12.50" none ≡ ok (record { coefficient = 1250; scale = 2 }))
    × (decimal_string "012" none ≡ err not_decimal)
    × (decimal_string "1." none ≡ err not_decimal)
unfolding decimal_string
decimal_of_text = (refl, refl, refl)
