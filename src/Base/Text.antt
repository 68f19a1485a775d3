-- ===== src/Base/Text.antt =====
-- Tests on texts: digests in lowercase hexadecimal, and the walk over the characters of a text.
use Prim.Native.Nat.{ℕ}
use Prim.Native.Char.{code}
use Prim.Native.String.{String}
use mathlib.Core.Bool.{Bool, true, false, not, ◌&&◌, ◌||◌}
use mathlib.Core.List.{List, [], ◌∷◌}
use cryptogpt_one_intent_wal.Base.Tests.{leb, ◌==◌}
use cryptogpt_one_intent_wal.Base.Rows.{length, all}

-- The code points of a text. `String` has its own `[]` and `∷`.
abbrev pub codes : String → List ℕ
codes String.[] = []
codes (String.◌∷◌ head tail) = code head ∷ codes tail

abbrev pub is_digit : ℕ → Bool
is_digit c = leb 48 c && leb c 57

abbrev pub is_lower_hex : ℕ → Bool
is_lower_hex c = is_digit c || leb 97 c && leb c 102

-- `^[0-9a-f]{64}$`, matched as a whole
unfoldable pub is_digest : String → Bool
is_digest s = length (codes s) == 64 && all is_lower_hex (codes s)

-- the characters that `str.strip` removes
abbrev pub is_space : ℕ → Bool
is_space c =
    leb 9 c && leb c 13
    || leb 28 c && leb c 32
    || c == 133
    || c == 160
    || c == 5760
    || leb 8192 c && leb c 8202
    || c == 8232
    || c == 8233
    || c == 8239
    || c == 8287
    || c == 12288

abbrev pub last_is_space : List ℕ → Bool
last_is_space [] = false
last_is_space (c ∷ []) = is_space c
last_is_space (c ∷ cs) = last_is_space cs

-- non-empty, and equal to its `strip()`
abbrev pub is_trimmed : List ℕ → Bool
is_trimmed [] = false
is_trimmed (c ∷ cs) = not (is_space c) && not (last_is_space (c ∷ cs))

-- `not s.strip()`
abbrev pub is_blank : String → Bool
is_blank s = all is_space (codes s)

abbrev pub is_prefix : List ℕ → List ℕ → Bool
is_prefix [] ys = true
is_prefix (x ∷ xs) [] = false
is_prefix (x ∷ xs) (y ∷ ys) = x == y && is_prefix xs ys

-- `pattern in text`
abbrev pub occurs_in : List ℕ → List ℕ → Bool
occurs_in pattern [] = is_prefix pattern []
occurs_in pattern (c ∷ cs) = is_prefix pattern (c ∷ cs) || occurs_in pattern cs

abbrev pub text_in : String → String → Bool
text_in pattern text = occurs_in (codes pattern) (codes text)
