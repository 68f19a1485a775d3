-- ===== src/Canonical/Alias.antt =====
-- `validate_alias` of shared/canonical.py: no alias mixes ASCII letters with a confusable script.
use cryptogpt_one_intent_wal.Base.{
  ℕ, String, Bool, not, ◌&&◌, ◌||◌, [], ◌∷◌, leb, ltb, ◌==◌, Result, ok, ◌>>◌, guard, length, any,
}
use cryptogpt_one_intent_wal.Base.Text.{codes, is_trimmed, text_in}
use cryptogpt_one_intent_wal.Canonical.Checks.{Host, CanonicalError, not_canonical, validate_string}
use cryptogpt_one_intent_wal.Canonical.Bytes.{leb_units}

-- What the source takes of the language's tables of characters: `str.upper`, `str.lower` of one
-- character, and `unicodedata.name(char, "")`.
pub record Unicode : Type 0 where
  pub upper : String → String
  pub lower : ℕ → String
  pub name : ℕ → String

abbrev pub is_control_code : ℕ → Bool
is_control_code c = ltb c 32 || c == 127

module _ (unicode : Unicode) where
  -- `"a" <= char.lower() <= "z"`, in the order of code points
  abbrev pub is_ascii_letter : ℕ → Bool
  is_ascii_letter c =
      leb_units (97 ∷ []) (codes (unicode.lower c))
      && leb_units (codes (unicode.lower c)) (122 ∷ [])

  -- `_CONFUSABLE_SCRIPT_NAMES`
  abbrev pub is_confusable : ℕ → Bool
  is_confusable c = text_in "CYRILLIC" (unicode.name c) || text_in "GREEK" (unicode.name c)

  unfoldable pub validate_alias : Host → String → Result CanonicalError String
  validate_alias host alias = do
    guard (is_trimmed (codes alias) && leb (length (codes alias)) 128) not_canonical
    validate_string host alias
    guard (not (any is_control_code (codes alias))) not_canonical
    guard (not (any is_ascii_letter (codes alias) && any is_confusable (codes alias))) not_canonical
    ok alias
