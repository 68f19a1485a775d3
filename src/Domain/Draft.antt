-- ===== src/Domain/Draft.antt =====
-- `ActionPlanDraft` and `parse_intent_locally` of shared/domain.py: an untrusted reading of what the
-- user said, the ambiguities that it found, and their resolution. Freezing a mapping is left out,
-- since values here do not change.
pub mod Confirmed
use cryptogpt_one_intent_wal.Base.{
  ℕ, ◌-◌, String, Bool, true, false, not, ◌&&◌, ◌||◌, Option, none, some, List, [], ◌∷◌, ◌++◌, leb,
  ◌==◌, str_eq, if◌then◌else◌, Result, ok, err, ◌>>=◌, ◌>>◌, guard, length, any, all, map,
}
use cryptogpt_one_intent_wal.Base.Dict.{Dict}
use cryptogpt_one_intent_wal.Base.Text.{codes, is_space, is_blank, is_digit, is_prefix, text_in}
use cryptogpt_one_intent_wal.Canonical.Value.{Value, Fields, bool, str, arr, obj, end, field, get}
use cryptogpt_one_intent_wal.Canonical.Checks.{Host}
use cryptogpt_one_intent_wal.Canonical.Alias.{Unicode, validate_alias}
use cryptogpt_one_intent_wal.Canonical.Bytes.{canonical_bytes, canonical_hash}
use cryptogpt_one_intent_wal.Domain.Checks.{
  Error, domain_error, wrap, raise_through, bounded_text, strict_bool, mapping, max_text_field,
}
use cryptogpt_one_intent_wal.Domain.Capsule.{texts, no_duplicates}
use cryptogpt_one_intent_wal.Domain.Store.{contains}

abbrev pub max_draft_utterance : ℕ
max_draft_utterance = 2048

abbrev pub max_draft_interpretation : ℕ
max_draft_interpretation = 4096

abbrev pub max_proposed_fields : ℕ
max_proposed_fields = 64

abbrev pub max_ambiguities : ℕ
max_ambiguities = 32

pub record ActionPlanDraft : Type 0 where
  pub source_utterance : String
  pub normalized_interpretation : String
  pub proposed : Fields
  pub material_ambiguities : List String
  pub user_confirmed : Bool

abbrev is_empty : List String → Bool
is_empty [] = true
is_empty (s ∷ ss) = false

-- the property `executable`
abbrev pub executable : ActionPlanDraft → Bool
executable d = d.user_confirmed && is_empty d.material_ambiguities

abbrev draft_material : ActionPlanDraft → Value
draft_material d = obj (
    field "sourceUtterance" (str d.source_utterance) (
      field "normalizedInterpretation" (str d.normalized_interpretation) (
        field "proposed" (obj d.proposed) (
          field "materialAmbiguities" (arr (texts d.material_ambiguities))
            (field "userConfirmed" (bool d.user_confirmed) end)))))

module _ (host : Host) (unicode : Unicode) where
  abbrev check_alias : Option Value → Result Error (Unit {0})
  check_alias none = ok tt
  check_alias (some (str alias)) = wrap (validate_alias unicode host alias) >>= λ _. ok tt
  check_alias (some _) = err domain_error

  abbrev is_given : Option Value → Bool
  is_given none = false
  is_given (some v) = true

  -- the loop over the ambiguities
  unfoldable pub visible_texts : List String → Result Error (Unit {0})
  visible_texts [] = ok tt
  visible_texts (s ∷ ss) =
      bounded_text host (str s) max_text_field
      >> guard (not (is_blank s)) domain_error
      >> visible_texts ss

  -- `ActionPlanDraft.validate`
  unfoldable pub draft_validate : ActionPlanDraft → Result Error (Unit {0})
  draft_validate d = do
    bounded_text host (str d.source_utterance) max_draft_utterance
    guard (not (is_blank d.source_utterance)) domain_error
    bounded_text host (str d.normalized_interpretation) max_draft_interpretation
    guard (not (is_blank d.normalized_interpretation)) domain_error
    proposed ← mapping host (obj d.proposed) max_proposed_fields
    guard (leb (length d.material_ambiguities) max_ambiguities) domain_error
    visible_texts d.material_ambiguities
    guard (no_duplicates d.material_ambiguities) domain_error
    strict_bool (bool d.user_confirmed)
    check_alias (get "alias" proposed)
    guard (not (is_given (get "stopLoss" proposed))) domain_error
    guard (is_empty d.material_ambiguities || not d.user_confirmed) domain_error
    raise_through (canonical_bytes host (obj proposed))
    ok tt

  -- the property `intent_commitment`
  unfoldable pub intent_commitment : ActionPlanDraft → Result Error String
  intent_commitment d = do
    draft_validate d
    raise_through (canonical_hash host "intent-draft-v1" (draft_material d))

-- `typed[key] = value`
abbrev pub set_field : String → Value → Fields → Fields
set_field key v end = field key v end
set_field key v (field k w fs) =
    let rest = set_field key v fs in if str_eq k key then field k v fs else field k w rest

abbrev is_lower_or_digit : ℕ → Bool
is_lower_or_digit c = leb 97 c && leb c 122 || is_digit c

abbrev is_alphanumeric : ℕ → Bool
is_alphanumeric c = is_lower_or_digit c || leb 65 c && leb c 90

-- `[A-Za-z0-9][A-Za-z0-9._-]{0,127}`
abbrev pub is_reference : List ℕ → Bool
is_reference [] = false
is_reference (c ∷ cs) =
    is_alphanumeric c
    && leb (length cs) 127
    && all (λ d. is_alphanumeric d || d == 46 || d == 95 || d == 45) cs

-- `[a-z0-9-]*:` and the reference, where `n` more characters fit into the namespace
abbrev pub is_namespace_tail : List ℕ → ℕ → Bool
is_namespace_tail [] n = false
is_namespace_tail (c ∷ cs) n =
    let rest = is_namespace_tail cs (n - 1) in
    if c == 58 then is_reference cs else (is_lower_or_digit c || c == 45) && leb 1 n && rest

abbrev is_caip2_codes : List ℕ → Bool
is_caip2_codes [] = false
is_caip2_codes (c ∷ cs) = is_lower_or_digit c && is_namespace_tail cs 31

-- `_CAIP2_RE.fullmatch`
unfoldable pub is_caip2 : String → Bool
is_caip2 s = is_caip2_codes (codes s)

-- the rule of one ambiguity: the field that a resolution sets
unfoldable pub typed_resolution : String → String → Fields → Result Error Fields
typed_resolution ambiguity resolution typed =
    if str_eq ambiguity "方向"
    then (if str_eq resolution "LONG" || str_eq resolution "SHORT"
        then ok (set_field "positionSide" (str resolution) typed)
        else err domain_error)
    else if str_eq ambiguity "ネットワーク"
    then (if is_caip2 resolution
        then ok (set_field "network" (str resolution) typed)
        else err domain_error)
    else if str_eq ambiguity "ペイパチャルという語の意味"
    then (if str_eq resolution "PERPETUAL_ORDER"
        then ok (set_field "operationType" (str resolution) typed)
        else err domain_error)
    else if str_eq ambiguity "生産価格という語の意味"
    then (if str_eq resolution "LIQUIDATION_PRICE"
        then ok (set_field "riskDisplay" (str resolution) typed)
        else err domain_error)
    else err domain_error

-- every text of the first list is in the second
abbrev pub covered_by : List String → List String → Bool
covered_by xs ys = all (λ x. contains x ys) xs

module _ (host : Host) (unicode : Unicode) where
  -- the loop of `confirm`
  unfoldable pub resolve_all : Dict String → Fields → Result Error Fields
  resolve_all [] typed = ok typed
  resolve_all ((ambiguity, resolution) ∷ rest) typed = do
    bounded_text host (str resolution) 512
    typed' ← typed_resolution ambiguity resolution typed
    resolve_all rest typed'

  -- `ActionPlanDraft.confirm`
  unfoldable pub confirm : Dict String → String → ActionPlanDraft → Result Error ActionPlanDraft
  confirm resolved interpretation d = do
    guard (covered_by d.material_ambiguities (map (λ r. r.0) resolved)) domain_error
    guard (covered_by (map (λ r. r.0) resolved) d.material_ambiguities) domain_error
    typed ← resolve_all resolved d.proposed
    let confirmed : ActionPlanDraft = record {
      source_utterance = d.source_utterance;
      normalized_interpretation = interpretation;
      proposed = typed;
      material_ambiguities = [];
      user_confirmed = true;
    }
    draft_validate host unicode confirmed
    ok confirmed

-- `500\s*USDC`, without regard to case; the long s is a case of "s"
abbrev pub is_usdc_at : List ℕ → Bool
is_usdc_at (u ∷ s ∷ d ∷ c ∷ _) =
    (u == 85 || u == 117)
    && (s == 83 || s == 115 || s == 383)
    && (d == 68 || d == 100)
    && (c == 67 || c == 99)
is_usdc_at _ = false

abbrev pub is_usdc_after_spaces : List ℕ → Bool
is_usdc_after_spaces [] = false
is_usdc_after_spaces (c ∷ cs) =
    let rest = is_usdc_after_spaces cs in is_usdc_at (c ∷ cs) || is_space c && rest

abbrev pub finds_500_usdc : List ℕ → Bool
finds_500_usdc (a ∷ b ∷ c ∷ cs) =
    let rest = finds_500_usdc (b ∷ c ∷ cs) in
    a == 53 && b == 48 && c == 48 && is_usdc_after_spaces cs || rest
finds_500_usdc _ = false

abbrev one_of : List String → String → Bool
one_of words utterance = any (λ w. text_in w utterance) words

abbrev add_if : Bool → String → String → Fields → Fields
add_if b key value fs = if b then set_field key (str value) fs else fs

abbrev note_if : Bool → String → List String
note_if b s = if b then s ∷ [] else []

-- the fields and the ambiguities that the parser finds in an utterance
abbrev pub proposed_of : Unicode → String → Fields
proposed_of unicode u =
    let btc = add_if (text_in "BTC" (unicode.upper u)) "assetSymbolCandidate" "BTC" end in
    let amount = add_if (finds_500_usdc (codes u)) "amountCandidate" "500" btc in
    let asset = add_if (finds_500_usdc (codes u)) "quoteAssetCandidate" "USDC" amount in
    let term = add_if (text_in "ペイパチャル" u) "termCandidate" "先物取引（期限なし）" asset in
    add_if (text_in "生産価格" u) "riskTermCandidate" "清算価格" term

abbrev pub ambiguities_of : String → List String
ambiguities_of u =
    note_if (text_in "ペイパチャル" u) "ペイパチャルという語の意味"
    ++ (note_if (text_in "生産価格" u) "生産価格という語の意味"
        ++ (note_if (not (one_of ("買" ∷ "売" ∷ "ロング" ∷ "ショート" ∷ []) u)) "方向"
            ++ note_if (not (one_of ("Arbitrum" ∷ "HyperEVM" ∷ "Testnet" ∷ "Mainnet" ∷ []) u))
                "ネットワーク"))

-- `parse_intent_locally`
unfoldable pub parse_intent_locally : Host → Unicode → String → Result Error ActionPlanDraft
parse_intent_locally host unicode utterance = do
  bounded_text host (str utterance) max_draft_utterance
  guard (not (is_blank utterance)) domain_error
  let draft : ActionPlanDraft = record {
    source_utterance = utterance;
    normalized_interpretation = "候補を表示しています。意味を確認してください。";
    proposed = proposed_of unicode utterance;
    material_ambiguities = ambiguities_of utterance;
    user_confirmed = false;
  }
  draft_validate host unicode draft
  ok draft
