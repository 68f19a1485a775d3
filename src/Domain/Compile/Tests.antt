-- ===== src/Domain/Compile/Tests.antt =====
-- An utterance, its confirmation and its capsule, and the theorems at them. The host is a stand-in:
-- every text is in NFC, every digest is one text, and `upper` leaves a text as it is.
use mathlib.Core.List.{flat_map}
use cryptogpt_one_intent_wal.Base.{◌≡◌, refl, String, true, false, some, none, [], ◌∷◌, ok}
use cryptogpt_one_intent_wal.Base.Dict.{Dict}
use cryptogpt_one_intent_wal.Base.Int.{pos}
use cryptogpt_one_intent_wal.Base.Text.{codes, text_in}
use cryptogpt_one_intent_wal.Canonical.Value.{
  Fields, str, int, arr, obj, nil, cons, end, field, get,
}
use cryptogpt_one_intent_wal.Canonical.Checks.{
  Host, validate_string, is_default_ignorable, visit, ensure_nfc,
}
use cryptogpt_one_intent_wal.Canonical.Decimal.{decimal_string, decimal_codes}
use cryptogpt_one_intent_wal.Canonical.Alias.{Unicode, validate_alias}
use cryptogpt_one_intent_wal.Canonical.Bytes.{
  ordered, dumps, canonical_bytes, canonical_hash, leb_units,
}
use cryptogpt_one_intent_wal.Domain.Checks.{
  bounded_text, strict_int, strict_bool, mapping, int_within,
}
use cryptogpt_one_intent_wal.Domain.Capsule.{
  ExecutionCapsule, capsule_hash, all_bounded, recipient_is_bounded, capsule_validate,
}
use cryptogpt_one_intent_wal.Domain.Draft.{
  ActionPlanDraft, executable, visible_texts, draft_validate, intent_commitment, is_caip2,
  typed_resolution, resolve_all, confirm, parse_intent_locally, finds_500_usdc,
}
use cryptogpt_one_intent_wal.Domain.Draft.Confirmed.{Confirms, confirm_settles_the_draft}
use cryptogpt_one_intent_wal.Domain.Registry.{
  AssetIdentity, SignedRegistry, asset_validate, registry_digest, entries_valid, registry_verify,
  resolve,
}
use cryptogpt_one_intent_wal.Domain.Quote.{CanonicalQuote, quote_digest, full_digest, quote_verify}
use cryptogpt_one_intent_wal.Domain.Policy.{
  PolicyInput, Permits, allow, policy_checks, evaluate_policy, policy_allows_exactly,
}
use cryptogpt_one_intent_wal.Domain.Compile.{
  value_at, text_of, recipient_of, actions_of, amount_agrees, asset_agrees, has_live_keys,
  text_items, agree_with_draft, read_live_state, bind_capsule, compile_capsule, base_asset,
}
use cryptogpt_one_intent_wal.Domain.Compile.Bound.{Bound, compile_capsule-Bound}
use cryptogpt_one_intent_wal.Domain.Compile.Spoken.{spoken_terms_are_compiled}

program : Unit {0}
unfolding validate_string is_default_ignorable visit ensure_nfc ordered dumps canonical_bytes
    canonical_hash leb_units decimal_string decimal_codes bounded_text strict_int strict_bool
    mapping int_within validate_alias flat_map capsule_hash all_bounded recipient_is_bounded
    capsule_validate visible_texts draft_validate intent_commitment is_caip2 typed_resolution
    resolve_all confirm parse_intent_locally asset_validate registry_digest entries_valid
    registry_verify resolve quote_digest full_digest quote_verify policy_checks evaluate_policy
    value_at text_of recipient_of actions_of amount_agrees asset_agrees has_live_keys text_items
    agree_with_draft read_live_state bind_capsule compile_capsule
program = tt

abbrev host : Host
host = record { is_nfc = λ _. true; sha256 = λ _. "digest" }

abbrev unicode : Unicode
unicode = record { upper = λ s. s; lower = λ _. "a"; name = λ _. "" }

abbrev utterance : String
utterance = "BTC 500 USDC ロング"

abbrev draft : ActionPlanDraft
draft = record {
  source_utterance = utterance;
  normalized_interpretation = "候補を表示しています。意味を確認してください。";
  proposed =
      field "assetSymbolCandidate" (str "BTC")
        (field "amountCandidate" (str "500") (field "quoteAssetCandidate" (str "USDC") end));
  material_ambiguities = "ネットワーク" ∷ [];
  user_confirmed = false;
}

abbrev resolved : Dict String
resolved = ("ネットワーク", "hyperliquid:testnet") ∷ []

abbrev confirmed : ActionPlanDraft
confirmed = record {
  source_utterance = utterance;
  normalized_interpretation = "long BTC";
  proposed = field "assetSymbolCandidate" (str "BTC") (
      field "amountCandidate" (str "500") (
        field "quoteAssetCandidate" (str "USDC")
          (field "network" (str "hyperliquid:testnet") end)));
  material_ambiguities = [];
  user_confirmed = true;
}

abbrev asset : AssetIdentity
asset = record {
  asset_id = "BTC-PERP";
  caip2_network = "hyperliquid:testnet";
  contract = "perp";
  decimals = pos 8;
  code_hash = "code";
  production_eligible = false;
}

abbrev registry : SignedRegistry
registry = record {
  registry_id = "assets";
  sequence = pos 1;
  valid_from = pos 0;
  expires_at = pos 1000;
  signer_key_id = "key";
  signature = "signature";
  signature_valid = true;
  revoked = false;
  entries = ("BTC-PERP", asset) ∷ [];
}

abbrev quote : CanonicalQuote
quote = record {
  quote_id = "quote-1";
  provider_id = "provider";
  route_id = "route";
  network = "hyperliquid:testnet";
  asset_id = "BTC-PERP";
  account = "0xabc";
  amount = "500";
  max_fee = "0.5";
  fee_asset = "USDC";
  settlement_target = "target";
  generated_at = pos 90;
  expires_at = pos 150;
  execution_capsule_hash = "digest";
  final_payload_commitment = "digest";
  signature = "signature";
  signature_valid = true;
  provider_revoked = false;
}

abbrev live_state : Fields
live_state = field "operationType" (str "PERPETUAL_ORDER") (
    field "account" (str "0xabc") (
      field "deviceId" (str "device-1") (
        field "intentCommitment" (str "digest") (
          field "network" (str "hyperliquid:testnet") (
            field "assetId" (str "BTC-PERP") (
              field "amount" (str "500") (
                field "orderedActions" (arr (cons (str "order") nil))
                  (field "finalPayload" (obj end) (field "expiresAt" (int (pos 200)) end)))))))))

abbrev capsule : ExecutionCapsule
capsule = record {
  operation_type = "PERPETUAL_ORDER";
  account = "0xabc";
  device_id = "device-1";
  intent_commitment = "digest";
  network = "hyperliquid:testnet";
  asset_id = "BTC-PERP";
  amount = "500";
  recipient = none;
  ordered_actions = "order" ∷ [];
  registry_digest = "digest";
  quote_id = "quote-1";
  quote_digest = "digest";
  final_payload = end;
  expires_at = pos 150;
}

parsed : parse_intent_locally host unicode utterance ≡ ok draft
unfolding program
parsed = refl

confirms : confirm host unicode resolved "long BTC" draft ≡ ok confirmed
unfolding program
confirms = refl

compiled :
    compile_capsule host unicode confirmed live_state registry quote (pos 100) false ≡ ok capsule
unfolding program
compiled = refl

confirm_settles_the_draft_example : Confirms host unicode resolved draft confirmed
confirm_settles_the_draft_example =
    confirm_settles_the_draft host unicode resolved "long BTC" draft confirms

compile_capsule-Bound_example :
    (draft_validate host unicode confirmed ≡ ok tt)
    × (executable confirmed ≡ true)
    × (intent_commitment host unicode confirmed ≡ ok "digest")
    × (amount_agrees (get "amountCandidate" confirmed.proposed) "500" ≡ true)
    × (asset_agrees unicode (get "assetSymbolCandidate" confirmed.proposed) "BTC-PERP" ≡ true)
    × Bound host unicode registry quote (pos 100) false capsule
compile_capsule-Bound_example =
    compile_capsule-Bound host unicode confirmed live_state registry quote (pos 100) false compiled

spoken_terms_are_compiled_example :
    (executable draft ≡ false)
    × (finds_500_usdc (codes utterance) ≡ true → "500" ≡ capsule.amount)
    × (text_in "BTC" (unicode.upper utterance) ≡ true
        → unicode.upper (base_asset "BTC-PERP") ≡ unicode.upper "BTC")
spoken_terms_are_compiled_example =
    spoken_terms_are_compiled host unicode utterance resolved "long BTC" live_state registry quote
      (pos 100) false parsed confirms compiled

abbrev policy_input : PolicyInput
policy_input = record {
  global_write_disabled = false;
  feature_enabled = true;
  account_model = "EOA";
  native_balance = "0.0";
  route_verified = true;
  route_expiry = some (pos 150);
  now = pos 100;
}

policy_allows_exactly_example :
    ((evaluate_policy host policy_input).allowed ≡ true → Permits host policy_input)
    × (Permits host policy_input → evaluate_policy host policy_input ≡ allow)
policy_allows_exactly_example = policy_allows_exactly host policy_input
