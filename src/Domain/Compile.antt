-- ===== src/Domain/Compile.antt =====
-- `compile_capsule` of shared/domain.py: a confirmed draft, the live state, the registry and the quote
-- become one capsule, or an exception.
pub mod Bound
pub mod Spoken
mod Tests
use Prim.Native.Char.{code}
use cryptogpt_one_intent_wal.Base.{
  ℕ, String, Bool, true, false, not, ◌&&◌, ◌||◌, Option, none, some, List, [], ◌∷◌, ◌++◌, ◌==◌,
  str_eq, if◌then◌else◌, Result, ok, err, ◌>>=◌, ◌>>◌, guard, all,
}
use cryptogpt_one_intent_wal.Base.Int.{ℤ, pos, leb_ℤ}
use cryptogpt_one_intent_wal.Canonical.Value.{
  Value, Fields, Items, null, bool, int, str, arr, obj, nil, cons, end, field, get,
}
use cryptogpt_one_intent_wal.Canonical.Checks.{Host}
use cryptogpt_one_intent_wal.Canonical.Alias.{Unicode}
use cryptogpt_one_intent_wal.Canonical.Bytes.{canonical_hash}
use cryptogpt_one_intent_wal.Domain.Checks.{
  Error, domain_error, raise_through, bounded_text, strict_int, strict_bool, mapping, decimal_field,
  max_text_field, max_final_payload_fields,
}
use cryptogpt_one_intent_wal.Domain.Capsule.{ExecutionCapsule, capsule_validate, capsule_hash}
use cryptogpt_one_intent_wal.Domain.Store.{contains}
use cryptogpt_one_intent_wal.Domain.Draft.{
  ActionPlanDraft, executable, draft_validate, intent_commitment,
}
use cryptogpt_one_intent_wal.Domain.Registry.{SignedRegistry, resolve, registry_digest}
use cryptogpt_one_intent_wal.Domain.Quote.{CanonicalQuote, quote_verify, quote_digest}

-- `_LIVE_STATE_REQUIRED` and `_LIVE_STATE_ALLOWED`
abbrev pub live_state_required : List String
live_state_required =
    "operationType" ∷ "account" ∷ "deviceId" ∷ "intentCommitment" ∷ "network" ∷ "assetId" ∷ "amount"
    ∷ "orderedActions" ∷ "finalPayload" ∷ "expiresAt" ∷ []

abbrev pub live_state_allowed : List String
live_state_allowed = "recipient" ∷ live_state_required

abbrev keys_of : Fields → List String
keys_of end = []
keys_of (field k v fs) = k ∷ keys_of fs

-- neither `missing` nor `unknown` keys
unfoldable pub has_live_keys : Fields → Bool
has_live_keys fs =
    all (λ k. contains k (keys_of fs)) live_state_required
    && all (λ k. contains k live_state_allowed) (keys_of fs)

-- `state[key]`, whose keys have been checked
unfoldable pub value_at : String → Fields → Value
value_at key fs = elim (get key fs) [ none ↦ null | some v ↦ v ]

unfoldable pub text_of : Value → Result Error String
text_of (str s) = ok s
text_of _ = err domain_error

abbrev pub equals_text : Value → String → Bool
equals_text (str s) t = str_eq s t
equals_text _ t = false

-- what comes before the first of "-", "/" and ":"
abbrev pub base_asset : String → String
base_asset String.[] = ""
base_asset (String.◌∷◌ head tail) =
    let rest = base_asset tail in
    if code head == 45 || code head == 47 || code head == 58 then "" else String.◌∷◌ head rest

unfoldable pub amount_agrees : Option Value → String → Bool
amount_agrees none amount = true
amount_agrees (some null) amount = true
amount_agrees (some v) amount = equals_text v amount

unfoldable pub asset_agrees : Unicode → Option Value → String → Bool
asset_agrees unicode none asset_id = true
asset_agrees unicode (some null) asset_id = true
asset_agrees unicode (some (str proposed)) asset_id =
    str_eq (unicode.upper (base_asset asset_id)) (unicode.upper proposed)
asset_agrees unicode (some _) asset_id = false

unfoldable pub recipient_of : Option Value → Result Error (Option String)
recipient_of none = ok none
recipient_of (some null) = ok none
recipient_of (some (str s)) = ok (some s)
recipient_of (some _) = err domain_error

unfoldable pub text_items : Items → Result Error (List String)
text_items nil = ok []
text_items (cons (str s) xs) = text_items xs >>= λ ss. ok (s ∷ ss)
text_items (cons _ xs) = err domain_error

unfoldable pub actions_of : Value → Result Error (List String)
unfolding text_items
actions_of (arr xs) = text_items xs
actions_of _ = err domain_error

abbrev pub min_ℤ : ℤ → ℤ → ℤ
min_ℤ a b = if leb_ℤ a b then a else b

-- the values that the first part of `compile_capsule` reads from the live state
pub record LiveState : Type 0 where
  pub operation_type : String
  pub account : String
  pub device_id : String
  pub network : String
  pub asset_id : String
  pub amount : String
  pub commitment : String
  pub recipient : Option String
  pub ordered_actions : List String
  pub final_payload : Fields
  pub expires_at : ℤ

module _ (host : Host) (unicode : Unicode) where
  -- the live values that a draft has settled: its commitment, and the amount and asset it proposed
  unfoldable pub agree_with_draft : ActionPlanDraft → Fields → String → String → Result Error String
  agree_with_draft draft state asset_id amount = do
    commitment ← intent_commitment host unicode draft
    guard (equals_text (value_at "intentCommitment" state) commitment) domain_error
    guard (amount_agrees (get "amountCandidate" draft.proposed) amount) domain_error
    guard (asset_agrees unicode (get "assetSymbolCandidate" draft.proposed) asset_id) domain_error
    ok commitment

  unfoldable pub read_live_state : ActionPlanDraft → Fields → Result Error LiveState
  read_live_state draft live_state = do
    state ← mapping host (obj live_state) 11
    guard (has_live_keys state) domain_error
    operation_type ← bounded_text host (value_at "operationType" state) max_text_field
    account ← bounded_text host (value_at "account" state) max_text_field
    device_id ← bounded_text host (value_at "deviceId" state) max_text_field
    network ← bounded_text host (value_at "network" state) max_text_field
    asset_id ← bounded_text host (value_at "assetId" state) max_text_field
    amount ← text_of (value_at "amount" state)
    decimal_field amount
    commitment ← agree_with_draft draft state asset_id amount
    recipient ← recipient_of (get "recipient" state)
    ordered_actions ← actions_of (value_at "orderedActions" state)
    payload ← mapping host (value_at "finalPayload" state) max_final_payload_fields
    expires_at ← strict_int (value_at "expiresAt" state) (some (pos 0))
    ok (record {
      operation_type = operation_type;
      account = account;
      device_id = device_id;
      network = network;
      asset_id = asset_id;
      amount = amount;
      commitment = commitment;
      recipient = recipient;
      ordered_actions = ordered_actions;
      final_payload = payload;
      expires_at = expires_at;
    })

  abbrev pub capsule_of : LiveState → CanonicalQuote → String → String → ExecutionCapsule
  capsule_of s quote registry_hash quote_hash = record {
    operation_type = s.operation_type;
    account = s.account;
    device_id = s.device_id;
    intent_commitment = s.commitment;
    network = s.network;
    asset_id = s.asset_id;
    amount = s.amount;
    recipient = s.recipient;
    ordered_actions = s.ordered_actions;
    registry_digest = registry_hash;
    quote_id = quote.quote_id;
    quote_digest = quote_hash;
    final_payload = s.final_payload;
    expires_at = min_ℤ s.expires_at quote.expires_at;
  }

  -- the rest of `compile_capsule`, from the registry on
  unfoldable pub bind_capsule :
      LiveState → SignedRegistry → CanonicalQuote → ℤ → Bool → Result Error ExecutionCapsule
  bind_capsule s registry quote now production = do
    resolve host s.asset_id s.network now production registry
    quote_verify host now s.network s.asset_id s.account s.amount quote
    commitment ← raise_through (canonical_hash host "final-payload-v1" (obj s.final_payload))
    guard (str_eq quote.final_payload_commitment commitment) domain_error
    registry_hash ← registry_digest host registry
    quote_hash ← quote_digest host quote
    capsule_validate host now (capsule_of s quote registry_hash quote_hash)
    hash ← capsule_hash host (capsule_of s quote registry_hash quote_hash)
    guard (str_eq quote.execution_capsule_hash hash) domain_error
    ok (capsule_of s quote registry_hash quote_hash)

  unfoldable pub compile_capsule :
      ActionPlanDraft
      → Fields
      → SignedRegistry
      → CanonicalQuote
      → ℤ
      → Bool
      → Result Error ExecutionCapsule
  compile_capsule draft live_state registry quote now production = do
    strict_int (int now) (some (pos 0))
    strict_bool (bool production)
    draft_validate host unicode draft
    guard (executable draft) domain_error
    state ← read_live_state draft live_state
    bind_capsule state registry quote now production
