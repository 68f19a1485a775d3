-- ===== src/Atomic/Decode.antt =====
-- The signer's configuration and `_typed_operation` of shared/atomic_signer_contract.py: a canonical
-- object becomes one of eight typed operations, by the assets that the signer knows.
use cryptogpt_one_intent_wal.Base.{
  ℕ, String, Bool, true, false, not, ◌&&◌, ◌||◌, Option, none, some, List, [], ◌∷◌, leb, str_eq,
  if◌then◌else◌, Result, ok, err, ◌>>=◌, ◌>>◌, guard, length, all,
}
use cryptogpt_one_intent_wal.Base.Int.{pos}
use cryptogpt_one_intent_wal.Base.Dict.{Dict, lookup}
use cryptogpt_one_intent_wal.Base.Text.{is_digest}
use cryptogpt_one_intent_wal.Canonical.Value.{
  Value, Fields, int, str, arr, obj, nil, cons, end, field, get,
}
use cryptogpt_one_intent_wal.Canonical.Checks.{Host, ensure_nfc}
use cryptogpt_one_intent_wal.Canonical.Decimal.{Decimal, is_zero}
use cryptogpt_one_intent_wal.Canonical.Address.{canonical_decimal_string, canonical_network_address}
use cryptogpt_one_intent_wal.Domain.Store.{contains}
use cryptogpt_one_intent_wal.Atomic.Operation.{
  OperationType, OperationAction, Bytes, OperationDetails, transfer_details, swap_details,
  perp_open_details, perp_close_details, vault_deposit_details, vault_withdraw_details,
  cancel_details, revoke_authorization_details, TypedOperationSpec,
}
use cryptogpt_one_intent_wal.Atomic.Journal.{JournalError}

-- An exception is its class: `AtomicSignerContractError`, `CanonicalizationError`, and what the journal
-- raises.
pub data BoundaryError : Type 0 where
  contract_error canonicalization_error clock_rollback : BoundaryError
  journal_error : JournalError → BoundaryError

abbrev pub through {ℓ κ} : {E : Type ℓ} {A : Type κ} → Result E A → Result BoundaryError A
through (ok a) = ok a
through (err e) = err canonicalization_error

pub record AssetRule : Type 0 where
  pub asset_id : String
  pub decimals : ℕ
  pub allowed_networks : List String
  pub token_contract : Option String

pub record AtomicSignerConfiguration : Type 0 where
  pub expected_audience : String
  pub expected_environment : String
  pub expected_deployment : String
  pub expected_release_subject_digest : String
  pub expected_policy_bundle_digest : String
  pub asset_registry : Dict AssetRule
  pub maximum_request_ttl_seconds : ℕ
  pub maximum_review_ttl_seconds : ℕ
  pub maximum_decision_ttl_seconds : ℕ
  pub maximum_operation_ttl_seconds : ℕ
  pub allowed_clock_skew_seconds : ℕ
  pub maximum_clock_rollback_seconds : ℕ

abbrev is_given : String → Bool
is_given s = not (str_eq s "")

module _ (host : Host) where
  abbrev is_address_on : String → String → Bool
  is_address_on address network = elim (canonical_network_address host network address) [
    | ok bytes ↦ true
    | err e ↦ false
  ]

  abbrev contract_is_valid : List String → Option String → Bool
  contract_is_valid networks none = true
  contract_is_valid networks (some address) = all (is_address_on address) networks

  -- `AssetRule.__post_init__`
  unfoldable pub rule_is_valid : AssetRule → Bool
  rule_is_valid r =
      is_given r.asset_id
      && leb r.decimals 38
      && leb 1 (length r.allowed_networks)
      && all is_given r.allowed_networks
      && contract_is_valid r.allowed_networks r.token_contract

  abbrev assets_are_valid : Dict AssetRule → Bool
  assets_are_valid [] = true
  assets_are_valid ((key, r) ∷ rest) =
      str_eq key r.asset_id && rule_is_valid r && assets_are_valid rest

  abbrev pub is_ttl : ℕ → Bool
  is_ttl n = leb 1 n && leb n 300

  -- `AtomicSignerConfiguration.__post_init__`, but for the schema pins
  unfoldable pub configuration_is_valid : AtomicSignerConfiguration → Bool
  configuration_is_valid c =
      is_given c.expected_audience
      && is_given c.expected_deployment
      && (str_eq c.expected_environment "STAGING"
          || str_eq c.expected_environment "TESTNET"
          || str_eq c.expected_environment "PRODUCTION")
      && is_digest c.expected_release_subject_digest
      && is_digest c.expected_policy_bundle_digest
      && (is_ttl c.maximum_request_ttl_seconds && is_ttl c.maximum_review_ttl_seconds)
      && (is_ttl c.maximum_decision_ttl_seconds && is_ttl c.maximum_operation_ttl_seconds)
      && (leb c.allowed_clock_skew_seconds 30 && leb c.maximum_clock_rollback_seconds 30)
      && leb 1 (length c.asset_registry)
      && assets_are_valid c.asset_registry

  -- `_mapping`, `_integer` and `_text` of an optional value
  unfoldable pub mapping : Option Value → Result BoundaryError Fields
  mapping (some (obj fs)) = through (ensure_nfc host (obj fs)) >>= λ _. ok fs
  mapping _ = err contract_error

  unfoldable pub integer : Option Value → Result BoundaryError ℕ
  integer (some (int (pos n))) = ok n
  integer _ = err contract_error

  unfoldable pub text : Option Value → Result BoundaryError String
  text (some (str s)) =
      guard (is_given s) contract_error >>= λ _. through (ensure_nfc host (str s)) >>= λ _. ok s
  text _ = err contract_error

  -- `_asset_rule`
  abbrev rule_on : String → Option AssetRule → Result BoundaryError AssetRule
  rule_on network none = err contract_error
  rule_on network (some r) =
      guard (contains network r.allowed_networks) contract_error >>= λ _. ok r

  unfoldable pub asset_rule :
      AtomicSignerConfiguration → String → String → Result BoundaryError AssetRule
  asset_rule c asset_id network = rule_on network (lookup asset_id c.asset_registry)

  abbrev decimal_or_error : {E : Type 0} → Result E Decimal → Result BoundaryError Decimal
  decimal_or_error (ok d) = ok d
  decimal_or_error (err e) = err contract_error

  -- `_nonnegative_decimal` and `_positive_decimal`
  unfoldable pub nonnegative_decimal : Option Value → ℕ → Result BoundaryError Decimal
  nonnegative_decimal (some (str s)) scale = decimal_or_error (canonical_decimal_string s scale)
  nonnegative_decimal _ scale = err contract_error

  unfoldable pub positive_decimal : Option Value → ℕ → Result BoundaryError Decimal
  positive_decimal value scale = do
    parsed ← nonnegative_decimal value scale
    guard (not (is_zero parsed)) contract_error
    ok parsed

  abbrev address : String → Option Value → Result BoundaryError Bytes
  address network value = text value >>= λ s. through (canonical_network_address host network s)

-- `OperationType(text)`, and `OperationAction(text)`
abbrev pub operation_type_of : String → Option OperationType
operation_type_of s =
    if str_eq s "TRANSFER"
    then some OperationType.transfer
    else if str_eq s "SWAP"
    then some OperationType.swap
    else if str_eq s "PERP_OPEN"
    then some OperationType.perp_open
    else if str_eq s "PERP_CLOSE"
    then some OperationType.perp_close
    else if str_eq s "VAULT_DEPOSIT"
    then some OperationType.vault_deposit
    else if str_eq s "VAULT_WITHDRAW"
    then some OperationType.vault_withdraw
    else if str_eq s "CANCEL"
    then some OperationType.cancel
    else if str_eq s "REVOKE_AUTHORIZATION"
    then some OperationType.revoke_authorization
    else none

-- the action that has the value of an operation type
abbrev pub action_of : OperationType → OperationAction
action_of OperationType.transfer = OperationAction.transfer
action_of OperationType.swap = OperationAction.swap
action_of OperationType.perp_open = OperationAction.perp_open
action_of OperationType.perp_close = OperationAction.perp_close
action_of OperationType.vault_deposit = OperationAction.vault_deposit
action_of OperationType.vault_withdraw = OperationAction.vault_withdraw
action_of OperationType.cancel = OperationAction.cancel
action_of OperationType.revoke_authorization = OperationAction.revoke_authorization

-- `orderedActions` lists one text; an object is read by its keys.
abbrev pub only_action : Value → Option String
only_action (arr (cons (str s) nil)) = some s
only_action (obj (field k v end)) = some k
only_action _ = none

-- the type, where the ordered actions are that one
abbrev typed : String → Option OperationType → Option String → Result BoundaryError OperationType
typed s none action = err contract_error
typed s (some t) none = err contract_error
typed s (some t) (some action) = guard (str_eq action s) contract_error >>= λ _. ok t

abbrev pub typed_action : Option Value → Option Value → Result BoundaryError OperationType
typed_action (some (str s)) (some actions) = typed s (operation_type_of s) (only_action actions)
typed_action _ _ = err contract_error

abbrev contract_agrees : Option String → String → Bool
contract_agrees none s = true
contract_agrees (some contract) s = str_eq s contract

module _ (host : Host) (configuration : AtomicSignerConfiguration) where
  -- the branches of `_typed_operation`
  unfoldable pub typed_details :
      OperationType → String → AssetRule → Fields → Result BoundaryError OperationDetails
  typed_details OperationType.transfer network asset d = do
    token_contract_text ← text host (get "tokenContract" d)
    guard (contract_agrees asset.token_contract token_contract_text) contract_error
    amount ← positive_decimal host (get "amount" d) asset.decimals
    recipient ← address host network (get "recipient" d)
    token_contract ← through (canonical_network_address host network token_contract_text)
    fee ← nonnegative_decimal host (get "fee" d) asset.decimals
    fee_recipient ← address host network (get "feeRecipient" d)
    ok (transfer_details amount recipient token_contract fee fee_recipient)
  typed_details OperationType.swap network asset d = do
    output_asset_id ← text host (get "outputAssetId" d)
    output_asset ← asset_rule host configuration output_asset_id network
    amount ← positive_decimal host (get "amount" d) asset.decimals
    minimum_output ← positive_decimal host (get "minimumOutput" d) output_asset.decimals
    maximum_slippage_bps ← integer host (get "maximumSlippageBps" d)
    fee ← nonnegative_decimal host (get "fee" d) asset.decimals
    fee_recipient ← address host network (get "feeRecipient" d)
    ok (swap_details amount output_asset_id minimum_output maximum_slippage_bps fee fee_recipient)
  typed_details OperationType.perp_open network asset d = do
    amount ← positive_decimal host (get "amount" d) asset.decimals
    side ← text host (get "side" d)
    leverage ← integer host (get "leverage" d)
    margin_mode ← text host (get "marginMode" d)
    maximum_slippage_bps ← integer host (get "maximumSlippageBps" d)
    ok (perp_open_details amount side leverage margin_mode maximum_slippage_bps false)
  typed_details OperationType.perp_close network asset d = do
    amount ← positive_decimal host (get "amount" d) asset.decimals
    side ← text host (get "side" d)
    position_id ← text host (get "positionId" d)
    maximum_slippage_bps ← integer host (get "maximumSlippageBps" d)
    ok (perp_close_details amount side position_id maximum_slippage_bps true)
  typed_details OperationType.vault_deposit network asset d = do
    amount ← positive_decimal host (get "amount" d) asset.decimals
    vault_id ← text host (get "vaultId" d)
    ok (vault_deposit_details amount vault_id)
  typed_details OperationType.vault_withdraw network asset d = do
    amount ← positive_decimal host (get "amount" d) asset.decimals
    vault_id ← text host (get "vaultId" d)
    recipient ← address host network (get "recipient" d)
    ok (vault_withdraw_details amount vault_id recipient)
  typed_details OperationType.cancel network asset d = do
    target_operation_id ← text host (get "targetOperationId" d)
    market_id ← text host (get "marketId" d)
    ok (cancel_details target_operation_id market_id)
  typed_details OperationType.revoke_authorization network asset d = do
    authorization_id ← text host (get "authorizationId" d)
    authorization_key_id ← text host (get "authorizationKeyId" d)
    ok (revoke_authorization_details authorization_id authorization_key_id)

  -- `_typed_operation`
  unfoldable pub typed_operation : Fields → Result BoundaryError TypedOperationSpec
  typed_operation value = do
    operation_type ← typed_action (get "operationType" value) (get "orderedActions" value)
    network ← text host (get "network" value)
    account ← address host network (get "account" value)
    asset_id ← text host (get "assetId" value)
    asset ← asset_rule host configuration asset_id network
    d ← mapping host (get "operationDetails" value)
    details ← typed_details operation_type network asset d
    operation_id ← text host (get "operationId" value)
    payload_commitment ← text host (get "payloadCommitment" value)
    expires_at ← integer host (get "expiresAt" value)
    ok (record {
      operation_id = operation_id;
      operation_type = operation_type;
      account = account;
      network = network;
      asset_id = asset_id;
      ordered_actions = action_of operation_type ∷ [];
      details = details;
      payload_commitment = payload_commitment;
      expires_at = expires_at;
    })
