-- ===== src/Atomic/Operation.antt =====
-- The typed operation that the boundary decodes, as shared/atomic_signer_contract.py declares it.
use cryptogpt_one_intent_wal.Base.{ℕ, String, List, Bool}
use cryptogpt_one_intent_wal.Canonical.Decimal.{Decimal}

pub data OperationType : Type 0 where
  transfer swap perp_open perp_close vault_deposit vault_withdraw cancel revoke_authorization :
      OperationType

-- `OperationAction` has the same members under the same values.
pub data OperationAction : Type 0 where
  transfer swap perp_open perp_close vault_deposit vault_withdraw cancel revoke_authorization :
      OperationAction

-- `bytes`
abbrev pub Bytes : Type 0
Bytes = List ℕ

pub data OperationDetails : Type 0 where
  transfer_details :
      (amount : Decimal) (recipient token_contract : Bytes) (fee : Decimal) (fee_recipient : Bytes)
      → OperationDetails
  swap_details :
      (amount : Decimal) (output_asset_id : String) (minimum_output : Decimal)
      (maximum_slippage_bps : ℕ) (fee : Decimal) (fee_recipient : Bytes)
      → OperationDetails
  perp_open_details :
      (amount : Decimal) (side : String) (leverage : ℕ) (margin_mode : String)
      (maximum_slippage_bps : ℕ) (reduce_only : Bool)
      → OperationDetails
  perp_close_details :
      (amount : Decimal) (side position_id : String) (maximum_slippage_bps : ℕ) (reduce_only : Bool)
      → OperationDetails
  vault_deposit_details : (amount : Decimal) (vault_id : String) → OperationDetails
  vault_withdraw_details :
      (amount : Decimal) (vault_id : String) (recipient : Bytes) → OperationDetails
  cancel_details : (target_operation_id market_id : String) → OperationDetails
  revoke_authorization_details : (authorization_id authorization_key_id : String) → OperationDetails

pub record TypedOperationSpec : Type 0 where
  pub operation_id : String
  pub operation_type : OperationType
  pub account : Bytes
  pub network : String
  pub asset_id : String
  pub ordered_actions : List OperationAction
  pub details : OperationDetails
  pub payload_commitment : String
  pub expires_at : ℕ
