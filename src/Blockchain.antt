-- ===== src/Blockchain.antt =====
-- earn/services/earn-blockchain.service.ts: the reads, the calldata and the receipts. The RPC
-- client and the ABI encoder are the environment's.
pub mod Retry
use earn_defi_nestjs_backend.Base.{
  ℕ, zero, suc, ◌+◌, ◌-◌, ◌^◌, ltb, leb, ◌==◌, if◌then◌else◌, Bool, true, false, not, ◌&&◌, Option,
  none, some, ℤ, pos,
}
use earn_defi_nestjs_backend.Schema.Chain.{
  AssetAddress, native, token, ProtocolVault, Call, Receipt,
}
use earn_defi_nestjs_backend.Monad.{Error, Result, ok, err, Action, pure, lift, ◌>>=◌}
use earn_defi_nestjs_backend.Env.{Env, Moment, before, after}

abbrev pub is_native : AssetAddress → Bool
is_native native = true
is_native (token a) = false

abbrev pub read_asset_balance : Env → ProtocolVault → ℕ → Action ℕ
read_asset_balance env vault address =
    lift (env.asset_balance vault.chain_id vault.asset_address address)

abbrev pub read_erc20_allowance : Env → Moment → ProtocolVault → ℕ → Action ℕ
read_erc20_allowance env moment vault owner =
    lift (env.allowance moment vault.chain_id vault.asset_address owner vault.contract_address)

abbrev pub read_vault_share_balance : Env → ProtocolVault → ℕ → Action ℕ
read_vault_share_balance env vault address =
    lift (env.share_balance vault.chain_id vault.share_token_address address)

-- One share of the vault stands for one unit of the asset.
abbrev pub preview_deposit_shares : ProtocolVault → ℕ → ℕ
preview_deposit_shares vault amount = amount

abbrev pub preview_withdraw_shares : ProtocolVault → ℤ → ℤ
preview_withdraw_shares vault amount = amount

abbrev pub max_uint256 : ℤ
max_uint256 = pos (2 ^ 256 - 1)

unfoldable pub encode_vault_deposit : Env → ProtocolVault → ℕ → ℕ → Action ℕ
encode_vault_deposit env vault amount receiver =
    lift (env.encode_function_data (Call.supply vault.asset_address (pos amount) receiver 0))

unfoldable pub encode_vault_withdraw : Env → ProtocolVault → ℤ → ℕ → Bool → Action ℕ
encode_vault_withdraw env vault amount receiver full_withdraw =
    lift (env.encode_function_data (Call.withdraw vault.asset_address uint receiver))
  where
    uint : ℤ
    uint = if full_withdraw then max_uint256 else amount

unfoldable pub encode_erc20_approve : Env → ℕ → ℕ → Action ℕ
encode_erc20_approve env spender amount =
    lift (env.encode_function_data (Call.approve spender (pos amount)))

abbrev pub wait_for_transaction_receipt : Env → ℕ → ℕ → Action Receipt
wait_for_transaction_receipt env chain_id hash = lift (env.wait_for_receipt chain_id hash)

-- `for (attempt = 1; attempt <= maxAttempts; …)`, on the rounds left. `get attempt` is one fetch
-- of the receipt; `last` is what was thrown last.
unfoldable pub retry_from : (ℕ → Result Receipt) → ℕ → ℕ → Error → Result Receipt
retry_from get zero attempt last = err last
retry_from get (suc rounds) attempt last = elim (get attempt) [
  | ok receipt ↦ ok receipt
  | err e ↦ retry_from get rounds (suc attempt) e
]

-- With no attempt at all `throw lastError` throws `undefined`, here `external 0`.
unfoldable pub get_transaction_receipt_with_retry : Env → ℕ → ℕ → Action Receipt
unfolding retry_from
get_transaction_receipt_with_retry env chain_id hash =
    lift (retry_from (λ attempt. env.get_receipt attempt chain_id hash) 3 1 (Error.external 0))

pub record DepositPreviewChainData : Type 0 where
  pub wallet_balance : ℕ
  pub allowance : ℕ
  pub requires_approval : Bool
  pub estimated_gas : ℕ
  pub estimated_shares : ℕ

-- Gas is estimated by the client for one call: account, target and calldata.
unfoldable pub fetch_deposit_preview_data :
    Env → (ℕ → AssetAddress → ℕ → Result ℕ) → ProtocolVault → ℕ → ℕ → Action DepositPreviewChainData
unfolding encode_vault_deposit encode_erc20_approve
fetch_deposit_preview_data env estimate_gas vault address amount = do
  wallet_balance ← read_asset_balance env vault address
  allowance ←
      if is_native vault.asset_address
      then pure 0
      else read_erc20_allowance env before vault address
  let estimated_shares = preview_deposit_shares vault amount
  let requires_approval = not (is_native vault.asset_address) && ltb allowance amount
  let has_sufficient_balance = leb amount wallet_balance
  approve_gas ←
      if has_sufficient_balance && requires_approval
      then (do
        calldata ← encode_erc20_approve env vault.contract_address amount
        lift (estimate_gas address vault.asset_address calldata))
      else pure 0
  deposit_gas ←
      if has_sufficient_balance && not requires_approval
      then (do
        calldata ← encode_vault_deposit env vault amount address
        lift (estimate_gas address (token vault.contract_address) calldata))
      else pure 0
  pure (record {
    wallet_balance = wallet_balance;
    allowance = allowance;
    requires_approval = requires_approval;
    estimated_gas = approve_gas + deposit_gas;
    estimated_shares = estimated_shares;
  })
