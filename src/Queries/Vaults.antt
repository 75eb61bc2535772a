-- ===== src/Queries/Vaults.antt =====
-- earn/services/earn.service.ts: the vaults, and the preview of a deposit.
use earn_defi_nestjs_backend.Base.{ℕ, ltb, ◌==◌, not, Option, none, List}
use earn_defi_nestjs_backend.Schema.Chain.{AssetAddress, ProtocolVault}
use earn_defi_nestjs_backend.Monad.{
  Result, Action, pure, lift, raise_if, ◌>>=◌, ◌>>◌, http, insufficient_balance,
}
use earn_defi_nestjs_backend.Env.{Env}
use earn_defi_nestjs_backend.Validation.{find_owned_wallet}
use earn_defi_nestjs_backend.Blockchain.{DepositPreviewChainData, fetch_deposit_preview_data}
use earn_defi_nestjs_backend.Protocols.Aave.{Provider, GetVaultsInput, get_vaults, get_vault}

-- `toVaultResponse` copies the fields of a vault, all but the share token.
unfoldable pub list_vaults : Provider → GetVaultsInput → Action (List ProtocolVault)
list_vaults provider query = lift (get_vaults provider query)

unfoldable pub get_vault_response : Provider → ℕ → Option ℕ → Action ProtocolVault
get_vault_response provider vault_id chain_id = lift (get_vault provider vault_id chain_id)

pub record DepositPreviewDto : Type 0 where
  pub wallet_id : ℕ
  pub amount : ℕ

pub record DepositPreviewResponse : Type 0 where
  pub vault : ProtocolVault
  pub dto : DepositPreviewDto
  pub preview : DepositPreviewChainData

unfoldable pub assert_vault_active : ProtocolVault → Action (Unit {0})
assert_vault_active vault = raise_if (not vault.is_enabled) (http 400)

unfoldable pub preview_deposit :
    Env
    → (ℕ → AssetAddress → ℕ → Result ℕ)
    → ℕ
    → ℕ
    → DepositPreviewDto
    → Action DepositPreviewResponse
unfolding assert_vault_active find_owned_wallet fetch_deposit_preview_data
preview_deposit env estimate_gas user_id vault_id dto = do
  vault ← lift (env.get_vault vault_id none)
  assert_vault_active vault
  wallet ← find_owned_wallet user_id dto.wallet_id
  raise_if (not (wallet.chain_id == vault.chain_id)) (http 400)
  preview ← fetch_deposit_preview_data env estimate_gas vault wallet.address dto.amount
  raise_if (ltb preview.wallet_balance dto.amount) insufficient_balance
  pure (record { vault = vault; dto = dto; preview = preview })
