-- ===== src/Env.antt =====
-- What one request meets: the configuration, the interfaces whose implementations stand outside
-- the repository (the chain behind viem, the Privy wallet service, the protocol provider's
-- on-chain reads), and what the other requests and the job do to the shared state while this one
-- waits.
use earn_defi_nestjs_backend.Base.{ℕ, Option}
use earn_defi_nestjs_backend.Schema.Rows.{Db}
use earn_defi_nestjs_backend.Schema.Chain.{
  Config, AssetAddress, ProtocolVault, Call, SendTransactionInput, BroadcastTransaction, Receipt,
}
use earn_defi_nestjs_backend.Monad.{Result}

-- The chain is read before the broadcast and, by an approval, once more after its receipt.
pub data Moment : Type 0 where
  before after : Moment

-- The awaits at which others may run: between the reads and the Prisma transaction, during the
-- broadcast, and while the receipt is awaited.
pub data Await : Type 0 where
  at_open at_broadcast at_receipt : Await

pub record Env : Type 0 where
  pub config : Config
  -- `EarnProtocolProvider.getVault({ vaultId, chainId })`
  pub get_vault : ℕ → Option ℕ → Result ProtocolVault
  -- `balanceOf` or `getBalance`: chain, asset, wallet address.
  pub asset_balance : ℕ → AssetAddress → ℕ → Result ℕ
  -- `allowance`: chain, asset, owner, spender.
  pub allowance : Moment → ℕ → AssetAddress → ℕ → ℕ → Result ℕ
  -- `balanceOf` of the share token: chain, token, wallet address.
  pub share_balance : ℕ → ℕ → ℕ → Result ℕ
  pub encode_function_data : Call → Result ℕ
  pub send_transaction : SendTransactionInput → Result BroadcastTransaction
  -- Chain and hash; a time-out throws.
  pub wait_for_receipt : ℕ → ℕ → Result Receipt
  -- The attempt, the chain and the hash.
  pub get_receipt : ℕ → ℕ → ℕ → Result Receipt
  pub others : Await → Db → Db
