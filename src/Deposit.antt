-- ===== src/Deposit.antt =====
-- earn/services/earn-deposit.service.ts: a deposit into a vault, from the checks to the receipt.
pub mod Open
pub mod Settle
use earn_defi_nestjs_backend.Base.{
  ℕ, ltb, if◌then◌else◌, Bool, true, false, Option, none, some, [], ◌∷◌, ℤ, pos,
}
use earn_defi_nestjs_backend.Schema.Status.{
  PositionStatus, TransactionType, TransactionStatus, AuditAction, is_pending,
}
use earn_defi_nestjs_backend.Schema.Rows.{Wallet, Metadata, MetaKey, MetaValue, number, text}
use earn_defi_nestjs_backend.Schema.Chain.{token, ProtocolVault, BroadcastTransaction, Receipt}
use earn_defi_nestjs_backend.Monad.{
  Error, Action, pure, raise, lift, or_raise, catch, atomic, ◌>>=◌, ◌>>◌, raise_if, modify,
  log_audit, insufficient_balance, insufficient_allowance, deposit_in_progress, external,
  position_missing,
}
use earn_defi_nestjs_backend.Env.{Env, before, at_open, at_broadcast, at_receipt}
use earn_defi_nestjs_backend.Validation.{check_deposit_vault, check_wallet}
use earn_defi_nestjs_backend.RateLimit.{assert_deposit_allowed}
use earn_defi_nestjs_backend.Blockchain.{
  is_native, read_asset_balance, read_erc20_allowance, preview_deposit_shares, encode_vault_deposit,
  wait_for_transaction_receipt,
}
use earn_defi_nestjs_backend.Positions.Repository.{ActivatePositionInput}
use earn_defi_nestjs_backend.Positions.Service.{PositionRecord}
use earn_defi_nestjs_backend.Positions.Service as Positions
use earn_defi_nestjs_backend.Transactions.Repository.{CreateTransactionInput}
use earn_defi_nestjs_backend.Transactions.Service.{TransactionRecord}
use earn_defi_nestjs_backend.Transactions.Service as Transactions
use earn_defi_nestjs_backend.Vaults.{find_or_create}
unfoldable pub use Open.*
unfoldable pub use Settle.*

abbrev pub requested_metadata : Quote → DepositDto → Opened → Metadata
requested_metadata quote dto opened =
    (MetaKey.vault_id, text quote.vault.vault_id)
    ∷ (MetaKey.wallet_id, text dto.wallet_id)
    ∷ amount_meta MetaKey.amount dto.amount
    ∷ (MetaKey.position_id, text opened.position.position_id)
    ∷ []

unfoldable pub deposit_vault : Env → ℕ → ℕ → DepositDto → Action DepositResponse
unfolding quote_deposit open_deposit settle_deposit fail_deposit assert_no_duplicate_deposit
deposit_vault env user_id vault_id dto = do
  quote ← quote_deposit env user_id vault_id dto
  vault ← find_or_create quote.vault
  assert_no_duplicate_deposit user_id vault.id
  modify (env.others at_open)
  opened ← open_deposit user_id vault.id quote dto
  log_audit user_id AuditAction.deposit_requested opened.transaction.transaction_id
      (requested_metadata quote dto opened)
  catch (settle_deposit env user_id vault.id quote dto opened) (fail_deposit opened)
