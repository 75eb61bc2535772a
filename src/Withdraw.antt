-- ===== src/Withdraw.antt =====
-- earn/services/earn-withdraw.service.ts: a withdrawal from a position, from the checks to the
-- receipt.
pub mod Open
pub mod Settle
use earn_defi_nestjs_backend.Base.{
  ℕ, ◌==◌, if◌then◌else◌, Bool, true, false, not, Option, none, some, [], ◌∷◌, ℤ, pos, ltb_ℤ,
}
use earn_defi_nestjs_backend.Schema.Status.{
  PositionStatus, TransactionType, TransactionStatus, AuditAction, is_active,
}
use earn_defi_nestjs_backend.Schema.Rows.{
  Position, Vault, Wallet, Metadata, MetaKey, number, text, flag,
}
use earn_defi_nestjs_backend.Schema.Chain.{token, ProtocolVault, Receipt, BroadcastTransaction}
use earn_defi_nestjs_backend.Monad.{
  Error, Action, pure, raise, lift, or_raise, catch, atomic, ◌>>=◌, ◌>>◌, raise_if, modify,
  log_audit, position_not_found, position_not_active, insufficient_position_balance,
  withdraw_in_progress, amount_required, position_missing,
}
use earn_defi_nestjs_backend.Env.{Env, at_open, at_broadcast, at_receipt}
use earn_defi_nestjs_backend.Validation.{check_withdraw_vault, check_wallet}
use earn_defi_nestjs_backend.RateLimit.{assert_withdraw_allowed}
use earn_defi_nestjs_backend.Blockchain.{
  read_vault_share_balance, preview_withdraw_shares, encode_vault_withdraw,
  wait_for_transaction_receipt,
}
use earn_defi_nestjs_backend.Positions.Service.{PositionRecord}
use earn_defi_nestjs_backend.Positions.Service as Positions
use earn_defi_nestjs_backend.Transactions.Repository.{CreateTransactionInput}
use earn_defi_nestjs_backend.Transactions.Service.{TransactionRecord}
use earn_defi_nestjs_backend.Transactions.Service as Transactions
use earn_defi_nestjs_backend.Deposit.{optional_meta, amount_meta, message}
unfoldable pub use Open.*
unfoldable pub use Settle.*

abbrev pub requested_metadata : ℕ → Plan → WithdrawDto → Metadata
requested_metadata position_id plan dto =
    (MetaKey.position_id, text position_id)
    ∷ (MetaKey.vault_id, text plan.vault.vault_id)
    ∷ (MetaKey.amount, number plan.withdraw_amount)
    ∷ (MetaKey.full_withdraw, flag dto.full_withdraw)
    ∷ []

unfoldable pub withdraw_position : Env → ℕ → ℕ → WithdrawDto → Action WithdrawResponse
unfolding plan_withdraw open_withdraw settle_withdraw fail_withdraw
withdraw_position env user_id position_id dto = do
  plan ← plan_withdraw env user_id position_id dto
  has_open_withdraw ← Transactions.has_open_withdraw position_id
  raise_if has_open_withdraw withdraw_in_progress
  modify (env.others at_open)
  transaction ← open_withdraw user_id position_id plan dto
  log_audit user_id AuditAction.withdraw_requested transaction.transaction_id
      (requested_metadata position_id plan dto)
  catch (settle_withdraw env user_id position_id plan dto transaction)
      (fail_withdraw plan transaction)
