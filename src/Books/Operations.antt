-- ===== src/Books/Operations.antt =====
-- The services of the tables and what else the mutations call: the books before and after each
-- operation.
pub mod Checks
pub mod Positions
pub mod Transactions
pub use earn_defi_nestjs_backend.Books.Operations.Checks.{
  log_audit-Keeps, untouched-Keeps, assert_deposit_allowed-Keeps, assert_withdraw_allowed-Keeps,
  find_or_create-Keeps, check_deposit_vault-Keeps, check_withdraw_vault-Keeps, check_wallet-Keeps,
  find_by_user_and_vault-Keeps, find_position-Keeps, has_open_deposit-Keeps,
  has_open_withdraw-Keeps,
}
pub use earn_defi_nestjs_backend.Books.Operations.Positions.{
  create_pending-Keeps, activate-Keeps, add_deposit-Keeps, mark_withdrawing-Keeps,
  mark_active-Keeps, mark_failed-Keeps, subtract_withdraw-Keeps,
}
pub use earn_defi_nestjs_backend.Books.Operations.Transactions.{
  mark_tx_failed-Keeps, mark_reverted-Keeps, confirm_submitted-Keeps, create_transaction-Holds,
  mark_submitted-Keeps,
}
