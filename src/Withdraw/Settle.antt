-- ===== src/Withdraw/Settle.antt =====
-- earn/services/earn-withdraw.service.ts: a withdrawal, from its broadcast to its end.
use earn_defi_nestjs_backend.Base.{ℕ, if◌then◌else◌, Bool, true, false, Option, none, some, [], ◌∷◌}
use earn_defi_nestjs_backend.Schema.Status.{AuditAction}
use earn_defi_nestjs_backend.Schema.Rows.{Metadata, MetaKey, number, text, flag}
use earn_defi_nestjs_backend.Schema.Chain.{token, Receipt, BroadcastTransaction}
use earn_defi_nestjs_backend.Monad.{
  Error, Action, pure, raise, lift, or_raise, atomic, ◌>>=◌, ◌>>◌, modify, log_audit,
  position_missing,
}
use earn_defi_nestjs_backend.Env.{Env, at_broadcast, at_receipt}
use earn_defi_nestjs_backend.Blockchain.{encode_vault_withdraw, wait_for_transaction_receipt}
use earn_defi_nestjs_backend.Positions.Service.{PositionRecord}
use earn_defi_nestjs_backend.Positions.Service as Positions
use earn_defi_nestjs_backend.Transactions.Service.{TransactionRecord}
use earn_defi_nestjs_backend.Transactions.Service as Transactions
use earn_defi_nestjs_backend.Deposit.{optional_meta, amount_meta, message}
use earn_defi_nestjs_backend.Withdraw.Open.{WithdrawDto, Plan, WithdrawResponse}

abbrev pub to_response :
    Plan → WithdrawDto → TransactionRecord → Option PositionRecord → WithdrawResponse
to_response plan dto transaction updated = record {
  position_id = plan.position.id;
  vault_id = plan.db_vault.slug;
  chain_id = plan.db_vault.chain_id;
  wallet_id = dto.wallet_id;
  amount = transaction.amount;
  full_withdraw = dto.full_withdraw;
  shares_burned = plan.shares_to_burn;
  position_status = elim updated [ none ↦ plan.position.status | some p ↦ p.status ];
  remaining_amount = elim updated [
    | none ↦ plan.position.current_amount
    | some p ↦ p.current_amount
  ];
  remaining_shares = elim updated [ none ↦ plan.position.shares | some p ↦ p.shares ];
  transaction_id = transaction.transaction_id;
  status = transaction.status;
  tx_hash = transaction.tx_hash;
  block_number = transaction.block_number;
}

unfoldable pub revert_withdraw :
    Plan → WithdrawDto → TransactionRecord → Receipt → Action WithdrawResponse
revert_withdraw plan dto submitted receipt = do
  reverted ←
      Transactions.mark_reverted submitted.transaction_id receipt.block_number
        (some (amount_meta MetaKey.gas_used receipt.gas_used ∷ []))
  Positions.mark_active plan.position.id
  pure (to_response plan dto reverted none)

-- `applied ? subtractWithdraw : findById`
unfoldable pub debit_position : Bool → Plan → Action (Option PositionRecord)
debit_position true plan = do
  position ←
      Positions.subtract_withdraw plan.position.id
        (record { withdrawn_amount = plan.withdraw_amount; shares = plan.shares_to_burn })
  pure (some position)
debit_position false plan = Positions.find_by_id plan.position.id

-- The second Prisma transaction: the transaction is confirmed, and the position is debited if it
-- was this call that confirmed it.
unfoldable pub confirm_withdraw :
    Plan → WithdrawDto → TransactionRecord → Receipt → Action (TransactionRecord × PositionRecord)
unfolding debit_position
confirm_withdraw plan dto submitted receipt = atomic do
  (applied, confirmed) ←
      Transactions.confirm_submitted submitted.transaction_id receipt.block_number (
        some (
          amount_meta MetaKey.gas_used receipt.gas_used
          ∷ (MetaKey.shares_burned, number plan.shares_to_burn)
          ∷ (MetaKey.full_withdraw, flag dto.full_withdraw)
          ∷ []))
  updated ← debit_position applied plan
  position ← or_raise updated position_missing
  pure (confirmed, position)

abbrev pub submitted_metadata : Plan → WithdrawDto → BroadcastTransaction → Metadata
submitted_metadata plan dto broadcast =
    optional_meta MetaKey.privy_transaction_id broadcast.transaction_id (
      (MetaKey.shares_burned, number plan.shares_to_burn)
      ∷ (MetaKey.full_withdraw, flag dto.full_withdraw)
      ∷ [])

-- The body of the `try`: broadcast, wait for the receipt, record what it says.
unfoldable pub settle_withdraw :
    Env → ℕ → ℕ → Plan → WithdrawDto → TransactionRecord → Action WithdrawResponse
unfolding revert_withdraw confirm_withdraw
settle_withdraw env user_id position_id plan dto transaction = do
  calldata ←
      encode_vault_withdraw env plan.vault plan.withdraw_amount plan.wallet.address
        dto.full_withdraw
  modify (env.others at_broadcast)
  broadcast ← lift (
      env.send_transaction (record {
        provider_wallet_id = plan.wallet.provider_id;
        chain_id = plan.vault.chain_id;
        to = token plan.vault.contract_address;
        value = 0;
        calldata = calldata;
      }))
  submitted ←
      Transactions.mark_submitted transaction.transaction_id broadcast.hash
        (some (submitted_metadata plan dto broadcast))
  modify (env.others at_receipt)
  receipt ← wait_for_transaction_receipt env plan.vault.chain_id broadcast.hash
  if receipt.success
      then (do
        (confirmed, position) ← confirm_withdraw plan dto submitted receipt
        log_audit user_id AuditAction.withdraw_confirmed confirmed.transaction_id (
            (MetaKey.position_id, text position_id)
            ∷ optional_meta MetaKey.tx_hash confirmed.tx_hash
                ((MetaKey.full_withdraw, flag dto.full_withdraw) ∷ []))
        pure (to_response plan dto confirmed (some position)))
      else revert_withdraw plan dto submitted receipt

-- The body of the `catch`.
unfoldable pub fail_withdraw : Plan → TransactionRecord → Error → Action WithdrawResponse
fail_withdraw plan transaction error = do
  Transactions.mark_failed transaction.transaction_id (some ((MetaKey.error, message error) ∷ []))
  Positions.mark_active plan.position.id
  raise error
