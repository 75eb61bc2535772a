-- ===== src/Deposit/Settle.antt =====
-- earn/services/earn-deposit.service.ts: a deposit, from its broadcast to its end.
use earn_defi_nestjs_backend.Base.{
  ℕ, if◌then◌else◌, Bool, true, false, Option, none, some, [], ◌∷◌, ℤ, pos,
}
use earn_defi_nestjs_backend.Schema.Status.{AuditAction}
use earn_defi_nestjs_backend.Schema.Rows.{Metadata, MetaKey, MetaValue, text}
use earn_defi_nestjs_backend.Schema.Chain.{token, BroadcastTransaction, Receipt}
use earn_defi_nestjs_backend.Monad.{
  Error, Action, pure, raise, lift, or_raise, atomic, ◌>>=◌, ◌>>◌, modify, log_audit, external,
  position_missing,
}
use earn_defi_nestjs_backend.Env.{Env, at_broadcast, at_receipt}
use earn_defi_nestjs_backend.Blockchain.{encode_vault_deposit, wait_for_transaction_receipt}
use earn_defi_nestjs_backend.Positions.Repository.{ActivatePositionInput}
use earn_defi_nestjs_backend.Positions.Service.{PositionRecord}
use earn_defi_nestjs_backend.Positions.Service as Positions
use earn_defi_nestjs_backend.Transactions.Service.{TransactionRecord}
use earn_defi_nestjs_backend.Transactions.Service as Transactions
use earn_defi_nestjs_backend.Deposit.Open.{
  DepositDto, Quote, Opened, DepositResponse, amount_meta, optional_meta,
}

abbrev pub to_response :
    Quote → DepositDto → PositionRecord → TransactionRecord → ℤ → DepositResponse
to_response quote dto position transaction shares = record {
  vault_id = quote.vault.vault_id;
  chain_id = quote.vault.chain_id;
  wallet_id = dto.wallet_id;
  amount = dto.amount;
  wallet_balance = quote.wallet_balance;
  allowance = quote.allowance;
  position_id = position.position_id;
  position_status = position.status;
  deposited_amount = position.deposited_amount;
  shares = shares;
  transaction_id = transaction.transaction_id;
  status = transaction.status;
  tx_hash = transaction.tx_hash;
  block_number = transaction.block_number;
}

abbrev pub deposit_amounts : Quote → DepositDto → ActivatePositionInput
deposit_amounts quote dto = record {
  deposited_amount = pos dto.amount;
  current_amount = pos dto.amount;
  shares = pos quote.estimated_shares;
}

abbrev pub or_position : Option PositionRecord → PositionRecord → PositionRecord
or_position none position = position
or_position (some current) position = current

abbrev pub shares_of : Option PositionRecord → ℤ
shares_of none = pos 0
shares_of (some p) = p.shares

-- The receipt says that the transaction was reverted.
unfoldable pub revert_deposit :
    ℕ → ℕ → Quote → DepositDto → Opened → TransactionRecord → Receipt → Action DepositResponse
revert_deposit user_id vault_id quote dto opened submitted receipt = do
  if opened.is_new_position
      then (Positions.mark_failed opened.position.position_id >> pure tt)
      else pure tt
  reverted ←
      Transactions.mark_reverted submitted.transaction_id receipt.block_number
        (some (amount_meta MetaKey.gas_used receipt.gas_used ∷ []))
  current ← Positions.find_by_user_and_vault user_id vault_id
  pure (to_response quote dto (or_position current opened.position) reverted (shares_of current))

-- `applied ? (isNewPosition ? activate : addDeposit) : findById`
unfoldable pub credit_position :
    Bool → Bool → ℕ → ActivatePositionInput → Action (Option PositionRecord)
credit_position true true id amounts = do
  position ← Positions.activate id amounts
  pure (some position)
credit_position true false id amounts = do
  position ← Positions.add_deposit id amounts
  pure (some position)
credit_position false is_new id amounts = Positions.find_by_id id

-- The second Prisma transaction: the transaction is confirmed, and the position is credited if
-- it was this call that confirmed it.
unfoldable pub confirm_deposit :
    Quote
    → DepositDto
    → Opened
    → TransactionRecord
    → Receipt
    → Action (TransactionRecord × PositionRecord)
unfolding credit_position
confirm_deposit quote dto opened submitted receipt = atomic do
  (applied, confirmed) ←
      Transactions.confirm_submitted submitted.transaction_id receipt.block_number (
        some (
          amount_meta MetaKey.gas_used receipt.gas_used
          ∷ amount_meta MetaKey.estimated_shares quote.estimated_shares
          ∷ []))
  updated ←
      credit_position applied opened.is_new_position opened.position.position_id
        (deposit_amounts quote dto)
  position ← or_raise updated position_missing
  pure (confirmed, position)

abbrev pub submitted_metadata : Quote → BroadcastTransaction → Metadata
submitted_metadata quote broadcast =
    optional_meta MetaKey.privy_transaction_id broadcast.transaction_id
      (amount_meta MetaKey.estimated_shares quote.estimated_shares ∷ [])

-- What the receipt says is recorded.
abbrev pub apply_deposit_receipt :
    ℕ → ℕ → Quote → DepositDto → Opened → TransactionRecord → Receipt → Action DepositResponse
apply_deposit_receipt user_id vault_id quote dto opened submitted receipt =
    if receipt.success
    then (do
      (confirmed, position) ← confirm_deposit quote dto opened submitted receipt
      log_audit user_id AuditAction.deposit_confirmed confirmed.transaction_id (
          (MetaKey.vault_id, text quote.vault.vault_id)
          ∷ optional_meta MetaKey.tx_hash confirmed.tx_hash
              ((MetaKey.position_id, text position.position_id) ∷ []))
      pure (to_response quote dto position confirmed position.shares))
    else revert_deposit user_id vault_id quote dto opened submitted receipt

-- The body of the `try`: broadcast, wait for the receipt, record what it says.
unfoldable pub settle_deposit : Env → ℕ → ℕ → Quote → DepositDto → Opened → Action DepositResponse
unfolding revert_deposit confirm_deposit
settle_deposit env user_id vault_id quote dto opened = do
  calldata ← encode_vault_deposit env quote.vault dto.amount quote.wallet.address
  modify (env.others at_broadcast)
  broadcast ← lift (
      env.send_transaction (record {
        provider_wallet_id = quote.wallet.provider_id;
        chain_id = quote.vault.chain_id;
        to = token quote.vault.contract_address;
        value = 0;
        calldata = calldata;
      }))
  submitted ←
      Transactions.mark_submitted opened.transaction.transaction_id broadcast.hash
        (some (submitted_metadata quote broadcast))
  modify (env.others at_receipt)
  receipt ← wait_for_transaction_receipt env quote.vault.chain_id broadcast.hash
  apply_deposit_receipt user_id vault_id quote dto opened submitted receipt

-- The message of an error, as it is stored.
abbrev pub message : Error → MetaValue
message (external n) = text n
message _ = text 0

-- The body of the `catch`.
unfoldable pub fail_deposit : Opened → Error → Action DepositResponse
fail_deposit opened error = do
  Transactions.mark_failed opened.transaction.transaction_id
      (some ((MetaKey.error, message error) ∷ []))
  if opened.is_new_position
      then (Positions.mark_failed opened.position.position_id >> pure tt)
      else pure tt
  raise error
