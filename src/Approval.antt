-- ===== src/Approval.antt =====
-- earn/services/earn-approval.service.ts: the ERC-20 approval that a deposit needs.
pub mod Answers
use earn_defi_nestjs_backend.Base.{
  ℕ, ltb, if◌then◌else◌, Bool, true, false, Option, none, some, [], ◌∷◌, pos,
}
use earn_defi_nestjs_backend.Schema.Status.{
  TransactionType, TransactionStatus, AuditAction, is_confirmed,
}
use earn_defi_nestjs_backend.Schema.Rows.{Wallet, Metadata, MetaKey, MetaValue, text, flag}
use earn_defi_nestjs_backend.Schema.Chain.{
  AssetAddress, native, token, ProtocolVault, Receipt, BroadcastTransaction,
}
use earn_defi_nestjs_backend.Monad.{
  Error, Action, pure, raise, lift, catch, ◌>>=◌, ◌>>◌, raise_if, modify, log_audit,
  native_needs_no_approval,
}
use earn_defi_nestjs_backend.Env.{Env, before, after, at_broadcast, at_receipt}
use earn_defi_nestjs_backend.Validation.{check_deposit_vault, check_wallet}
use earn_defi_nestjs_backend.Blockchain.{
  is_native, read_erc20_allowance, encode_erc20_approve, wait_for_transaction_receipt,
}
use earn_defi_nestjs_backend.Transactions.Repository.{CreateTransactionInput}
use earn_defi_nestjs_backend.Transactions.Service.{TransactionRecord}
use earn_defi_nestjs_backend.Transactions.Service as Transactions
use earn_defi_nestjs_backend.Deposit.{DepositDto, optional_meta, amount_meta, message}

pub record ApprovalResponse : Type 0 where
  pub vault_id : ℕ
  pub chain_id : ℕ
  pub wallet_id : ℕ
  pub amount : ℕ
  pub allowance : ℕ
  pub requires_approval : Bool
  pub status : TransactionStatus
  pub transaction_id : ℕ
  pub tx_hash : Option ℕ
  pub block_number : Option ℕ

abbrev pub to_response :
    ProtocolVault → DepositDto → ℕ → Bool → TransactionRecord → ApprovalResponse
to_response vault dto allowance requires_approval transaction = record {
  vault_id = vault.vault_id;
  chain_id = vault.chain_id;
  wallet_id = dto.wallet_id;
  amount = dto.amount;
  allowance = allowance;
  requires_approval = requires_approval;
  status = transaction.status;
  transaction_id = transaction.transaction_id;
  tx_hash = transaction.tx_hash;
  block_number = transaction.block_number;
}

-- `assetAddress` as it is stored in the metadata; the string `'native'` is 0.
abbrev pub asset_text : AssetAddress → MetaValue
asset_text native = text 0
asset_text (token a) = text a

abbrev pub approval_input :
    ℕ → ProtocolVault → Wallet → DepositDto → Metadata → CreateTransactionInput
approval_input user_id vault wallet dto rest = record {
  user_id = user_id;
  wallet_id = wallet.id;
  chain_id = vault.chain_id;
  type = TransactionType.approval;
  amount = pos dto.amount;
  vault_id = none;
  position_id = none;
  metadata = some (
      (MetaKey.vault_id, text vault.vault_id)
      ∷ (MetaKey.asset_address, asset_text vault.asset_address)
      ∷ (MetaKey.spender_address, text vault.contract_address)
      ∷ rest);
}

abbrev pub create_approval :
    ℕ → ProtocolVault → Wallet → DepositDto → Metadata → Action TransactionRecord
create_approval user_id vault wallet dto rest =
    Transactions.create_transaction (approval_input user_id vault wallet dto rest)

-- The allowance already covers the amount: an approval is recorded as confirmed, none is sent.
unfoldable pub skip_approval : ℕ → ProtocolVault → Wallet → DepositDto → ℕ → Action ApprovalResponse
skip_approval user_id vault wallet dto allowance = do
  transaction ←
      create_approval user_id vault wallet dto
        ((MetaKey.skipped, flag true) ∷ (MetaKey.reason, text 0) ∷ [])
  confirmed ← Transactions.mark_confirmed transaction.transaction_id 0 (
      some (amount_meta MetaKey.allowance allowance ∷ (MetaKey.requires_approval, flag false) ∷ []))
  log_audit user_id AuditAction.approval_confirmed confirmed.transaction_id
      ((MetaKey.vault_id, text vault.vault_id) ∷ (MetaKey.skipped, flag true) ∷ [])
  pure (to_response vault dto allowance false confirmed)

abbrev pub receipt_metadata : Receipt → ℕ → Metadata
receipt_metadata receipt allowance =
    amount_meta MetaKey.gas_used receipt.gas_used
    ∷ amount_meta MetaKey.allowance_before allowance
    ∷ []

-- The status that the receipt gives the approval.
unfoldable pub conclude_approval : TransactionRecord → Receipt → ℕ → Action TransactionRecord
conclude_approval submitted receipt allowance =
    if receipt.success
    then (do
      (applied, transaction) ←
          Transactions.confirm_submitted submitted.transaction_id receipt.block_number
            (some (receipt_metadata receipt allowance))
      pure transaction)
    else Transactions.mark_reverted submitted.transaction_id receipt.block_number
        (some (receipt_metadata receipt allowance))

abbrev pub submitted_metadata : BroadcastTransaction → ℕ → Metadata
submitted_metadata broadcast allowance =
    optional_meta MetaKey.privy_transaction_id broadcast.transaction_id
      (amount_meta MetaKey.allowance_before allowance ∷ [])

-- The audit entry and the answer.
abbrev pub report_approval :
    ℕ → ProtocolVault → DepositDto → TransactionRecord → ℕ → Action ApprovalResponse
report_approval user_id vault dto final updated_allowance = do
  if is_confirmed final.status
      then log_audit user_id AuditAction.approval_confirmed final.transaction_id
          ((MetaKey.vault_id, text vault.vault_id) ∷ optional_meta MetaKey.tx_hash final.tx_hash [])
      else pure tt
  pure (to_response vault dto updated_allowance (ltb updated_allowance dto.amount) final)

unfoldable pub settle_approval :
    Env → ℕ → ProtocolVault → Wallet → DepositDto → ℕ → TransactionRecord → Action ApprovalResponse
unfolding conclude_approval
settle_approval env user_id vault wallet dto allowance transaction = do
  calldata ← encode_erc20_approve env vault.contract_address dto.amount
  modify (env.others at_broadcast)
  broadcast ← lift (
      env.send_transaction (record {
        provider_wallet_id = wallet.provider_id;
        chain_id = vault.chain_id;
        to = vault.asset_address;
        value = 0;
        calldata = calldata;
      }))
  submitted ←
      Transactions.mark_submitted transaction.transaction_id broadcast.hash
        (some (submitted_metadata broadcast allowance))
  modify (env.others at_receipt)
  receipt ← wait_for_transaction_receipt env vault.chain_id broadcast.hash
  final ← conclude_approval submitted receipt allowance
  updated_allowance ← read_erc20_allowance env after vault wallet.address
  report_approval user_id vault dto final updated_allowance

unfoldable pub fail_approval : TransactionRecord → ℕ → Error → Action ApprovalResponse
fail_approval transaction allowance error = do
  Transactions.mark_failed transaction.transaction_id
      (some ((MetaKey.error, message error) ∷ amount_meta MetaKey.allowance_before allowance ∷ []))
  raise error

unfoldable pub send_approval :
    Env → ℕ → ProtocolVault → Wallet → DepositDto → ℕ → Action ApprovalResponse
unfolding settle_approval fail_approval
send_approval env user_id vault wallet dto allowance = do
  transaction ←
      create_approval user_id vault wallet dto (amount_meta MetaKey.allowance_before allowance ∷ [])
  log_audit user_id AuditAction.approval_requested transaction.transaction_id
      ((MetaKey.vault_id, text vault.vault_id) ∷ amount_meta MetaKey.amount dto.amount ∷ [])
  catch (settle_approval env user_id vault wallet dto allowance transaction)
      (fail_approval transaction allowance)

unfoldable pub approve_vault : Env → ℕ → ℕ → DepositDto → Action ApprovalResponse
unfolding skip_approval send_approval
approve_vault env user_id vault_id dto = do
  vault ← lift (env.get_vault vault_id none)
  check_deposit_vault env.config vault
  wallet ← check_wallet user_id dto.wallet_id vault
  raise_if (is_native vault.asset_address) native_needs_no_approval
  allowance ← read_erc20_allowance env before vault wallet.address
  if ltb allowance dto.amount
      then send_approval env user_id vault wallet dto allowance
      else skip_approval user_id vault wallet dto allowance
