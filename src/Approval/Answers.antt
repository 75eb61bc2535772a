-- ===== src/Approval/Answers.antt =====
-- earn/services/earn-approval.service.ts: what an approval answers, skipped and sent.
use earn_defi_nestjs_backend.Base.{
  ℕ, ◌<◌, ◌≡◌, ltb, if◌then◌else◌, false, none, some, pos, arith, find_first, update_where,
  count_where, ==_refl, Bool-cases, inl, inr,
}
use earn_defi_nestjs_backend.Schema.Status.{TransactionStatus}
use earn_defi_nestjs_backend.Schema.Rows.{Db, Wallet}
use earn_defi_nestjs_backend.Schema.Chain.{ProtocolVault, Receipt, BroadcastTransaction, Call}
use earn_defi_nestjs_backend.Monad.{ok, log_audit}
use earn_defi_nestjs_backend.Env.{Env, before, after}
use earn_defi_nestjs_backend.Validation.{check_deposit_vault, check_wallet}
use earn_defi_nestjs_backend.Blockchain.{is_native, encode_erc20_approve}
use earn_defi_nestjs_backend.Transactions.Repository as Repository
use earn_defi_nestjs_backend.Transactions.Service as Transactions
use earn_defi_nestjs_backend.Deposit.{DepositDto}
use earn_defi_nestjs_backend.Approval.{
  conclude_approval, settle_approval, send_approval, approve_vault,
}

-- An approval whose checks pass, for an amount above the allowance, that is broadcast and gets its
-- receipt while no other request writes, answers with a new transaction that has the hash of the
-- broadcast and the block of the receipt: CONFIRMED where the receipt is a success and REVERTED where
-- it is not; an approval is still needed exactly where the allowance that is read afterwards is below
-- the amount. The positions are left alone.
pub approve_vault_sent :
    (env : Env) (user_id vault_id : ℕ) (dto : DepositDto) (vault : ProtocolVault) (wallet : Wallet)
    (held calldata updated : ℕ) (broadcast : BroadcastTransaction) (receipt : Receipt) (db : Db)
    → env.get_vault vault_id none ≡ ok vault
    → check_deposit_vault env.config vault db ≡ (ok tt, db)
    → check_wallet user_id dto.wallet_id vault db ≡ (ok wallet, db)
    → is_native vault.asset_address ≡ false
    → env.allowance before vault.chain_id vault.asset_address wallet.address vault.contract_address
      ≡ ok held
    → held < dto.amount
    → env.others ≡ (λ point db'. db')
    → env.encode_function_data (Call.approve vault.contract_address (pos dto.amount)) ≡ ok calldata
    → env.send_transaction (record {
      provider_wallet_id = wallet.provider_id;
      chain_id = vault.chain_id;
      to = vault.asset_address;
      value = 0;
      calldata = calldata;
    })
      ≡ ok broadcast
    → env.wait_for_receipt vault.chain_id broadcast.hash ≡ ok receipt
    → env.allowance after vault.chain_id vault.asset_address wallet.address vault.contract_address
      ≡ ok updated
    → let (r, db') = approve_vault env user_id vault_id dto db in
      (r
        ≡ ok (record {
          vault_id = vault.vault_id;
          chain_id = vault.chain_id;
          wallet_id = dto.wallet_id;
          amount = dto.amount;
          allowance = updated;
          requires_approval = ltb updated dto.amount;
          status =
              if receipt.success then TransactionStatus.confirmed else TransactionStatus.reverted;
          transaction_id = db.next_id;
          tx_hash = some broadcast.hash;
          block_number = some receipt.block_number;
        }))
      × (db'.positions ≡ db.positions)
unfolding approve_vault send_approval settle_approval conclude_approval log_audit
    Transactions.create_transaction Transactions.mark_submitted Transactions.confirm_submitted
    Transactions.mark_reverted Repository.create Repository.update_status
    Repository.confirm_submitted find_first update_where count_where encode_erc20_approve
approve_vault_sent env user_id vault_id dto vault wallet held calldata updated broadcast receipt db
      listed passed found erc20 read short alone encodes sends mined reread =
    elim (Bool-cases receipt.success) [
      | inl success ↦ (ground (arith, ==_refl db.next_id), ground (arith, ==_refl db.next_id))
      | inr reverted ↦ (ground (arith, ==_refl db.next_id), ground (arith, ==_refl db.next_id))
    ]
