-- ===== src/Withdraw/Open.antt =====
-- earn/services/earn-withdraw.service.ts: a withdrawal, up to the Prisma transaction that opens it.
use earn_defi_nestjs_backend.Base.{
  ℕ, ◌==◌, if◌then◌else◌, Bool, not, Option, none, some, [], ◌∷◌, ℤ, pos, ltb_ℤ,
}
use earn_defi_nestjs_backend.Schema.Status.{
  PositionStatus, TransactionType, TransactionStatus, is_active,
}
use earn_defi_nestjs_backend.Schema.Rows.{
  Position, Vault, Wallet, Metadata, MetaKey, number, text, flag,
}
use earn_defi_nestjs_backend.Schema.Chain.{ProtocolVault}
use earn_defi_nestjs_backend.Monad.{
  Action, pure, lift, or_raise, atomic, ◌>>=◌, ◌>>◌, raise_if, position_not_found,
  position_not_active, insufficient_position_balance, withdraw_in_progress, amount_required,
}
use earn_defi_nestjs_backend.Env.{Env}
use earn_defi_nestjs_backend.Validation.{check_withdraw_vault, check_wallet}
use earn_defi_nestjs_backend.RateLimit.{assert_withdraw_allowed}
use earn_defi_nestjs_backend.Blockchain.{read_vault_share_balance, preview_withdraw_shares}
use earn_defi_nestjs_backend.Positions.Service.{PositionRecord}
use earn_defi_nestjs_backend.Positions.Service as Positions
use earn_defi_nestjs_backend.Transactions.Repository.{CreateTransactionInput}
use earn_defi_nestjs_backend.Transactions.Service.{TransactionRecord}
use earn_defi_nestjs_backend.Transactions.Service as Transactions

-- `fullWithdraw` is compared with `true`, so a missing field is `false`.
pub record WithdrawDto : Type 0 where
  pub wallet_id : ℕ
  pub amount : Option ℕ
  pub full_withdraw : Bool

-- What the checks and the reads of `withdrawPosition` establish.
pub record Plan : Type 0 where
  pub position : Position
  pub db_vault : Vault
  pub vault : ProtocolVault
  pub wallet : Wallet
  pub withdraw_amount : ℤ
  pub shares_to_burn : ℤ
  pub on_chain_shares : ℤ

pub record WithdrawResponse : Type 0 where
  pub position_id : ℕ
  pub vault_id : ℕ
  pub chain_id : ℕ
  pub wallet_id : ℕ
  pub amount : ℤ
  pub full_withdraw : Bool
  pub shares_burned : ℤ
  pub position_status : PositionStatus
  pub remaining_amount : ℤ
  pub remaining_shares : ℤ
  pub transaction_id : ℕ
  pub status : TransactionStatus
  pub tx_hash : Option ℕ
  pub block_number : Option ℕ

-- `!position || position.userId !== userId`
abbrev pub owned_position : ℕ → Option (Position × Vault) → Option (Position × Vault)
owned_position user_id none = none
owned_position user_id (some (p, v)) = if p.user_id == user_id then some (p, v) else none

abbrev pub resolve_withdraw_amount : Position → WithdrawDto → Action ℤ
resolve_withdraw_amount position dto =
    if dto.full_withdraw
    then pure position.current_amount
    else (do amount ← or_raise dto.amount amount_required; pure (pos amount))

-- The rate limit, the checks, the reads, and the amount and the shares of the withdrawal.
unfoldable pub plan_withdraw : Env → ℕ → ℕ → WithdrawDto → Action Plan
plan_withdraw env user_id position_id dto = do
  assert_withdraw_allowed env.config user_id
  found ← Positions.find_by_id_with_vault position_id
  (position, db_vault) ← or_raise (owned_position user_id found) position_not_found
  raise_if (not (is_active position.status)) position_not_active
  vault ← lift (env.get_vault db_vault.slug (some db_vault.chain_id))
  check_withdraw_vault env.config vault
  wallet ← check_wallet user_id dto.wallet_id vault
  on_chain_shares ← read_vault_share_balance env vault wallet.address
  withdraw_amount ← resolve_withdraw_amount position dto
  raise_if (ltb_ℤ position.current_amount withdraw_amount) insufficient_position_balance
  let shares_to_burn =
      if dto.full_withdraw then position.shares else preview_withdraw_shares vault withdraw_amount
  raise_if (ltb_ℤ position.shares shares_to_burn) insufficient_position_balance
  raise_if (ltb_ℤ (pos on_chain_shares) shares_to_burn) insufficient_position_balance
  pure (record {
    position = position;
    db_vault = db_vault;
    vault = vault;
    wallet = wallet;
    withdraw_amount = withdraw_amount;
    shares_to_burn = shares_to_burn;
    on_chain_shares = pos on_chain_shares;
  })

abbrev pub withdraw_metadata : Plan → WithdrawDto → Metadata
withdraw_metadata plan dto =
    (MetaKey.protocol_vault_id, text plan.vault.vault_id)
    ∷ (MetaKey.shares_burned, number plan.shares_to_burn)
    ∷ (MetaKey.full_withdraw, flag dto.full_withdraw)
    ∷ (MetaKey.on_chain_shares, number plan.on_chain_shares)
    ∷ []

abbrev pub withdraw_input : ℕ → Plan → WithdrawDto → CreateTransactionInput
withdraw_input user_id plan dto = record {
  user_id = user_id;
  wallet_id = plan.wallet.id;
  chain_id = plan.vault.chain_id;
  type = TransactionType.withdraw;
  amount = plan.withdraw_amount;
  vault_id = some plan.position.vault_id;
  position_id = some plan.position.id;
  metadata = some (withdraw_metadata plan dto);
}

-- The first Prisma transaction: no other withdrawal is open, the position is taken, and the
-- withdrawal is recorded.
unfoldable pub open_withdraw : ℕ → ℕ → Plan → WithdrawDto → Action TransactionRecord
open_withdraw user_id position_id plan dto = atomic do
  open_withdraw ← Transactions.has_open_withdraw position_id
  raise_if open_withdraw withdraw_in_progress
  Positions.mark_withdrawing plan.position.id
  Transactions.create_transaction (withdraw_input user_id plan dto)
