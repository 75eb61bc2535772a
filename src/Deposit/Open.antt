-- ===== src/Deposit/Open.antt =====
-- earn/services/earn-deposit.service.ts: a deposit, up to the Prisma transaction that opens it.
use earn_defi_nestjs_backend.Base.{
  ℕ, ltb, if◌then◌else◌, Bool, true, false, Option, none, some, [], ◌∷◌, ℤ, pos,
}
use earn_defi_nestjs_backend.Schema.Status.{
  PositionStatus, TransactionType, TransactionStatus, is_pending,
}
use earn_defi_nestjs_backend.Schema.Rows.{Wallet, Metadata, MetaKey, MetaValue, number, text}
use earn_defi_nestjs_backend.Schema.Chain.{ProtocolVault}
use earn_defi_nestjs_backend.Monad.{
  Action, pure, lift, atomic, ◌>>=◌, ◌>>◌, raise_if, insufficient_balance, insufficient_allowance,
  deposit_in_progress,
}
use earn_defi_nestjs_backend.Env.{Env, before}
use earn_defi_nestjs_backend.Validation.{check_deposit_vault, check_wallet}
use earn_defi_nestjs_backend.RateLimit.{assert_deposit_allowed}
use earn_defi_nestjs_backend.Blockchain.{
  is_native, read_asset_balance, read_erc20_allowance, preview_deposit_shares,
}
use earn_defi_nestjs_backend.Positions.Service.{PositionRecord}
use earn_defi_nestjs_backend.Positions.Service as Positions
use earn_defi_nestjs_backend.Transactions.Repository.{CreateTransactionInput}
use earn_defi_nestjs_backend.Transactions.Service.{TransactionRecord}
use earn_defi_nestjs_backend.Transactions.Service as Transactions

pub record DepositDto : Type 0 where
  pub wallet_id : ℕ
  pub amount : ℕ

-- What the checks and the reads of `depositVault` establish.
pub record Quote : Type 0 where
  pub vault : ProtocolVault
  pub wallet : Wallet
  pub wallet_balance : ℕ
  pub allowance : ℕ
  pub estimated_shares : ℕ

-- What the Prisma transaction returns.
pub record Opened : Type 0 where
  pub position : PositionRecord
  pub transaction : TransactionRecord
  pub is_new_position : Bool

pub record DepositResponse : Type 0 where
  pub vault_id : ℕ
  pub chain_id : ℕ
  pub wallet_id : ℕ
  pub amount : ℕ
  pub wallet_balance : ℕ
  pub allowance : ℕ
  pub position_id : ℕ
  pub position_status : PositionStatus
  pub deposited_amount : ℤ
  pub shares : ℤ
  pub transaction_id : ℕ
  pub status : TransactionStatus
  pub tx_hash : Option ℕ
  pub block_number : Option ℕ

abbrev pub amount_meta : MetaKey → ℕ → MetaKey × MetaValue
amount_meta key n = (key, number (pos n))

-- A field that is `undefined` is left out of the JSON object.
abbrev pub optional_meta : MetaKey → Option ℕ → Metadata → Metadata
optional_meta key none rest = rest
optional_meta key (some n) rest = (key, text n) ∷ rest

-- The rate limit, the checks, and the reads of the chain.
unfoldable pub quote_deposit : Env → ℕ → ℕ → DepositDto → Action Quote
quote_deposit env user_id vault_id dto = do
  assert_deposit_allowed env.config user_id
  vault ← lift (env.get_vault vault_id none)
  check_deposit_vault env.config vault
  wallet ← check_wallet user_id dto.wallet_id vault
  wallet_balance ← read_asset_balance env vault wallet.address
  allowance ←
      if is_native vault.asset_address
      then pure dto.amount
      else read_erc20_allowance env before vault wallet.address
  raise_if (ltb wallet_balance dto.amount) insufficient_balance
  raise_if (ltb allowance dto.amount) insufficient_allowance
  pure (record {
    vault = vault;
    wallet = wallet;
    wallet_balance = wallet_balance;
    allowance = allowance;
    estimated_shares = preview_deposit_shares vault dto.amount;
  })

-- `existingPosition?.status === PositionStatus.PENDING`
abbrev pub is_pending_position : Option PositionRecord → Bool
is_pending_position none = false
is_pending_position (some p) = is_pending p.status

unfoldable pub assert_no_duplicate_deposit : ℕ → ℕ → Action (Unit {0})
assert_no_duplicate_deposit user_id vault_id = do
  existing ← Positions.find_by_user_and_vault user_id vault_id
  has_open_deposit ← Transactions.has_open_deposit user_id vault_id
  raise_if (is_pending_position existing) deposit_in_progress
  raise_if has_open_deposit deposit_in_progress

-- The position that the deposit is for, and whether it was created for it.
unfoldable pub position_for_deposit : ℕ → ℕ → Option PositionRecord → Action (PositionRecord × Bool)
position_for_deposit user_id vault_id (some position) = pure (position, false)
position_for_deposit user_id vault_id none = do
  position ← Positions.create_pending user_id vault_id
  pure (position, true)

abbrev pub deposit_metadata : Quote → Metadata
deposit_metadata quote =
    (MetaKey.protocol_vault_id, text quote.vault.vault_id)
    ∷ amount_meta MetaKey.estimated_shares quote.estimated_shares
    ∷ amount_meta MetaKey.wallet_balance quote.wallet_balance
    ∷ amount_meta MetaKey.allowance quote.allowance
    ∷ []

abbrev pub deposit_input : ℕ → ℕ → Quote → DepositDto → PositionRecord → CreateTransactionInput
deposit_input user_id vault_id quote dto position = record {
  user_id = user_id;
  wallet_id = quote.wallet.id;
  chain_id = quote.vault.chain_id;
  type = TransactionType.deposit;
  amount = pos dto.amount;
  vault_id = some vault_id;
  position_id = some position.position_id;
  metadata = some (deposit_metadata quote);
}

-- The first Prisma transaction: no other deposit is open, and this one is recorded.
unfoldable pub open_deposit : ℕ → ℕ → Quote → DepositDto → Action Opened
unfolding assert_no_duplicate_deposit position_for_deposit
open_deposit user_id vault_id quote dto = atomic do
  existing ← Positions.find_by_user_and_vault user_id vault_id
  raise_if (is_pending_position existing) deposit_in_progress
  has_open_deposit ← Transactions.has_open_deposit user_id vault_id
  raise_if has_open_deposit deposit_in_progress
  (position, is_new) ← position_for_deposit user_id vault_id existing
  transaction ← Transactions.create_transaction (deposit_input user_id vault_id quote dto position)
  pure (record { position = position; transaction = transaction; is_new_position = is_new })
