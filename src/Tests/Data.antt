-- ===== src/Tests/Data.antt =====
-- A wallet, a vault, a position and a chain for the runs.
use earn_defi_nestjs_backend.Base.{ℕ, true, false, none, some, List, [], ◌∷◌, pos}
use earn_defi_nestjs_backend.Schema.Status.{
  PositionStatus, TransactionType, TransactionStatus, WalletType,
}
use earn_defi_nestjs_backend.Schema.Rows.{Db, Wallet, Vault, Position, Transaction, MetaKey, number}
use earn_defi_nestjs_backend.Schema.Chain.{
  Config, ChainDefinition, token, ProtocolVault, Receipt, medium,
}
use earn_defi_nestjs_backend.Monad.{Result, ok, err, external}
use earn_defi_nestjs_backend.Env.{Env, Moment, before, after}
use earn_defi_nestjs_backend.Deposit.{DepositDto}
use earn_defi_nestjs_backend.Withdraw.{WithdrawDto}

abbrev pub base_sepolia : ChainDefinition
base_sepolia = record {
  chain_id = 84532;
  is_testnet = true;
  is_enabled = true;
  rpc_url = "https://sepolia.base.org";
  explorer_url = none;
}

abbrev pub config : Config
config = record {
  default_chain_id = 84532;
  allow_mainnet_transactions = false;
  chains = base_sepolia ∷ [];
  max_deposits_per_minute = 2;
  max_withdrawals_per_minute = 2;
  idempotency_ttl_hours = 24;
}

abbrev pub vault : ProtocolVault
vault = record {
  vault_id = 7;
  chain_id = 84532;
  contract_address = 70;
  share_token_address = 71;
  name = "Aave USDC";
  symbol = "aUSDC";
  asset_symbol = "USDC";
  asset_decimals = 6;
  asset_address = token 72;
  apy = "0";
  tvl = "0";
  share_price = "1";
  total_supply = "0";
  is_enabled = true;
  deposit_enabled = true;
  withdraw_enabled = true;
  description = "Supply USDC to Aave V3 on chain 84532";
  risk_level = medium;
}

abbrev pub wallet : Wallet
wallet = record {
  id = 3;
  user_id = 1;
  address = 30;
  chain_id = 84532;
  wallet_type = WalletType.embedded;
  provider_id = 31;
  is_primary = true;
  created_at = 0;
}

abbrev pub vault_row : Vault
vault_row = record {
  id = 10;
  slug = 7;
  name = "Aave USDC";
  chain_id = 84532;
  contract_address = 70;
  asset_symbol = "USDC";
  asset_decimals = 6;
  apy = "0";
  is_enabled = true;
}

abbrev pub position : PositionStatus → Position
position status = record {
  id = 20;
  user_id = 1;
  vault_id = 10;
  status = status;
  deposited_amount = pos 50;
  current_amount = pos 50;
  shares = pos 50;
  created_at = 0;
  updated_at = 0;
}

abbrev pub transaction : TransactionType → TransactionStatus → Transaction
transaction type status = record {
  id = 40;
  user_id = 1;
  wallet_id = some 3;
  vault_id = some 10;
  position_id = some 20;
  type = type;
  status = status;
  amount = pos 20;
  tx_hash = some 55;
  chain_id = 84532;
  block_number = none;
  metadata =
      some (
        (MetaKey.estimated_shares, number (pos 20))
        ∷ (MetaKey.shares_burned, number (pos 20))
        ∷ []);
  created_at = 0;
  updated_at = 0;
}

abbrev pub tables : List Position → List Transaction → Db
tables positions transactions = record {
  users = [];
  wallets = wallet ∷ [];
  vaults = vault_row ∷ [];
  positions = positions;
  transactions = transactions;
  idempotency_keys = [];
  audit = [];
  next_id = 100;
  now = 1000000;
  counters = [];
  lock = none;
}

abbrev pub receipt : Receipt
receipt = record { success = true; block_number = 9; gas_used = 21000 }

-- A chain on which every call succeeds, and no other request.
abbrev pub env : Env
env = record {
  config = config;
  get_vault = λ vault_id chain_id. ok vault;
  asset_balance = λ chain_id asset address. ok 1000;
  allowance = λ moment chain_id asset owner spender. ok 1000;
  share_balance = λ chain_id share_token address. ok 1000;
  encode_function_data = λ call. ok 99;
  send_transaction = λ input. ok (record { hash = 55; transaction_id = some 8 });
  wait_for_receipt = λ chain_id hash. ok receipt;
  get_receipt = λ attempt chain_id hash. ok receipt;
  others = λ point db. db;
}

-- A chain on which no receipt comes, and one on which the allowance cannot be read again.
abbrev pub slow_env : Env
slow_env = record env { wait_for_receipt = λ chain_id hash. err (external 1) }

abbrev pub allowance_once : Moment → Result ℕ
allowance_once before = ok 0
allowance_once after = err (external 2)

abbrev pub unread_env : Env
unread_env = record env { allowance = λ moment chain_id asset owner spender. allowance_once moment }

abbrev pub deposit_dto : DepositDto
deposit_dto = record { wallet_id = 3; amount = 40 }

abbrev pub withdraw_dto : WithdrawDto
withdraw_dto = record { wallet_id = 3; amount = some 30; full_withdraw = false }
