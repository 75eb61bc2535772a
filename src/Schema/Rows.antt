-- ===== src/Schema/Rows.antt =====
-- The tables of prisma/schema.prisma, row by row.
use earn_defi_nestjs_backend.Base.{ℕ, Bool, Option, List, String, Text, ℤ}
use earn_defi_nestjs_backend.Schema.Status.{
  PositionStatus, TransactionType, TransactionStatus, AuditAction, WalletType,
}

-- A field of a `metadata` object, and what the services store there: the decimal string of a
-- number, an identifier, a Boolean, or a text as it is.
pub data MetaKey : Type 0 where
  protocol_vault_id estimated_shares wallet_balance allowance shares_burned full_withdraw : MetaKey
  on_chain_shares privy_transaction_id gas_used reconciled error reason skipped : MetaKey
  asset_address spender_address allowance_before requires_approval vault_id wallet_id : MetaKey
  amount position_id tx_hash type address chain_id provider_type email : MetaKey

pub data MetaValue : Type 0 where
  number : ℤ → MetaValue
  text : ℕ → MetaValue
  flag : Bool → MetaValue
  words : Text → MetaValue
  absent : MetaValue

abbrev pub Metadata : Type 0
Metadata = List (MetaKey × MetaValue)

pub record User : Type 0 where
  pub id : ℕ
  pub privy_user_id : Option ℕ
  pub email : Option Text
  pub password_hash : Option ℕ
  pub created_at : ℕ
  pub updated_at : ℕ

pub record Wallet : Type 0 where
  pub id : ℕ
  pub user_id : ℕ
  pub address : ℕ
  pub chain_id : ℕ
  pub wallet_type : WalletType
  pub provider_id : ℕ
  pub is_primary : Bool
  pub created_at : ℕ

pub record Vault : Type 0 where
  pub id : ℕ
  pub slug : ℕ
  pub name : String
  pub chain_id : ℕ
  pub contract_address : ℕ
  pub asset_symbol : String
  pub asset_decimals : ℕ
  pub apy : String
  pub is_enabled : Bool

pub record Position : Type 0 where
  pub id : ℕ
  pub user_id : ℕ
  pub vault_id : ℕ
  pub status : PositionStatus
  pub deposited_amount : ℤ
  pub current_amount : ℤ
  pub shares : ℤ
  pub created_at : ℕ
  pub updated_at : ℕ

pub record Transaction : Type 0 where
  pub id : ℕ
  pub user_id : ℕ
  pub wallet_id : Option ℕ
  pub vault_id : Option ℕ
  pub position_id : Option ℕ
  pub type : TransactionType
  pub status : TransactionStatus
  pub amount : ℤ
  pub tx_hash : Option ℕ
  pub chain_id : ℕ
  pub block_number : Option ℕ
  pub metadata : Option Metadata
  pub created_at : ℕ
  pub updated_at : ℕ

pub record IdempotencyKey : Type 0 where
  pub id : ℕ
  pub user_id : Option ℕ
  pub key : ℕ
  pub request_path : ℕ
  pub request_hash : ℕ
  pub response_data : Option ℕ
  pub status_code : Option ℕ
  pub expires_at : ℕ
  pub created_at : ℕ

pub record AuditEntry : Type 0 where
  pub user_id : ℕ
  pub action : AuditAction
  pub entity_id : ℕ
  pub metadata : Metadata

-- What the services share: the tables, the next identifier that the database hands out, the
-- clock in milliseconds, and the two things kept in Redis.
pub record Db : Type 0 where
  pub users : List User
  pub wallets : List Wallet
  pub vaults : List Vault
  pub positions : List Position
  pub transactions : List Transaction
  pub idempotency_keys : List IdempotencyKey
  pub audit : List AuditEntry
  pub next_id : ℕ
  pub now : ℕ
  -- `INCR` counters: action (0 deposit, 1 withdraw), user, window.
  pub counters : List ((ℕ × ℕ × ℕ) × ℕ)
  -- The holder of the reconciliation lock and the time at which the key expires.
  pub lock : Option (ℕ × ℕ)
