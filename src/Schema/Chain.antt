-- ===== src/Schema/Chain.antt =====
-- The configuration that the services read (config/config.types.ts) and the values that pass
-- between them and the chain (protocols/earn-protocol.types.ts).
use earn_defi_nestjs_backend.Base.{ℕ, Bool, Option, List, String, Text, ℤ}

pub record ChainDefinition : Type 0 where
  pub chain_id : ℕ
  pub is_testnet : Bool
  pub is_enabled : Bool
  pub rpc_url : String
  pub explorer_url : Option Text

pub record Config : Type 0 where
  pub default_chain_id : ℕ
  pub allow_mainnet_transactions : Bool
  pub chains : List ChainDefinition
  pub max_deposits_per_minute : ℕ
  pub max_withdrawals_per_minute : ℕ
  pub idempotency_ttl_hours : ℕ

-- `assetAddress` is the string `'native'` or the address of a token.
pub data AssetAddress : Type 0 where
  native : AssetAddress
  token : ℕ → AssetAddress

pub data RiskLevel : Type 0 where
  low medium high : RiskLevel

pub record ProtocolVault : Type 0 where
  pub vault_id : ℕ
  pub chain_id : ℕ
  pub contract_address : ℕ
  pub share_token_address : ℕ
  pub name : String
  pub symbol : String
  pub asset_symbol : String
  pub asset_decimals : ℕ
  pub asset_address : AssetAddress
  pub apy : String
  pub tvl : String
  pub share_price : String
  pub total_supply : String
  pub is_enabled : Bool
  pub deposit_enabled : Bool
  pub withdraw_enabled : Bool
  pub description : String
  pub risk_level : RiskLevel

-- A contract call before `encodeFunctionData` turns it into calldata.
pub data Call : Type 0 where
  supply : AssetAddress → ℤ → ℕ → ℕ → Call
  withdraw : AssetAddress → ℤ → ℕ → Call
  approve : ℕ → ℤ → Call

pub record SendTransactionInput : Type 0 where
  pub provider_wallet_id : ℕ
  pub chain_id : ℕ
  pub to : AssetAddress
  pub value : ℕ
  pub calldata : ℕ

pub record BroadcastTransaction : Type 0 where
  pub hash : ℕ
  pub transaction_id : Option ℕ

pub record Receipt : Type 0 where
  pub success : Bool
  pub block_number : ℕ
  pub gas_used : ℕ
