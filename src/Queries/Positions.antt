-- ===== src/Queries/Positions.antt =====
-- earn/services/earn-positions.service.ts: positions as a client sees them, with the value that their
-- vault's share price gives them.
use earn_defi_nestjs_backend.Base.{ℕ, ◌==◌, not, Option, none, some, List, map, String, ℤ}
use earn_defi_nestjs_backend.Schema.Status.{PositionStatus}
use earn_defi_nestjs_backend.Schema.Rows.{Position, Vault}
use earn_defi_nestjs_backend.Schema.Chain.{ProtocolVault}
use earn_defi_nestjs_backend.Monad.{
  Result, ok, err, Action, pure, lift, or_raise, raise_if, ◌>>=◌, ◌>>◌, position_not_found,
}
use earn_defi_nestjs_backend.Env.{Env}
use earn_defi_nestjs_backend.Positions.Service as Positions
use earn_defi_nestjs_backend.Positions.Filters.{PositionFilters, find_by_user_with_filters}
use earn_defi_nestjs_backend.Transactions.Service.{TransactionRecord}
use earn_defi_nestjs_backend.Transactions.Service as Transactions
use earn_defi_nestjs_backend.Protocols.Reads.{all_of}
use earn_defi_nestjs_backend.Protocols.Viem.{Viem}
use earn_defi_nestjs_backend.Queries.Value.{compute_current_value}
use earn_defi_nestjs_backend.Queries.Transactions.{TransactionResponse, map_transactions}

pub record PositionResponse : Type 0 where
  pub position_id : ℕ
  pub vault_id : ℕ
  pub vault_name : String
  pub chain_id : ℕ
  pub asset_symbol : String
  pub asset_decimals : ℕ
  pub status : PositionStatus
  pub deposited_amount : ℤ
  pub current_amount : ℤ
  pub shares : ℤ
  pub share_price : String
  pub current_value : ℤ
  pub created_at : ℕ
  pub updated_at : ℕ

-- The response, once the vault is at hand.
abbrev pub with_price : Viem → Position × Vault → ProtocolVault → PositionResponse
with_price viem (p, v) protocol_vault = record {
  position_id = p.id;
  vault_id = v.slug;
  vault_name = v.name;
  chain_id = v.chain_id;
  asset_symbol = v.asset_symbol;
  asset_decimals = v.asset_decimals;
  status = p.status;
  deposited_amount = p.deposited_amount;
  current_amount = p.current_amount;
  shares = p.shares;
  share_price = protocol_vault.share_price;
  current_value =
      compute_current_value viem p.shares protocol_vault.share_price v.asset_decimals
        v.asset_decimals;
  created_at = p.created_at;
  updated_at = p.updated_at;
}

unfoldable pub to_response : Env → Viem → Position × Vault → Result PositionResponse
to_response env viem (p, v) = elim (env.get_vault v.slug (some v.chain_id)) [
  | err e ↦ err e
  | ok protocol_vault ↦ ok (with_price viem (p, v) protocol_vault)
]

unfoldable pub list_positions : Env → Viem → PositionFilters → Action (List PositionResponse)
unfolding to_response
list_positions env viem filters = do
  positions ← find_by_user_with_filters filters
  lift (all_of (to_response env viem) positions)

abbrev pub slug_or : ℕ → Option ℕ → Option ℕ
slug_or slug none = some slug
slug_or slug (some s) = some s

pub record PositionDetailResponse : Type 0 where
  pub position : PositionResponse
  pub transactions : List TransactionResponse

unfoldable pub get_position : Env → Viem → ℕ → ℕ → Action PositionDetailResponse
unfolding to_response map_transactions
get_position env viem user_id position_id = do
  found ← Positions.find_by_id_with_vault position_id
  (p, v) ← or_raise found position_not_found
  raise_if (not (p.user_id == user_id)) position_not_found
  base ← lift (to_response env viem (p, v))
  transactions ← Transactions.find_by_position_id position_id
  pure (record {
    position = base;
    transactions = map_transactions env.config (
        map (λ (t : TransactionRecord). record t { vault_slug = slug_or v.slug t.vault_slug })
          transactions);
  })
