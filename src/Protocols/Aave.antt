-- ===== src/Protocols/Aave.antt =====
-- protocols/aave/aave.provider.ts: which configured vaults there are, and what they look like on the
-- chain.
use Prim.Native.String.{◌++◌}
use text.Mathlib.Text.{◌==◌ as ◌str_eq◌}
use earn_defi_nestjs_backend.Base.{
  ℕ, ◌==◌, Bool, true, false, not, ◌&&◌, Option, none, some, List, [], String, find_first,
  find_many, to_string, same_symbol,
}
use earn_defi_nestjs_backend.Schema.Chain.{
  AssetAddress, ChainDefinition, ProtocolVault, RiskLevel, medium,
}
use earn_defi_nestjs_backend.Monad.{Result, ok, vault_not_found, external}
use earn_defi_nestjs_backend.Protocols.Reads.{◌>>=◌, or_throw, all_of}
use earn_defi_nestjs_backend.Protocols.Viem.{Viem, read_reserve_data, preview}

-- `AaveVaultDefinition` and `AssetDefinition` of config.types.ts.
pub record VaultDefinition : Type 0 where
  pub vault_id : ℕ
  pub chain_id : ℕ
  pub pool_address : ℕ
  pub a_token_address : ℕ
  pub asset_symbol : String
  pub asset_address : AssetAddress
  pub is_enabled : Bool
  pub risk_level : Option RiskLevel
  pub deposit_enabled : Option Bool
  pub withdraw_enabled : Option Bool

pub record AssetDefinition : Type 0 where
  pub symbol : String
  pub name : String
  pub chain_id : ℕ
  pub contract_address : ℕ
  pub decimals : ℕ
  pub is_enabled : Bool

-- What the provider is built from.
pub record Provider : Type 0 where
  pub viem : Viem
  pub chains : List ChainDefinition
  pub assets : List AssetDefinition
  pub vaults : List VaultDefinition

pub record GetVaultsInput : Type 0 where
  pub chain_id : Option ℕ
  pub asset_symbol : Option String
  pub protocol : Option String

abbrev pub is_asset_of : VaultDefinition → AssetDefinition → Bool
is_asset_of vault asset =
    asset.chain_id == vault.chain_id
    && same_symbol asset.symbol vault.asset_symbol
    && asset.is_enabled

unfoldable pub resolve_asset_decimals : Provider → VaultDefinition → Result ℕ
resolve_asset_decimals provider vault = do
  asset ← or_throw (find_first (is_asset_of vault) provider.assets) (external 20)
  ok asset.decimals

-- `a ?? b`
abbrev pub given_or : {A : Type 0} → Option A → A → A
given_or none d = d
given_or (some a) d = a

unfoldable pub build_vault : Provider → VaultDefinition → Result ProtocolVault
unfolding resolve_asset_decimals
build_vault provider vault = do
  decimals ← resolve_asset_decimals provider vault
  on_chain ←
      read_reserve_data provider.viem provider.chains vault.chain_id vault.pool_address
        vault.asset_address vault.a_token_address vault.asset_symbol
  ok (record {
    vault_id = vault.vault_id;
    chain_id = vault.chain_id;
    contract_address = vault.pool_address;
    share_token_address = vault.a_token_address;
    name = on_chain.name;
    symbol = on_chain.symbol;
    asset_symbol = vault.asset_symbol;
    asset_decimals = decimals;
    asset_address = vault.asset_address;
    apy = on_chain.apy;
    tvl = on_chain.tvl;
    share_price = on_chain.share_price;
    total_supply = to_string on_chain.total_supply;
    is_enabled = vault.is_enabled;
    deposit_enabled = given_or vault.deposit_enabled vault.is_enabled;
    withdraw_enabled = given_or vault.withdraw_enabled vault.is_enabled;
    description =
        "Supply " ++ vault.asset_symbol ++ " to Aave V3 on chain " ++ to_string vault.chain_id;
    risk_level = given_or vault.risk_level medium;
  })

abbrev pub fits_chain : Option ℕ → ℕ → Bool
fits_chain none chain_id = true
fits_chain (some c) chain_id = chain_id == c

-- An empty symbol is as good as none.
abbrev pub fits_symbol : Option String → String → Bool
fits_symbol none symbol = true
fits_symbol (some String.[]) symbol = true
fits_symbol (some (String.◌∷◌ c s)) symbol = same_symbol symbol (String.◌∷◌ c s)

abbrev pub is_listed : GetVaultsInput → VaultDefinition → Bool
is_listed input vault =
    vault.is_enabled
    && fits_chain input.chain_id vault.chain_id
    && fits_symbol input.asset_symbol vault.asset_symbol

unfoldable pub get_enabled_vault_definitions : Provider → GetVaultsInput → List VaultDefinition
get_enabled_vault_definitions provider input = find_many (is_listed input) provider.vaults

-- `input.protocol && input.protocol !== 'aave'`
abbrev pub is_other_protocol : Option String → Bool
is_other_protocol none = false
is_other_protocol (some String.[]) = false
is_other_protocol (some (String.◌∷◌ c s)) = not (String.◌∷◌ c s str_eq "aave")

unfoldable pub get_vaults : Provider → GetVaultsInput → Result (List ProtocolVault)
unfolding get_enabled_vault_definitions build_vault
get_vaults provider input = elim (is_other_protocol input.protocol) [
  | true ↦ ok []
  | false ↦ all_of (build_vault provider) (get_enabled_vault_definitions provider input)
]

abbrev pub is_definition : ℕ → Option ℕ → VaultDefinition → Bool
is_definition vault_id chain_id vault =
    vault.vault_id == vault_id && vault.is_enabled && fits_chain chain_id vault.chain_id

unfoldable pub find_vault_definition : Provider → ℕ → Option ℕ → Option VaultDefinition
find_vault_definition provider vault_id chain_id =
    find_first (is_definition vault_id chain_id) provider.vaults

unfoldable pub get_vault : Provider → ℕ → Option ℕ → Result ProtocolVault
unfolding find_vault_definition build_vault
get_vault provider vault_id chain_id = do
  vault ← or_throw (find_vault_definition provider vault_id chain_id) vault_not_found
  build_vault provider vault

pub record PreviewResult : Type 0 where
  pub vault_id : ℕ
  pub chain_id : ℕ
  pub asset_amount : ℕ
  pub shares : ℕ
  pub share_price : String

unfoldable pub require_vault_definition : Provider → ℕ → ℕ → Result VaultDefinition
unfolding find_vault_definition
require_vault_definition provider vault_id chain_id =
    or_throw (find_vault_definition provider vault_id (some chain_id)) vault_not_found

-- `previewDeposit` and `previewWithdraw`, which are the same but for the names.
unfoldable pub preview_units : Provider → ℕ → ℕ → ℕ → Result PreviewResult
unfolding require_vault_definition resolve_asset_decimals
preview_units provider vault_id chain_id asset_amount = do
  vault ← require_vault_definition provider vault_id chain_id
  decimals ← resolve_asset_decimals provider vault
  (shares, share_price) ←
      preview provider.viem provider.chains vault.chain_id vault.pool_address vault.asset_address
        vault.a_token_address asset_amount
  ok (record {
    vault_id = vault.vault_id;
    chain_id = vault.chain_id;
    asset_amount = asset_amount;
    shares = shares;
    share_price = share_price;
  })
