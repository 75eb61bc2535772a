-- ===== src/Protocols/Viem.antt =====
-- protocols/aave/aave-viem.service.ts: the reserve of a vault, read from the chain through viem, which
-- is a parameter.
use Prim.Native.String.{◌++◌}
use earn_defi_nestjs_backend.Base.{
  ℕ, ◌*◌, ◌/◌, ◌^◌, ◌==◌, ◌≡◌, if◌then◌else◌, List, String, find_first, to_string, to_fixed4,
}
use earn_defi_nestjs_backend.Schema.Chain.{AssetAddress, ChainDefinition}
use earn_defi_nestjs_backend.Monad.{Result, ok, external}
use earn_defi_nestjs_backend.Protocols.Reads.{◌>>=◌, or_throw, or_default}

-- The contract reads of a public client, by chain and address, and viem's conversions of units: a
-- number that was formatted with some decimals is parsed back with these.
pub record Viem : Type 0 where
  -- Chain, pool and asset; `liquidityIndex` and `currentLiquidityRate`.
  pub get_reserve_data : ℕ → ℕ → AssetAddress → Result (ℕ × ℕ)
  pub total_supply : ℕ → ℕ → Result ℕ
  pub symbol : ℕ → ℕ → Result String
  pub balance_of : ℕ → ℕ → ℕ → Result ℕ
  pub format_units : ℕ → ℕ → String
  pub parse_units : String → ℕ → ℕ
  pub parse_units-format_units :
      (n decimals : ℕ) → parse_units (format_units n decimals) decimals ≡ n

pub record OnChainReserveData : Type 0 where
  pub name : String
  pub symbol : String
  pub apy : String
  pub tvl : String
  pub share_price : String
  pub total_supply : ℕ
  pub liquidity_index : ℕ

abbrev pub ray : ℕ
ray = 10 ^ 27

-- The double of a rate that fits in 53 bits is exact to the four places.
unfoldable pub format_supply_apy : ℕ → String
format_supply_apy liquidity_rate =
    if liquidity_rate == 0 then "0" else to_fixed4 (liquidity_rate * 1000000 / ray)

unfoldable pub read_token_symbol : Viem → ℕ → ℕ → String
read_token_symbol viem chain_id token = or_default (viem.symbol chain_id token) "aToken"

-- `createClient` needs the chain to be configured.
unfoldable pub get_chain_definition : List ChainDefinition → ℕ → Result ChainDefinition
get_chain_definition chains chain_id =
    or_throw (find_first (λ (c : ChainDefinition). c.chain_id == chain_id) chains) (external 21)

unfoldable pub read_reserve_data :
    Viem → List ChainDefinition → ℕ → ℕ → AssetAddress → ℕ → String → Result OnChainReserveData
unfolding format_supply_apy read_token_symbol get_chain_definition
read_reserve_data viem chains chain_id pool asset a_token asset_symbol = do
  chain ← get_chain_definition chains chain_id
  (liquidity_index, liquidity_rate) ← viem.get_reserve_data chain.chain_id pool asset
  total_supply ← viem.total_supply chain.chain_id a_token
  ok (record {
    name = "Aave V3 " ++ asset_symbol;
    symbol = read_token_symbol viem chain.chain_id a_token;
    apy = format_supply_apy liquidity_rate;
    tvl = to_string total_supply;
    share_price = viem.format_units liquidity_index 27;
    total_supply = total_supply;
    liquidity_index = liquidity_index;
  })

-- `previewDeposit` and `previewWithdraw`: a share for each unit.
unfoldable pub preview :
    Viem → List ChainDefinition → ℕ → ℕ → AssetAddress → ℕ → ℕ → Result (ℕ × String)
unfolding read_reserve_data
preview viem chains chain_id pool asset a_token asset_amount = do
  on_chain ← read_reserve_data viem chains chain_id pool asset a_token "ASSET"
  ok (asset_amount, on_chain.share_price)

unfoldable pub read_a_token_balance : Viem → List ChainDefinition → ℕ → ℕ → ℕ → Result ℕ
unfolding get_chain_definition
read_a_token_balance viem chains chain_id a_token wallet_address = do
  chain ← get_chain_definition chains chain_id
  viem.balance_of chain.chain_id a_token wallet_address
