-- ===== src/Tests/Protocols.antt =====
-- The Aave provider over three configured vaults, one of them disabled.
use Prim.Native.String.{String}
use earn_defi_nestjs_backend.Base.{
  ℕ, zero, suc, ◌*◌, ◌^◌, ◌≡◌, refl, ap, Bool, true, false, none, some, [], ◌∷◌, find_first,
  find_many, to_string, to_fixed4, eq_text,
}
use earn_defi_nestjs_backend.Schema.Chain.{ProtocolVault, token, medium}
use earn_defi_nestjs_backend.Monad.{ok, err, external, vault_not_found}
use earn_defi_nestjs_backend.Protocols.Reads.{or_throw, all_of}
use earn_defi_nestjs_backend.Protocols.Viem.{Viem, read_reserve_data, format_supply_apy}
use earn_defi_nestjs_backend.Protocols.Aave.{
  VaultDefinition, AssetDefinition, Provider, get_vaults, get_vault,
}
use earn_defi_nestjs_backend.Protocols.Listing.{on_chain, has_vault_id, get_vault-get_vaults}
use earn_defi_nestjs_backend.Tests.Data.{base_sepolia}

-- A text with as many characters as the number counts.
abbrev pub tally : ℕ → String
tally zero = String.[]
tally (suc n) = String.◌∷◌ "1" (tally n)

abbrev pub count_tally : String → ℕ
count_tally String.[] = 0
count_tally (String.◌∷◌ c s) = suc (count_tally s)

pub count_tally-tally : (n : ℕ) → count_tally (tally n) ≡ n
count_tally-tally zero = refl
count_tally-tally (suc n) = ap suc (count_tally-tally n)

abbrev pub viem : Viem
viem = record {
  get_reserve_data = λ chain_id pool asset. ok (3, 0);
  total_supply = λ chain_id token. ok 5000;
  symbol = λ chain_id token. err (external 9);
  balance_of = λ chain_id token wallet. ok 0;
  format_units = λ n decimals. tally n;
  parse_units = λ s decimals. count_tally s;
  parse_units-format_units = λ n decimals. count_tally-tally n;
}

abbrev definition : ℕ → Bool → VaultDefinition
definition vault_id enabled = record {
  vault_id = vault_id;
  chain_id = 84532;
  pool_address = 70;
  a_token_address = 71;
  asset_symbol = "usdc";
  asset_address = token 72;
  is_enabled = enabled;
  risk_level = none;
  deposit_enabled = some false;
  withdraw_enabled = none;
}

abbrev usdc : AssetDefinition
usdc = record {
  symbol = "USDC";
  name = "USD Coin";
  chain_id = 84532;
  contract_address = 72;
  decimals = 6;
  is_enabled = true;
}

abbrev pub provider : Provider
provider = record {
  viem = viem;
  chains = base_sepolia ∷ [];
  assets = usdc ∷ [];
  vaults = definition 5 false ∷ definition 6 true ∷ definition 7 true ∷ [];
}

abbrev built : ℕ → ProtocolVault
built vault_id = record {
  vault_id = vault_id;
  chain_id = 84532;
  contract_address = 70;
  share_token_address = 71;
  name = "Aave V3 usdc";
  symbol = "aToken";
  asset_symbol = "usdc";
  asset_decimals = 6;
  asset_address = token 72;
  apy = "0";
  tvl = "5000";
  share_price = tally 3;
  total_supply = "5000";
  is_enabled = true;
  deposit_enabled = false;
  withdraw_enabled = true;
  description = "Supply usdc to Aave V3 on chain 84532";
  risk_level = medium;
}

listing : get_vaults provider (on_chain (some 84532)) ≡ ok (built 6 ∷ built 7 ∷ [])
unfolding get_vaults find_first find_many eq_text read_reserve_data all_of to_string
listing = refl

get_vault-get_vaults_example :
    get_vault provider 7 (some 84532)
    ≡ or_throw (find_first (has_vault_id 7) (built 6 ∷ built 7 ∷ [])) vault_not_found
get_vault-get_vaults_example =
    get_vault-get_vaults provider 7 (some 84532) (built 6 ∷ built 7 ∷ []) listing

-- A rate of 3.5 per cent in ray.
apy_text : format_supply_apy (35 * 10 ^ 24) ≡ "3.5000"
unfolding format_supply_apy to_fixed4
apy_text = refl
