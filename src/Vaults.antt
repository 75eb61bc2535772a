-- ===== src/Vaults.antt =====
-- earn/repositories/earn-vault.repository.ts: the vault rows, upserted by slug.
use earn_defi_nestjs_backend.Base.{ℕ, suc, ◌==◌, Bool, none, some, ◌∷◌, find_first, update_where}
use earn_defi_nestjs_backend.Schema.Rows.{Vault}
use earn_defi_nestjs_backend.Schema.Chain.{ProtocolVault}
use earn_defi_nestjs_backend.Monad.{ok, Action}

abbrev pub has_slug : ℕ → Vault → Bool
has_slug slug v = v.slug == slug

-- `create`
abbrev pub new_vault : ProtocolVault → ℕ → Vault
new_vault p id = record {
  id = id;
  slug = p.vault_id;
  name = p.name;
  chain_id = p.chain_id;
  contract_address = p.contract_address;
  asset_symbol = p.asset_symbol;
  asset_decimals = p.asset_decimals;
  apy = p.apy;
  is_enabled = p.is_enabled;
}

-- `update`, which leaves the id, the slug and the chain as they are.
abbrev pub refresh_vault : ProtocolVault → Vault → Vault
refresh_vault p v = record v {
  name = p.name;
  contract_address = p.contract_address;
  asset_symbol = p.asset_symbol;
  asset_decimals = p.asset_decimals;
  apy = p.apy;
  is_enabled = p.is_enabled;
}

unfoldable pub find_or_create : ProtocolVault → Action Vault
find_or_create p db = elim (find_first (has_slug p.vault_id) db.vaults) [
  | none ↦ (
    ok (new_vault p db.next_id),
    record db { vaults = new_vault p db.next_id ∷ db.vaults; next_id = suc db.next_id },
  )
  | some v ↦ (
    ok (refresh_vault p v),
    record db { vaults = update_where (has_slug p.vault_id) (refresh_vault p) db.vaults },
  )
]
