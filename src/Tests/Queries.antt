-- ===== src/Tests/Queries.antt =====
-- Listings and values at concrete rows.
use earn_defi_nestjs_backend.Base.{
  ℕ, ◌+◌, ◌*◌, ◌/◌, ◌≡◌, refl, none, some, [], ◌∷◌, pos, arith, find_first, find_many,
}
use earn_defi_nestjs_backend.Schema.Status.{PositionStatus}
use earn_defi_nestjs_backend.Schema.Rows.{Db, Position, Vault}
use earn_defi_nestjs_backend.Monad.{Error, ok, err, vault_not_found}
use earn_defi_nestjs_backend.Env.{Env}
use earn_defi_nestjs_backend.Positions.Filters.{PositionFilters, find_by_user_with_filters}
use earn_defi_nestjs_backend.Protocols.Viem.{ray}
use earn_defi_nestjs_backend.Protocols.Aave.{find_vault_definition, get_vault}
use earn_defi_nestjs_backend.Queries.Positions.{
  PositionDetailResponse, list_positions, get_position,
}
use earn_defi_nestjs_backend.Queries.Listed.{list_positions-unavailable}
use earn_defi_nestjs_backend.Queries.Worth.{get_position_lem}
use earn_defi_nestjs_backend.Books.{Books}
use earn_defi_nestjs_backend.Positions.Service.{find_by_id_with_vault}
use earn_defi_nestjs_backend.Schema.Chain.{ProtocolVault}
use earn_defi_nestjs_backend.Tests.Data.{tables, env, vault, vault_row, position}
use earn_defi_nestjs_backend.Tests.Protocols.{viem, provider}

-- Vault 5 is configured but disabled, vault 7 is enabled.
abbrev disabled_row : Vault
disabled_row = record vault_row { id = 11; slug = 5 }

abbrev first : Position
first = position PositionStatus.active

abbrev second : Position
second = record first { id = 21; vault_id = 11 }

abbrev two_positions : Db
two_positions = record (tables (first ∷ second ∷ []) []) { vaults = vault_row ∷ disabled_row ∷ [] }

abbrev served : Env
served = record env { get_vault = get_vault provider }

abbrev of_user : PositionFilters
of_user = record { user_id = 1; vault_slug = none; status = none; wallet_id = none }

list_positions-unavailable_example :
    (served.get_vault 5 (some 84532) ≡ err vault_not_found)
    × ((e : Error) × (list_positions served viem of_user two_positions ≡ (err e, two_positions)))
unfolding find_by_user_with_filters find_first find_many find_vault_definition
list_positions-unavailable_example =
    list_positions-unavailable served viem provider of_user ((first, vault_row) ∷ []) [] second
      disabled_row two_positions refl refl refl

-- A vault whose index has grown by a quarter of a ray.
abbrev grown_vault : ProtocolVault
grown_vault = record vault { share_price = viem.format_units (ray + ray / 4) 27 }

abbrev one_position : Db
one_position = tables (first ∷ []) []

one_position-Books : Books none one_position
one_position-Books = record {
  backed = ((omega arith, refl, refl), tt);
  recorded = tt;
  fresh = tt;
  agrees = tt;
  given = tt;
}

abbrev grown_env : Env
grown_env = record env { get_vault = λ slug chain_id. ok grown_vault }

get_position_lem_example :
    (d : PositionDetailResponse) × (n : ℕ) × (get_position grown_env viem 1 20 one_position
      ≡ (ok d, one_position))
    × (d.position.deposited_amount ≡ pos n)
    × (d.position.shares ≡ pos n)
    × (d.position.current_value ≡ pos (n + n * (ray / 4) / ray))
unfolding find_by_id_with_vault find_first
get_position_lem_example =
    get_position_lem grown_env viem 1 20 (ray / 4) first vault_row grown_vault one_position
      one_position-Books refl refl refl refl
