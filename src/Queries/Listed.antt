-- ===== src/Queries/Listed.antt =====
-- earn-positions.service.ts: a listing of positions against the look-up of their vaults.
use earn_defi_nestjs_backend.Base.{◌≡◌, refl, none, some, List, [], ◌∷◌, ◌++◌, arith, inl, inr}
use earn_defi_nestjs_backend.Schema.Rows.{Db, Position, Vault}
use earn_defi_nestjs_backend.Monad.{Error, Result, ok, err, vault_not_found}
use earn_defi_nestjs_backend.Env.{Env}
use earn_defi_nestjs_backend.Positions.Filters.{PositionFilters, find_by_user_with_filters}
use earn_defi_nestjs_backend.Protocols.Reads.{all_of}
use earn_defi_nestjs_backend.Protocols.Viem.{Viem}
use earn_defi_nestjs_backend.Protocols.Aave.{Provider, find_vault_definition, get_vault}
use earn_defi_nestjs_backend.Protocols.Listing.{Result-cases}
use earn_defi_nestjs_backend.Queries.Positions.{to_response, list_positions}

-- One that throws makes all of them throw.
all_of-err :
    {A B : Type 0} (f : A → Result B) (before : List A) (x : A) (after : List A) (e : Error)
    → f x ≡ err e
    → (e' : Error) × (all_of f (before ++ x ∷ after) ≡ err e')
unfolding all_of
all_of-err f [] x after e failed = (e, ground arith)
all_of-err f (y ∷ before) x after e failed =
    let (e', rest) = all_of-err f before x after e failed in
    elim (Result-cases (f y)) [
      | inl (b, made) ↦ (e', ground arith)
      | inr (e'', broken) ↦ (e'', ground arith)
    ]

-- Where the vault of one of the positions that a listing would show is not among the enabled vaults
-- of the configuration on its chain, as after it was disabled, the look-up of that vault says `Vault
-- not found`, and the whole listing throws: none of the other positions is shown.
pub list_positions-unavailable :
    (env : Env) (viem : Viem) (provider : Provider) (filters : PositionFilters)
    (before after : List (Position × Vault)) (p : Position) (v : Vault) (db : Db)
    → env.get_vault ≡ get_vault provider
    → find_by_user_with_filters filters db ≡ (ok (before ++ (p, v) ∷ after), db)
    → find_vault_definition provider v.slug (some v.chain_id) ≡ none
    → (env.get_vault v.slug (some v.chain_id) ≡ err vault_not_found)
      × ((e : Error) × (list_positions env viem filters db ≡ (err e, db)))
unfolding list_positions get_vault to_response
list_positions-unavailable env viem provider filters before after p v db served shown disabled =
    let missing : env.get_vault v.slug (some v.chain_id) ≡ err vault_not_found =
      rw served (rw disabled refl) in
    let failed : to_response env viem (p, v) ≡ err vault_not_found = ground arith in
    let (e, all_failed) =
      all_of-err (to_response env viem) before (p, v) after vault_not_found failed in
    (missing, (e, ground arith))
