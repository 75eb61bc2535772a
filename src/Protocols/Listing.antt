-- ===== src/Protocols/Listing.antt =====
-- protocols/aave/aave.provider.ts: the listing of the vaults against the look-up of one.
use earn_defi_nestjs_backend.Base.{
  ℕ, ◌==◌, ◌≡◌, ◌⊎◌, refl, Bool, true, false, Option, none, List, [], ◌∷◌, arith, inl, inr,
  Bool-cases, Option-cases, find_first-holds, find_first, find_many,
}
use earn_defi_nestjs_backend.Schema.Chain.{ProtocolVault}
use earn_defi_nestjs_backend.Monad.{Error, Result, ok, err, vault_not_found}
use earn_defi_nestjs_backend.Protocols.Reads.{◌>>=◌, or_throw, all_of}
use earn_defi_nestjs_backend.Protocols.Aave.{
  VaultDefinition, Provider, GetVaultsInput, resolve_asset_decimals, build_vault, is_listed,
  get_enabled_vault_definitions, get_vaults, is_definition, fits_chain, find_vault_definition,
  get_vault,
}

pub Result-cases :
    {A : Type 0} (r : Result A) → ((a : A) × (r ≡ ok a)) ⊎ ((e : Error) × (r ≡ err e))
Result-cases (ok a) = inl (a, refl)
Result-cases (err e) = inr (e, refl)

-- All vaults of a chain, or of every chain.
abbrev pub on_chain : Option ℕ → GetVaultsInput
on_chain chain_id = record { chain_id = chain_id; asset_symbol = none; protocol = none }

abbrev pub has_vault_id : ℕ → ProtocolVault → Bool
has_vault_id vault_id v = v.vault_id == vault_id

build_vault_fields :
    (provider : Provider) (d : VaultDefinition) (v : ProtocolVault)
    → build_vault provider d ≡ ok v
    → (v.vault_id ≡ d.vault_id) × (v.chain_id ≡ d.chain_id) × (v.is_enabled ≡ d.is_enabled)
unfolding build_vault
build_vault_fields provider d v h = elim (Result-cases (resolve_asset_decimals provider d)) [
  | inl (decimals, found) ↦ ground arith
  | inr (e, failed) ↦ ground arith
]

all_of-cons :
    {A B : Type 0} (f : A → Result B) (x : A) (xs : List A) (vs : List B)
    → all_of f (x ∷ xs) ≡ ok vs
    → (y : B) × (ys : List B) × (f x ≡ ok y) × (all_of f xs ≡ ok ys) × (vs ≡ y ∷ ys)
unfolding all_of
all_of-cons f x xs vs h = elim (Result-cases (f x)) [
  | inr (e, failed) ↦ absurd (ground arith)
  | inl (y, made) ↦ elim (Result-cases (all_of f xs)) [
    | inr (e, failed) ↦ absurd (ground arith)
    | inl (ys, rest) ↦ (y, ys, made, rest, ground arith)
  ]
]

-- Along the definitions.
search :
    (provider : Provider) (vault_id : ℕ) (chain_id : Option ℕ) (ds : List VaultDefinition)
    (vs : List ProtocolVault)
    → all_of (build_vault provider) (find_many (is_listed (on_chain chain_id)) ds) ≡ ok vs
    → (or_throw (find_first (is_definition vault_id chain_id) ds) vault_not_found
        >>= build_vault provider)
      ≡ or_throw (find_first (has_vault_id vault_id) vs) vault_not_found
unfolding all_of find_many find_first
search provider vault_id chain_id [] vs h = ground arith
search provider vault_id chain_id (d ∷ ds) vs h =
    elim (Bool-cases (is_listed (on_chain chain_id) d)) [
      | inr hidden ↦
          let skipped : is_definition vault_id chain_id d ≡ false = ground arith in
          rw skipped (search provider vault_id chain_id ds vs (rw hidden at h))
      | inl listed ↦
          let (y, ys, made, rest, split) =
            all_of-cons (build_vault provider) d (find_many (is_listed (on_chain chain_id)) ds) vs
              (rw listed at h) in
          let fields = build_vault_fields provider d y made in
          let later = search provider vault_id chain_id ds ys rest in
          elim (Bool-cases (d.vault_id == vault_id)) [
            | inl hit ↦
                let found : is_definition vault_id chain_id d ≡ true = ground arith in
                rw (found, split) (ground arith)
            | inr miss ↦
                let skipped : is_definition vault_id chain_id d ≡ false = ground arith in
                rw (skipped, split) (ground arith)
          ]
    ]

-- Where the listing of a chain, or of every chain, is answered, it tells of each vault what a look-up
-- tells: the look-up of an id on that chain, or on any, returns the first vault of the listing with
-- that id, and is answered with `Vault not found` where the listing has none.
pub get_vault-get_vaults :
    (provider : Provider) (vault_id : ℕ) (chain_id : Option ℕ) (vs : List ProtocolVault)
    → get_vaults provider (on_chain chain_id) ≡ ok vs
    → get_vault provider vault_id chain_id
      ≡ or_throw (find_first (has_vault_id vault_id) vs) vault_not_found
unfolding get_vault get_vaults get_enabled_vault_definitions find_vault_definition
get_vault-get_vaults provider vault_id chain_id vs h =
    search provider vault_id chain_id provider.vaults vs h

-- A vault that the look-up returns is enabled and has the id that was asked for.
pub get_vault_fields :
    (provider : Provider) (vault_id : ℕ) (chain_id : Option ℕ) (v : ProtocolVault)
    → get_vault provider vault_id chain_id ≡ ok v
    → (v.is_enabled ≡ true) × (v.vault_id ≡ vault_id) × (fits_chain chain_id v.chain_id ≡ true)
unfolding get_vault find_vault_definition
get_vault_fields provider vault_id chain_id v h =
    elim (Option-cases (find_first (is_definition vault_id chain_id) provider.vaults)) [
      | inl missing ↦ absurd (ground arith)
      | inr (d, found) ↦
          let fits = find_first-holds (is_definition vault_id chain_id) provider.vaults found in
          let made : build_vault provider d ≡ ok v = ground arith in
          let fields = build_vault_fields provider d v made in ground arith
    ]
