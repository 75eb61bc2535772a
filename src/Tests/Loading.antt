-- ===== src/Tests/Loading.antt =====
-- The configuration of two chains, and a URL with a placeholder.
use earn_defi_nestjs_backend.Base.{
  ◌≡◌, refl, false, if◌then◌else◌, inl, none, some, List, [], ◌∷◌, Text, codes, eq_text, arith,
}
use earn_defi_nestjs_backend.Schema.Chain.{ChainDefinition}
use earn_defi_nestjs_backend.Monad.{ok}
use earn_defi_nestjs_backend.Idempotency.Hash.{string, object, end, field}
use earn_defi_nestjs_backend.Protocols.Viem.{get_chain_definition}
use earn_defi_nestjs_backend.Config.{
  loaded, refused, placeholder, duplicate_key, missing_variable, Variables, interpolate_string,
  interpolate_record, validate_chains, find_all,
}
use earn_defi_nestjs_backend.Config.Placeholders.{
  Part, plain, dollar, variable, interpolate_string-fill,
}
use earn_defi_nestjs_backend.Config.Unique.{accepted_chains}
use earn_defi_nestjs_backend.Tests.Data.{base_sepolia}

-- A is the one variable.
abbrev variables : Variables
variables name = if eq_text name (codes "A") then some (codes "key") else none

abbrev url : Text
url = codes "v2/${A}/${B"

-- What only begins like a placeholder stays.
url_test :
    interpolate_record variables (field [] (object (field [] (string url) end)) end)
    ≡ loaded (field [] (object (field [] (string (codes "v2/key/${B")) end)) end)
unfolding interpolate_record placeholder eq_text
url_test = refl

missing_test : interpolate_string variables (codes "${B}") ≡ refused (missing_variable (codes "B"))
unfolding interpolate_string placeholder eq_text
missing_test = refl

-- `v${A}$1`
abbrev parts : List Part
parts = plain 118 ∷ variable 65 [] ∷ dollar 49 ∷ []

interpolate_string-fill_example :
    interpolate_string variables (codes "v${A}$1") ≡ loaded (codes "vkey$1")
unfolding eq_text
interpolate_string-fill_example = interpolate_string-fill variables parts (
  (λ e. absurd (omega arith)),
  (
    (inl (omega arith, omega arith), tt),
    (((λ e. absurd (omega arith)), (λ e. absurd (omega arith))), tt),
  ),
)

abbrev mainnet : ChainDefinition
mainnet = record base_sepolia { chain_id = 8453; is_testnet = false; is_enabled = false }

accepted_chains_example :
    (find_all (base_sepolia ∷ mainnet ∷ []) (some 8453) ≡ (if false then mainnet ∷ [] else []))
    × (get_chain_definition (base_sepolia ∷ mainnet ∷ []) 8453 ≡ ok mainnet)
unfolding validate_chains
accepted_chains_example = accepted_chains (base_sepolia ∷ []) mainnet [] refl

refused_test :
    validate_chains (mainnet ∷ base_sepolia ∷ mainnet ∷ []) ≡ refused (duplicate_key 8453)
unfolding validate_chains
refused_test = refl
