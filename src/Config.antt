-- ===== src/Config.antt =====
-- config: config-json.util.ts, and the tests of chains.config.ts and aave.config.ts that no key is
-- there twice; chains/chains.service.ts, which lists the chains. `JSON.parse` is a parameter.
pub mod Placeholders
pub mod Unique
use earn_defi_nestjs_backend.Base.{
  ℕ, zero, suc, leb, ◌==◌, if◌then◌else◌, Bool, true, false, ◌&&◌, ◌||◌, Option, none, some, List,
  [], ◌∷◌, ◌++◌, Text, trim, length, find_many, map,
}
use earn_defi_nestjs_backend.Schema.Chain.{ChainDefinition}
use earn_defi_nestjs_backend.Protocols.Aave.{VaultDefinition}
use earn_defi_nestjs_backend.Idempotency.Hash.{
  Value, null, boolean, number, string, array, object, Fields, end, field,
}

pub data ConfigError : Type 0 where
  is_required invalid_json not_an_array : ConfigError
  missing_variable : Text → ConfigError
  duplicate_key : ℕ → ConfigError

pub data Loaded (A : Type 0) : Type 0 where
  loaded : A → Loaded A
  refused : ConfigError → Loaded A

infixl 5 ◌>>=◌
abbrev pub ◌>>=◌ : {A B : Type 0} → Loaded A → (A → Loaded B) → Loaded B
loaded a >>= f = f a
refused e >>= f = refused e

-- What `JSON.parse` makes of a text.
pub data Parsed (A : Type 0) : Type 0 where
  syntax_error other_value : Parsed A
  entries : List A → Parsed A

abbrev pub array_of : {A : Type 0} → Parsed A → Loaded (List A)
array_of syntax_error = refused invalid_json
array_of other_value = refused not_an_array
array_of (entries xs) = loaded xs

abbrev pub unless_blank : {A : Type 0} → Text → Loaded A → Loaded A
unless_blank [] r = refused is_required
unless_blank (c ∷ cs) r = r

unfoldable pub parse_config_json : {A : Type 0} → (Text → Parsed A) → Option Text → Loaded (List A)
parse_config_json json none = refused is_required
parse_config_json json (some raw) = unless_blank (trim raw) (array_of (json raw))

-- `[A-Z0-9_]`
abbrev pub is_name_char : ℕ → Bool
is_name_char c = leb 65 c && leb c 90 || leb 48 c && leb c 57 || c == 95

unfoldable pub take_name : Text → Text × Text
take_name [] = ([], [])
take_name (c ∷ cs) =
    let rest = take_name cs in if is_name_char c then (c ∷ rest.0, rest.1) else ([], c ∷ cs)

-- A name that is not empty, and a closing brace after it.
abbrev pub closed : Text × Text → Option (Text × Text)
closed (c ∷ cs, b ∷ rest) = if b == 125 then some (c ∷ cs, rest) else none
closed _ = none

-- A match of `/\$\{([A-Z0-9_]+)\}/` at the start of a text: the name, and what comes after it.
unfoldable pub placeholder : Text → Option (Text × Text)
unfolding take_name
placeholder (d ∷ b ∷ cs) = if d == 36 && b == 123 then closed (take_name cs) else none
placeholder _ = none

abbrev pub Variables : Type 0
Variables = Text → Option Text

abbrev pub prepend : Text → Loaded Text → Loaded Text
prepend t r = r >>= λ rest. loaded (t ++ rest)

-- The value of a variable before the rest, or the error that it is missing.
abbrev pub replacement : Text → Option Text → Loaded Text → Loaded Text
replacement name none rest = refused (missing_variable name)
replacement name (some value) rest = prepend value rest

-- One position of `replace`: the match there, or the character.
abbrev pub replace_at :
    Variables → (Text → Loaded Text) → ℕ → Text → Option (Text × Text) → Loaded Text
replace_at variables next c cs none = prepend (c ∷ []) (next cs)
replace_at variables next c cs (some (name, rest)) = replacement name (variables name) (next rest)

-- The fuel bounds the number of characters.
unfoldable pub replace_from : Variables → ℕ → Text → Loaded Text
replace_from variables zero t = loaded t
replace_from variables (suc fuel) [] = loaded []
replace_from variables (suc fuel) (c ∷ cs) =
    replace_at variables (λ t. replace_from variables fuel t) c cs (placeholder (c ∷ cs))

unfoldable pub interpolate_string : Variables → Text → Loaded Text
unfolding replace_from
interpolate_string variables t = replace_from variables (length t) t

-- Arrays, and what is neither a text nor a record, stay as they are.
unfoldable mutual
  unfolding interpolate_string

  pub interpolate_value : Variables → Value → Loaded Value
  interpolate_value variables (string t) = interpolate_string variables t >>= λ u. loaded (string u)
  interpolate_value variables (object fs) =
      interpolate_record variables fs >>= λ gs. loaded (object gs)
  interpolate_value variables v = loaded v

  pub interpolate_record : Variables → Fields → Loaded Fields
  interpolate_record variables end = loaded end
  interpolate_record variables (field k v fs) = interpolate_value variables v >>= λ w.
      interpolate_record variables fs >>= λ gs. loaded (field k w gs)

unfoldable pub interpolate_config_values : Variables → List Fields → Loaded (List Fields)
unfolding interpolate_record
interpolate_config_values variables [] = loaded []
interpolate_config_values variables (e ∷ es) = interpolate_record variables e >>= λ f.
    interpolate_config_values variables es >>= λ fs. loaded (f ∷ fs)

unfoldable pub has_seen : ℕ → List ℕ → Bool
has_seen k [] = false
has_seen k (s ∷ seen) = k == s || has_seen k seen

-- The loop with its set of the keys seen: the first key that is there again.
unfoldable pub first_repeated : {A : Type 0} → (A → ℕ) → List ℕ → List A → Option ℕ
unfolding has_seen
first_repeated key seen [] = none
first_repeated key seen (x ∷ xs) =
    let rest = first_repeated key (key x ∷ seen) xs in
    if has_seen (key x) seen then some (key x) else rest

abbrev pub unless_repeated : {A : Type 0} → Option ℕ → List A → Loaded (List A)
unless_repeated none xs = loaded xs
unless_repeated (some k) xs = refused (duplicate_key k)

unfoldable pub validate_chains : List ChainDefinition → Loaded (List ChainDefinition)
unfolding first_repeated
validate_chains chains = unless_repeated (first_repeated (λ c. c.chain_id) [] chains) chains

unfoldable pub validate_aave_vaults : List VaultDefinition → Loaded (List VaultDefinition)
unfolding first_repeated
validate_aave_vaults vaults = unless_repeated (first_repeated (λ v. v.vault_id) [] vaults) vaults

-- The two loaders; `read` is the cast of an entry to its type.
unfoldable pub load_chains :
    (Text → Parsed Fields)
    → (Fields → ChainDefinition)
    → Variables
    → Option Text
    → Loaded (List ChainDefinition)
unfolding parse_config_json interpolate_config_values validate_chains
load_chains json read variables raw = parse_config_json json raw >>= λ parsed.
    interpolate_config_values variables parsed >>= λ entries. validate_chains (map read entries)

unfoldable pub load_aave_vaults :
    (Text → Parsed VaultDefinition) → Option Text → Loaded (List VaultDefinition)
unfolding parse_config_json validate_aave_vaults
load_aave_vaults json raw = parse_config_json json raw >>= validate_aave_vaults

-- `findAll` of chains.service.ts; the response has the fields of the definition.
abbrev pub enabled_chains : List ChainDefinition → List ChainDefinition
enabled_chains chains = find_many (λ (c : ChainDefinition). c.is_enabled) chains

unfoldable pub find_all : List ChainDefinition → Option ℕ → List ChainDefinition
find_all chains none = enabled_chains chains
find_all chains (some chain_id) =
    find_many (λ (c : ChainDefinition). c.chain_id == chain_id) (enabled_chains chains)
