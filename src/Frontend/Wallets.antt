-- ===== src/Frontend/Wallets.antt =====
-- frontend/src/context/WalletContext.tsx and utils/chain.ts: the wallets that the client shows. The
-- answers of the API are arguments, and `others` is what changes the state while one is awaited.
pub mod Created
use earn_defi_nestjs_backend.Base.{
  ℕ, zero, suc, ◌==◌, if◌then◌else◌, Bool, true, false, not, ◌&&◌, Option, none, some, List, [],
  ◌∷◌, ◌++◌, map, Text, codes, find_first, find_many,
}
use earn_defi_nestjs_backend.Frontend.Amounts.{to_text}
use earn_defi_nestjs_backend.Frontend.DepositFlow.{Settled, fulfilled, rejected}

-- `walletId`: the id of the API, or `pending-` and a time, with which no id of the API begins.
pub data WalletId : Type 0 where
  stored pending : ℕ → WalletId

abbrev pub same_id : WalletId → WalletId → Bool
same_id (stored a) (stored b) = a == b
same_id (pending a) (pending b) = a == b
same_id _ _ = false

-- The fields of `Wallet` and of `Chain` that the context reads or makes up.
pub record ClientWallet : Type 0 where
  pub wallet_id : WalletId
  pub wallet_address : Text
  pub chain_id : ℕ
  pub is_primary : Bool
  pub created_at : ℕ

pub record ClientChain : Type 0 where
  pub name : Text
  pub chain_id : ℕ
  pub is_enabled : Bool
  pub explorer_url : Text

pub record WalletState : Type 0 where
  pub wallets : List ClientWallet
  pub chains : List ClientChain
  pub environment : Option ℕ
  pub loading : Bool
  pub error : Option Text
  pub creating : Bool
  pub pending_wallet_id : Option WalletId

abbrev pub chain_id_or : ℕ → Option ClientChain → ℕ
chain_id_or d none = d
chain_id_or d (some c) = c.chain_id

-- With an enabled chain `c`, the first: that of the first wallet if it is enabled, or `c`.
abbrev pub chain_of_first : List ClientChain → ClientChain → List ClientWallet → ℕ
chain_of_first enabled c [] = c.chain_id
chain_of_first enabled c (w ∷ ws) =
    chain_id_or c.chain_id (find_first (λ (d : ClientChain). d.chain_id == w.chain_id) enabled)

abbrev pub environment_chain : Option ℕ → ℕ
environment_chain none = 84532
environment_chain (some chain_id) = chain_id

abbrev pub resolve_enabled : List ClientChain → List ClientWallet → Option ℕ → ℕ
resolve_enabled [] wallets environment = environment_chain environment
resolve_enabled (c ∷ cs) wallets environment = chain_of_first (c ∷ cs) c wallets

unfoldable pub resolve_create_chain_id : List ClientChain → List ClientWallet → Option ℕ → ℕ
resolve_create_chain_id chains wallets environment =
    resolve_enabled (find_many (λ (c : ClientChain). c.is_enabled) chains) wallets environment

abbrev pub name_or : Text → Option ClientChain → Text
name_or d none = d
name_or d (some c) = c.name

unfoldable pub chain_label : List ClientChain → ℕ → Text
chain_label chains chain_id =
    name_or (codes "Chain " ++ to_text chain_id)
      (find_first (λ (c : ClientChain). c.chain_id == chain_id) chains)

abbrev pub value_or : {A : Type 0} → A → Settled A → A
value_or old (fulfilled a) = a
value_or old (rejected m) = old

-- The error of the three requests: only when all of them failed, that of the first.
abbrev pub error_of :
    Settled (List ClientWallet) → Settled (List ClientChain) → Settled ℕ → Option Text
error_of (rejected m) (rejected n) (rejected o) = some m
error_of _ _ _ = none

abbrev pub new_environment : Option ℕ → Settled ℕ → Option ℕ
new_environment old (fulfilled chain_id) = some chain_id
new_environment old (rejected m) = old

unfoldable pub refresh :
    Bool
    → Settled (List ClientWallet)
    → Settled (List ClientChain)
    → Settled ℕ
    → WalletState
    → WalletState
refresh false wallets chains environment state = state
refresh true wallets chains environment state = record state {
  wallets = value_or state.wallets wallets;
  chains = value_or state.chains chains;
  environment = new_environment state.environment environment;
  error = error_of wallets chains environment;
}

abbrev pub is_none : List ClientWallet → Bool
is_none [] = true
is_none (w ∷ ws) = false

-- The wallet that is shown until the API answers.
abbrev pub optimistic : ℕ → ℕ → List ClientWallet → ClientWallet
optimistic now chain_id wallets = record {
  wallet_id = pending now;
  wallet_address = codes "0x0000000000000000000000000000000000000000";
  chain_id = chain_id;
  is_primary = is_none wallets;
  created_at = now;
}

abbrev pub create_started : ℕ → ℕ → WalletState → WalletState
create_started now chain_id state = record state {
  wallets = state.wallets ++ optimistic now chain_id state.wallets ∷ [];
  creating = true;
  error = none;
  pending_wallet_id = some (pending now);
}

abbrev pub swap : WalletId → ClientWallet → ClientWallet → ClientWallet
swap id wallet w = if same_id w.wallet_id id then wallet else w

abbrev pub create_ended : ℕ → Settled ClientWallet → WalletState → WalletState
create_ended now (fulfilled wallet) state = record state {
  wallets = map (swap (pending now) wallet) state.wallets;
  pending_wallet_id = none;
  creating = false;
}
create_ended now (rejected message) state = record state {
  wallets = find_many (λ (w : ClientWallet). not (same_id w.wallet_id (pending now))) state.wallets;
  pending_wallet_id = none;
  error = some message;
  creating = false;
}

-- The answer is what the method returns or throws.
unfoldable pub create_wallet :
    (ℕ → Settled ClientWallet)
    → ℕ
    → (WalletState → WalletState)
    → WalletState
    → Settled ClientWallet × WalletState
unfolding resolve_create_chain_id
create_wallet api now others state =
    let chain_id = resolve_create_chain_id state.chains state.wallets state.environment in
    let answer = api chain_id in
    (answer, create_ended now answer (others (create_started now chain_id state)))
