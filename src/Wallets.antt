-- ===== src/Wallets.antt =====
-- wallets/wallets.service.ts: the embedded wallets of a user. The provider of the wallets (Privy)
-- is a parameter.
pub mod Primary
pub mod Twice
use earn_defi_nestjs_backend.Base.{
  ℕ, suc, ltb, leb, ◌==◌, if◌then◌else◌, Bool, true, false, not, ◌&&◌, ◌||◌, Option, none, some,
  List, [], ◌∷◌, map, find_first, find_many, update_where, count_where,
}
use earn_defi_nestjs_backend.Schema.Status.{WalletType, AuditAction}
use earn_defi_nestjs_backend.Schema.Rows.{Db, Wallet, Metadata, MetaKey, text}
use earn_defi_nestjs_backend.Schema.Chain.{
  AssetAddress, token, SendTransactionInput, BroadcastTransaction,
}
use earn_defi_nestjs_backend.Monad.{
  Result, ok, err, Action, pure, lift, gets, modify, ◌>>=◌, ◌>>◌, raise_if, log_audit,
  faucet_disabled, faucet_wrong_chain, unique_violation,
}
use earn_defi_nestjs_backend.Validation.{find_owned_wallet}

-- `WalletProvider` of wallet-provider.interface.ts, as far as the service calls it. A balance is a
-- symbol, by number, and an amount.
pub record Provider : Type 0 where
  pub ensure_privy_user_id : ℕ → Result ℕ
  -- User, chain and Privy user; what is made is the address, the chain and the provider's id.
  pub create_wallet : ℕ → ℕ → ℕ → Result (ℕ × ℕ × ℕ)
  pub ensure_wallet_server_signer : ℕ → Result (Unit {0})
  pub get_balances : ℕ → ℕ → Result (List (ℕ × ℕ))
  pub send_transaction : SendTransactionInput → Result BroadcastTransaction

pub record CreateWalletDto : Type 0 where
  pub chain_id : Option ℕ
  pub is_primary : Option Bool

pub record WalletResponse : Type 0 where
  pub wallet : Wallet
  pub balances : Option (List (ℕ × ℕ))
  pub balance : Option (ℕ × ℕ)

abbrev pub is_wallet_of : ℕ → Wallet → Bool
is_wallet_of user_id w = w.user_id == user_id

abbrev pub is_primary_of : ℕ → Wallet → Bool
is_primary_of user_id w = w.user_id == user_id && w.is_primary

abbrev pub count_user_wallets : ℕ → Action ℕ
count_user_wallets user_id = gets (λ db. count_where (is_wallet_of user_id) db.wallets)

abbrev pub set_secondary : Wallet → Wallet
set_secondary w = record w { is_primary = false }

unfoldable pub clear_primary_wallet : ℕ → Action (Unit {0})
clear_primary_wallet user_id =
    modify
      (λ db. record db { wallets = update_where (is_primary_of user_id) set_secondary db.wallets })

-- `dto.isPrimary ?? count === 0`
unfoldable pub resolve_primary : ℕ → Option Bool → Action Bool
resolve_primary user_id (some b) = pure b
resolve_primary user_id none = do count ← count_user_wallets user_id; pure (count == 0)

abbrev pub given_chain : Option ℕ → ℕ → ℕ
given_chain none default_chain_id = default_chain_id
given_chain (some chain_id) default_chain_id = chain_id

abbrev pub new_wallet : ℕ → ℕ × ℕ × ℕ → Bool → Db → Wallet
new_wallet user_id (address, chain_id, provider_id) is_primary db = record {
  id = db.next_id;
  user_id = user_id;
  address = address;
  chain_id = chain_id;
  wallet_type = WalletType.embedded;
  provider_id = provider_id;
  is_primary = is_primary;
  created_at = db.now;
}

-- `@@unique([address, chainId])`
abbrev pub has_address : ℕ × ℕ × ℕ → Wallet → Bool
has_address (address, chain_id, provider_id) w = w.address == address && w.chain_id == chain_id

-- `prisma.wallet.create`: the unique index refuses a second row for the address on the chain.
unfoldable pub insert_wallet : ℕ → ℕ × ℕ × ℕ → Bool → Action Wallet
insert_wallet user_id made is_primary db = elim (find_first (has_address made) db.wallets) [
  | some w ↦ (err unique_violation, db)
  | none ↦ (
    ok (new_wallet user_id made is_primary db),
    record db {
      wallets = new_wallet user_id made is_primary db ∷ db.wallets;
      next_id = suc db.next_id;
    },
  )
]

-- The awaits of `createWallet` at which other requests may run: before the old primary wallet is
-- cleared, and at the two calls of the provider.
pub data WalletAwait : Type 0 where
  at_clear at_privy_user at_wallet : WalletAwait

abbrev pub Others : Type 0
Others = WalletAwait → Db → Db

-- The calls of the provider, and the row that they lead to.
unfoldable pub provision_wallet : Provider → Others → ℕ → ℕ → Bool → Action Wallet
unfolding insert_wallet
provision_wallet provider others user_id chain_id is_primary = do
  modify (others at_privy_user)
  privy_user_id ← lift (provider.ensure_privy_user_id user_id)
  modify (others at_wallet)
  made ← lift (provider.create_wallet user_id chain_id privy_user_id)
  insert_wallet user_id made is_primary

unfoldable pub create_wallet : Provider → Others → ℕ → ℕ → CreateWalletDto → Action Wallet
unfolding resolve_primary clear_primary_wallet provision_wallet
create_wallet provider others default_chain_id user_id dto = do
  is_primary ← resolve_primary user_id dto.is_primary
  modify (others at_clear)
  if is_primary then clear_primary_wallet user_id else pure tt
  wallet ←
      provision_wallet provider others user_id (given_chain dto.chain_id default_chain_id)
        is_primary
  log_audit user_id AuditAction.wallet_created wallet.id (
      (MetaKey.address, text wallet.address)
      ∷ (MetaKey.chain_id, text wallet.chain_id)
      ∷ (MetaKey.provider_type, text 0)
      ∷ [])
  pure wallet

-- Symbol 0 is `'ETH'`.
abbrev pub find_eth_balance : List (ℕ × ℕ) → Option (ℕ × ℕ)
find_eth_balance balances = find_first (λ b. b.0 == 0) balances

abbrev pub with_balances : Wallet → Result (List (ℕ × ℕ)) → WalletResponse
with_balances wallet (ok balances) = record {
  wallet = wallet;
  balances = some balances;
  balance = find_eth_balance balances;
}
with_balances wallet (err e) = record { wallet = wallet; balances = none; balance = none }

-- A balance that cannot be read is left out.
abbrev pub attach_balances : Provider → Wallet → WalletResponse
attach_balances provider wallet =
    with_balances wallet (provider.get_balances wallet.provider_id wallet.chain_id)

-- `orderBy: [{ isPrimary: 'desc' }, { createdAt: 'asc' }]`
abbrev pub before : Wallet → Wallet → Bool
before v w =
    if v.is_primary
    then (not w.is_primary || leb v.created_at w.created_at)
    else (not w.is_primary && leb v.created_at w.created_at)

unfoldable pub insert_ordered : Wallet → List Wallet → List Wallet
insert_ordered w [] = w ∷ []
insert_ordered w (v ∷ vs) =
    let rest = insert_ordered w vs in if before w v then w ∷ v ∷ vs else v ∷ rest

unfoldable pub order_wallets : List Wallet → List Wallet
unfolding insert_ordered
order_wallets [] = []
order_wallets (w ∷ ws) = insert_ordered w (order_wallets ws)

unfoldable pub list_wallets : Provider → ℕ → Action (List WalletResponse)
unfolding order_wallets
list_wallets provider user_id = gets (λ db.
    map (attach_balances provider) (order_wallets (find_many (is_wallet_of user_id) db.wallets)))

unfoldable pub get_wallet : Provider → ℕ → ℕ → Action WalletResponse
unfolding find_owned_wallet
get_wallet provider user_id wallet_id = do
  wallet ← find_owned_wallet user_id wallet_id
  pure (attach_balances provider wallet)

unfoldable pub enable_server_signing : Provider → ℕ → ℕ → Action WalletResponse
unfolding find_owned_wallet
enable_server_signing provider user_id wallet_id = do
  wallet ← find_owned_wallet user_id wallet_id
  lift (provider.ensure_wallet_server_signer wallet.provider_id)
  pure (attach_balances provider wallet)

abbrev pub base_sepolia : ℕ
base_sepolia = 84532

-- The faucet's address and its calldata (viem) are given; `enabled` is the test of the node
-- environment.
unfoldable pub mint_aave_test_usdc :
    Provider → Bool → AssetAddress → (ℕ → ℕ) → ℕ → ℕ → Action (Wallet × ℕ)
unfolding find_owned_wallet
mint_aave_test_usdc provider enabled faucet encode_mint user_id wallet_id = do
  raise_if (not enabled) faucet_disabled
  wallet ← find_owned_wallet user_id wallet_id
  raise_if (not (wallet.chain_id == base_sepolia)) faucet_wrong_chain
  broadcast ← lift (
      provider.send_transaction (record {
        provider_wallet_id = wallet.provider_id;
        chain_id = wallet.chain_id;
        to = faucet;
        value = 0;
        calldata = encode_mint wallet.address;
      }))
  pure (wallet, broadcast.hash)
