-- ===== src/Privy/Client/Balances.antt =====
-- privy-wallet.service.ts and privy-chain.util.ts: the balances of a wallet, by the name of its chain.
use earn_defi_nestjs_backend.Base.{
  ℕ, ◌==◌, if◌then◌else◌, Bool, true, false, Option, none, some, List, [], ◌∷◌, Text, find_first,
}
use earn_defi_nestjs_backend.Privy.Calls.{
  PrivyAction, ◌>>=◌, pure, raise, plain_error, ask, execute,
}
use earn_defi_nestjs_backend.Privy.Client.{
  Asset, BalanceEntry, Client, ProviderWallet, WalletBalance, get_wallet, eth, usdc,
}

-- `CHAIN_ID_TO_PRIVY_CHAIN`: `ethereum`, `base`, `base_sepolia`, `sepolia`.
abbrev pub ethereum : Text
ethereum = 101 ∷ 116 ∷ 104 ∷ 101 ∷ 114 ∷ 101 ∷ 117 ∷ 109 ∷ []

abbrev pub base_chain : Text
base_chain = 98 ∷ 97 ∷ 115 ∷ 101 ∷ []

abbrev pub base_sepolia : Text
base_sepolia = 98 ∷ 97 ∷ 115 ∷ 101 ∷ 95 ∷ 115 ∷ 101 ∷ 112 ∷ 111 ∷ 108 ∷ 105 ∷ 97 ∷ []

abbrev pub sepolia : Text
sepolia = 115 ∷ 101 ∷ 112 ∷ 111 ∷ 108 ∷ 105 ∷ 97 ∷ []

unfoldable pub resolve_privy_chain : ℕ → PrivyAction Text
resolve_privy_chain chain_id =
    if chain_id == 1
    then pure ethereum
    else if chain_id == 8453
    then pure base_chain
    else if chain_id == 84532
    then pure base_sepolia
    else if chain_id == 11155111
    then pure sepolia
    else raise plain_error

abbrev pub is_asset : Asset → BalanceEntry → Bool
is_asset eth entry = elim entry.asset [ eth ↦ true | usdc ↦ false ]
is_asset usdc entry = elim entry.asset [ eth ↦ false | usdc ↦ true ]

abbrev pub default_decimals : Asset → ℕ
default_decimals eth = 18
default_decimals usdc = 6

-- A balance that the answer does not name is zero.
abbrev pub to_balance : ℕ → ℕ → Asset → Option BalanceEntry → WalletBalance
to_balance address chain_id asset none = record {
  address = address;
  chain_id = chain_id;
  balance = 0;
  symbol = asset;
  decimals = default_decimals asset;
}
to_balance address chain_id asset (some entry) = record {
  address = address;
  chain_id = chain_id;
  balance = entry.raw_value;
  symbol = asset;
  decimals = entry.raw_value_decimals;
}

abbrev pub named_balance : ProviderWallet → ℕ → Asset → List BalanceEntry → WalletBalance
named_balance wallet chain_id asset entries =
    to_balance wallet.address chain_id asset (find_first (is_asset asset) entries)

-- The two balances are asked for at once.
unfoldable pub get_balances : Client → ℕ → ℕ → PrivyAction (WalletBalance × WalletBalance)
unfolding execute resolve_privy_chain get_wallet
get_balances client provider_wallet_id chain_id = execute do
  chain ← resolve_privy_chain chain_id
  wallet ← get_wallet client provider_wallet_id chain_id
  eth_entries ← ask (λ t. client.balance t provider_wallet_id eth chain)
  usdc_entries ← ask (λ t. client.balance t provider_wallet_id usdc chain)
  pure (
    named_balance wallet chain_id eth eth_entries,
    named_balance wallet chain_id usdc usdc_entries,
  )

-- Of the two balances the first is that of `ETH`.
unfoldable pub get_balance : Client → ℕ → ℕ → PrivyAction WalletBalance
unfolding get_balances
get_balance client provider_wallet_id chain_id = do
  (eth_balance, usdc_balance) ← get_balances client provider_wallet_id chain_id
  pure eth_balance
