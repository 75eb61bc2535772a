-- ===== src/Queries/Transactions.antt =====
-- earn/services/earn-transactions.service.ts and the explorer's URL: transactions as a client sees
-- them.
use earn_defi_nestjs_backend.Base.{
  ℕ, ◌==◌, if◌then◌else◌, not, Option, none, some, List, [], ◌∷◌, map, ℤ, Text, find_first,
}
use earn_defi_nestjs_backend.Schema.Status.{TransactionType, TransactionStatus, is_confirmed}
use earn_defi_nestjs_backend.Schema.Chain.{Config, ChainDefinition}
use earn_defi_nestjs_backend.Monad.{
  Action, pure, gets, or_raise, raise_if, ◌>>=◌, ◌>>◌, transaction_not_found,
}
use earn_defi_nestjs_backend.Transactions.Service.{TransactionRecord}
use earn_defi_nestjs_backend.Transactions.Service as Transactions
use earn_defi_nestjs_backend.Transactions.Page.{Filters, find_by_user_with_filters, slug_of}

-- `${base}/tx/${txHash}`, the base without a slash at its end.
pub record ExplorerUrl : Type 0 where
  pub base : Text
  pub tx_hash : ℕ

unfoldable pub strip_slash : Text → Text
strip_slash [] = []
strip_slash (c ∷ []) = if c == 47 then [] else c ∷ []
strip_slash (c ∷ d ∷ ds) = c ∷ strip_slash (d ∷ ds)

-- An empty base counts as none.
unfoldable pub build_explorer_url : Option Text → Option ℕ → Option ExplorerUrl
unfolding strip_slash
build_explorer_url none tx_hash = none
build_explorer_url (some []) tx_hash = none
build_explorer_url (some (c ∷ cs)) none = none
build_explorer_url (some (c ∷ cs)) (some hash) =
    some (record { base = strip_slash (c ∷ cs); tx_hash = hash })

abbrev pub explorer_base : Option ChainDefinition → Option Text
explorer_base none = none
explorer_base (some chain) = chain.explorer_url

unfoldable pub for_transaction : Config → ℕ → Option ℕ → Option ExplorerUrl
unfolding build_explorer_url
for_transaction config chain_id tx_hash =
    build_explorer_url
      (explorer_base (find_first (λ (c : ChainDefinition). c.chain_id == chain_id) config.chains))
      tx_hash

pub record TransactionResponse : Type 0 where
  pub transaction_id : ℕ
  pub type : TransactionType
  pub status : TransactionStatus
  pub amount : ℤ
  pub chain_id : ℕ
  pub wallet_id : Option ℕ
  pub vault_id : Option ℕ
  pub position_id : Option ℕ
  pub tx_hash : Option ℕ
  pub block_number : Option ℕ
  pub explorer_url : Option ExplorerUrl
  pub confirmed_at : Option ℕ
  pub created_at : ℕ
  pub updated_at : ℕ

unfoldable pub to_response : Config → TransactionRecord → TransactionResponse
unfolding for_transaction
to_response config t = record {
  transaction_id = t.transaction_id;
  type = t.type;
  status = t.status;
  amount = t.amount;
  chain_id = t.chain_id;
  wallet_id = t.wallet_id;
  vault_id = t.vault_slug;
  position_id = t.position_id;
  tx_hash = t.tx_hash;
  block_number = t.block_number;
  explorer_url = for_transaction config t.chain_id t.tx_hash;
  confirmed_at = if is_confirmed t.status then some t.updated_at else none;
  created_at = t.created_at;
  updated_at = t.updated_at;
}

unfoldable pub map_transactions : Config → List TransactionRecord → List TransactionResponse
unfolding to_response
map_transactions config ts = map (to_response config) ts

pub record TransactionsList : Type 0 where
  pub items : List TransactionResponse
  pub page : ℕ
  pub limit : ℕ
  pub total : ℕ

unfoldable pub list_transactions : Config → Filters → Option ℕ → Option ℕ → Action TransactionsList
unfolding map_transactions
list_transactions config filters page limit = do
  result ← find_by_user_with_filters filters page limit
  pure (record {
    items = map_transactions config result.items;
    page = result.page;
    limit = result.limit;
    total = result.total;
  })

-- `transaction.vaultSlug`, or the slug of the vault's row.
unfoldable pub resolve_vault_slug : TransactionRecord → Action (Option ℕ)
resolve_vault_slug t = elim t.vault_slug [
  | some slug ↦ pure (some slug)
  | none ↦ gets (λ db. slug_of db.vaults t.vault_id)
]

unfoldable pub get_transaction : Config → ℕ → ℕ → Action TransactionResponse
unfolding resolve_vault_slug to_response
get_transaction config user_id transaction_id = do
  found ← Transactions.find_by_id transaction_id
  t ← or_raise found transaction_not_found
  raise_if (not (t.user_id == user_id)) transaction_not_found
  slug ← resolve_vault_slug t
  pure (to_response config (record t { vault_slug = slug }))
