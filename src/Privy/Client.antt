-- ===== src/Privy/Client.antt =====
-- privy-wallet.service.ts, privy-chain.util.ts and the two keys of auth/privy.service.ts: what the
-- wallet provider asks of the Privy client, which is a parameter.
pub mod Balances
use earn_defi_nestjs_backend.Base.{
  ℕ, leb, ◌==◌, if◌then◌else◌, Bool, true, false, ◌&&◌, ◌||◌, Option, none, some, List, [], ◌∷◌,
  map, Text, trim, eq_text, is_some, take, find_first,
}
use earn_defi_nestjs_backend.Schema.Chain.{SendTransactionInput, BroadcastTransaction}
use earn_defi_nestjs_backend.Privy.{Attempt}
use earn_defi_nestjs_backend.Privy.Calls.{
  Owner, quorum, privy_user, nobody, CreateRequest, SendRequest, SignRequest, PrivyAction, ◌>>=◌,
  ◌>>◌, pure, raise, http_exception, plain_error, draw_uuid, ask, execute,
}

pub record PrivyConfig : Type 0 where
  pub authorization_private_key : Option Text
  pub wallet_signer_key_quorum_id : Option Text

pub record PrivyWallet : Type 0 where
  pub id : ℕ
  pub address : ℕ
  pub owner_id : Option Text
  pub additional_signers : List Text

pub data Asset : Type 0 where
  eth usdc : Asset

-- `{ asset, raw_value, raw_value_decimals }`
pub record BalanceEntry : Type 0 where
  pub asset : Asset
  pub raw_value : ℕ
  pub raw_value_decimals : ℕ

-- The calls of `@privy-io/node`; the first number counts the calls so far.
pub record Client : Type 0 where
  pub create : ℕ → CreateRequest → Attempt PrivyWallet
  pub get : ℕ → ℕ → Attempt PrivyWallet
  pub balance : ℕ → ℕ → Asset → Text → Attempt (List BalanceEntry)
  pub send : ℕ → SendRequest → Attempt BroadcastTransaction
  pub sign : ℕ → SignRequest → Attempt Text

pub record ProviderWallet : Type 0 where
  pub provider_wallet_id : ℕ
  pub address : ℕ
  pub chain_id : ℕ

pub record WalletBalance : Type 0 where
  pub address : ℕ
  pub chain_id : ℕ
  pub balance : ℕ
  pub symbol : Asset
  pub decimals : ℕ

pub record CreateWalletInput : Type 0 where
  pub user_id : Text
  pub chain_id : ℕ
  pub privy_user_id : Option ℕ

pub record SignedTransaction : Type 0 where
  pub hash : Text
  pub signature : Text

-- An empty text counts as none.
abbrev pub unless_empty : Text → Option Text
unless_empty [] = none
unless_empty (c ∷ cs) = some (c ∷ cs)

abbrev pub trimmed : Option Text → Option Text
trimmed none = none
trimmed (some t) = unless_empty (trim t)

abbrev pub get_authorization_context : PrivyConfig → Option Text
get_authorization_context config = trimmed config.authorization_private_key

abbrev pub get_wallet_signer_key_quorum_id : PrivyConfig → Option Text
get_wallet_signer_key_quorum_id config = trimmed config.wallet_signer_key_quorum_id

-- `userId.replace(/[^a-zA-Z0-9_-]/g, '_').slice(0, 64)`
abbrev pub is_word_character : ℕ → Bool
is_word_character c =
    leb 97 c && leb c 122 || leb 65 c && leb c 90 || leb 48 c && leb c 57 || c == 95 || c == 45

unfoldable pub to_external_id : Text → Text
to_external_id user_id = take 64 (map (λ c. if is_word_character c then c else 95) user_id)

abbrev pub has_server_keys : PrivyConfig → Bool
has_server_keys config =
    is_some (get_wallet_signer_key_quorum_id config) && is_some (get_authorization_context config)

abbrev pub user_owner : Option ℕ → Owner
user_owner none = nobody
user_owner (some id) = privy_user id

abbrev pub wallet_owner : PrivyConfig → Option ℕ → Owner
wallet_owner config privy_user_id = elim (get_wallet_signer_key_quorum_id config) [
  | none ↦ user_owner privy_user_id
  | some id ↦ if has_server_keys config then quorum id else user_owner privy_user_id
]

abbrev pub to_provider_wallet : ℕ → PrivyWallet → ProviderWallet
to_provider_wallet chain_id w = record {
  provider_wallet_id = w.id;
  address = w.address;
  chain_id = chain_id;
}

-- A request is handed over, and then its answer is read.
abbrev pub hand_create : Client → CreateRequest → PrivyAction PrivyWallet
hand_create client request calls =
    ask (λ t. client.create t request) (record calls { created = request ∷ calls.created })

abbrev pub hand_send : Client → SendRequest → PrivyAction BroadcastTransaction
hand_send client request calls =
    ask (λ t. client.send t request) (record calls { sent = request ∷ calls.sent })

abbrev pub hand_sign : Client → SignRequest → PrivyAction Text
hand_sign client request calls =
    ask (λ t. client.sign t request) (record calls { signed = request ∷ calls.signed })

unfoldable pub create_wallet : Client → PrivyConfig → CreateWalletInput → PrivyAction ProviderWallet
unfolding execute to_external_id
create_wallet client config input = execute do
  key ← draw_uuid
  wallet ← hand_create client (record {
    external_id = to_external_id input.user_id;
    chain_id = input.chain_id;
    owner = wallet_owner config input.privy_user_id;
    idempotency_key = key;
  })
  pure (to_provider_wallet input.chain_id wallet)

unfoldable pub get_wallet : Client → ℕ → ℕ → PrivyAction ProviderWallet
unfolding execute
get_wallet client provider_wallet_id chain_id = execute do
  wallet ← ask (λ t. client.get t provider_wallet_id)
  pure (to_provider_wallet chain_id wallet)

abbrev pub is_text : Text → Option Text → Bool
is_text t none = false
is_text t (some s) = eq_text s t

-- Owned by the quorum of the server's key, or with it as a signer.
abbrev pub is_signable : Text → PrivyWallet → Bool
is_signable id w =
    is_text id w.owner_id || is_some (find_first (λ s. eq_text s id) w.additional_signers)

abbrev pub require_signable : Text → PrivyWallet → PrivyAction (Unit {0})
require_signable id wallet = if is_signable id wallet then pure tt else raise (http_exception 400)

unfoldable pub assert_wallet_server_signable : Client → PrivyConfig → ℕ → PrivyAction (Unit {0})
assert_wallet_server_signable client config provider_wallet_id =
    elim (get_wallet_signer_key_quorum_id config) [
      | none ↦ raise (http_exception 400)
      | some id ↦ elim (get_authorization_context config) [
        | none ↦ raise (http_exception 400)
        | some key ↦ ask (λ t. client.get t provider_wallet_id) >>= require_signable id
      ]
    ]

unfoldable pub ensure_wallet_server_signer : Client → PrivyConfig → ℕ → PrivyAction (Unit {0})
unfolding assert_wallet_server_signable
ensure_wallet_server_signer client config provider_wallet_id =
    assert_wallet_server_signable client config provider_wallet_id

-- One attempt of `sendTransaction`: each draws a key of its own.
unfoldable pub send_once :
    Client → PrivyConfig → SendTransactionInput → PrivyAction BroadcastTransaction
unfolding assert_wallet_server_signable
send_once client config input = do
  assert_wallet_server_signable client config input.provider_wallet_id
  key ← draw_uuid
  hand_send client (record {
    transaction = input;
    authorization_context = get_authorization_context config;
    idempotency_key = key;
  })

unfoldable pub send_transaction :
    Client → PrivyConfig → SendTransactionInput → PrivyAction BroadcastTransaction
unfolding execute send_once
send_transaction client config input = execute (send_once client config input)

-- `sha256` of node:crypto; the hash is that of the signed text.
unfoldable pub derive_transaction_hash : (Text → Text) → Text → Text
derive_transaction_hash sha256_hex signed = 48 ∷ 120 ∷ sha256_hex signed

unfoldable pub prepare_transaction_signing :
    Client → (Text → Text) → SendTransactionInput → PrivyAction SignedTransaction
unfolding execute derive_transaction_hash
prepare_transaction_signing client sha256_hex input = execute do
  key ← draw_uuid
  signed ← hand_sign client (record { transaction = input; idempotency_key = key })
  pure (record { hash = derive_transaction_hash sha256_hex signed; signature = signed })
