-- ===== src/Tests/Sends.antt =====
-- The requests that the Privy client is handed, with two concrete clients.
use earn_defi_nestjs_backend.Base.{
  ℕ, zero, suc, ◌≡◌, ◌≢◌, refl, false, none, some, [], ◌∷◌, trim, eq_text, find_first,
}
use earn_defi_nestjs_backend.Schema.Chain.{SendTransactionInput, BroadcastTransaction, token}
use earn_defi_nestjs_backend.Privy.{
  PrivyError, Attempt, returned, threw, connection_timeout_error, is_retryable_privy_error,
}
use earn_defi_nestjs_backend.Privy.Calls.{Calls, http_exception}
use earn_defi_nestjs_backend.Privy.Client.{Client, PrivyConfig, PrivyWallet, send_transaction}
use earn_defi_nestjs_backend.Privy.Sends.{Handed, send_transaction-Handed}
use earn_defi_nestjs_backend.Privy.Repeats.{
  NeverSignable, request, after_send, send_transaction-unsignable, send_transaction-twice,
}

-- The quorum ` q ` and a key `k`.
abbrev config : PrivyConfig
config = record {
  authorization_private_key = some (107 ∷ []);
  wallet_signer_key_quorum_id = some (32 ∷ 113 ∷ 32 ∷ []);
}

abbrev timed_out : PrivyError
timed_out = record {
  name = connection_timeout_error;
  status = none;
  http_exception = none;
  no_valid_keys = false;
}

abbrev owned : PrivyWallet
owned = record { id = 31; address = 30; owner_id = some (113 ∷ []); additional_signers = [] }

abbrev foreign : PrivyWallet
foreign = record { id = 31; address = 30; owner_id = none; additional_signers = (112 ∷ []) ∷ [] }

abbrev broadcast : BroadcastTransaction
broadcast = record { hash = 55; transaction_id = none }

-- The first send, which is call 1, times out; the one after it returns.
abbrev first_times_out : ℕ → Attempt BroadcastTransaction
first_times_out (suc zero) = threw timed_out
first_times_out _ = returned broadcast

abbrev client : PrivyWallet → Client
client w = record {
  create = λ t request. returned w;
  get = λ t id. returned w;
  balance = λ t id asset chain. returned [];
  send = λ t request. first_times_out t;
  sign = λ t request. returned [];
}

abbrev input : SendTransactionInput
input = record {
  provider_wallet_id = 31;
  chain_id = 84532;
  to = token 72;
  value = 0;
  calldata = 99;
}

abbrev fresh : Calls
fresh = record { tick = 0; next_uuid = 500; created = []; sent = []; signed = [] }

send_transaction-Handed_example :
    Handed input 3 fresh (send_transaction (client owned) config input fresh).1
send_transaction-Handed_example = send_transaction-Handed (client owned) config input fresh

never : NeverSignable (client foreign) config 31
unfolding trim eq_text find_first
never t w quorum_id given answer =
    let quorum : quorum_id ≡ 113 ∷ [] = cc given in
    let wallet : w ≡ foreign = cc answer in rw quorum (rw wallet refl)

send_transaction-unsignable_example :
    (status : ℕ) × ((send_transaction (client foreign) config input fresh).0
      ≡ threw (http_exception status))
    × ((send_transaction (client foreign) config input fresh).1.sent ≡ [])
send_transaction-unsignable_example =
    send_transaction-unsignable (client foreign) config input fresh never

send_transaction-twice_example :
    (send_transaction (client owned) config input fresh
      ≡ (returned broadcast, after_send config input (after_send config input fresh)))
    × ((send_transaction (client owned) config input fresh).1.sent
        ≡ request config input 501 ∷ request config input 500 ∷ [])
    × ((request config input 501).idempotency_key ≢ (request config input 500).idempotency_key)
unfolding trim is_retryable_privy_error eq_text
send_transaction-twice_example =
    send_transaction-twice (client owned) config input owned (113 ∷ []) (107 ∷ []) refl refl
      (λ t. refl) refl fresh timed_out broadcast refl refl refl
