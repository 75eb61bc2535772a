-- ===== src/Privy/Repeats.antt =====
-- privy-wallet.service.ts: when `sendTransaction` hands over nothing, and when it does so twice.
use earn_defi_nestjs_backend.Base.{
  ℕ, zero, suc, ◌≡◌, ◌≢◌, refl, ap, ◌∙◌, inl, inr, true, false, some, ◌∷◌, Text, arith, Bool-cases,
  Option-cases,
}
use earn_defi_nestjs_backend.Schema.Chain.{SendTransactionInput, BroadcastTransaction}
use earn_defi_nestjs_backend.Privy.{
  PrivyError, returned, threw, is_retryable_privy_error, map_privy_error,
}
use earn_defi_nestjs_backend.Privy.Calls.{
  SendRequest, Calls, PrivyAction, http_exception, retry_from, execute,
}
use earn_defi_nestjs_backend.Privy.Client.{
  Client, PrivyConfig, PrivyWallet, get_authorization_context, get_wallet_signer_key_quorum_id,
  is_signable, assert_wallet_server_signable, send_once, send_transaction,
}
use earn_defi_nestjs_backend.Privy.Sends.{
  Attempt-cases, retry_from-returned, retry_from-stopped, retry_from-again,
}

-- No wallet that the client answers with can be signed for by the server's key.
abbrev pub NeverSignable : Client → PrivyConfig → ℕ → Type 0
NeverSignable client config id =
    (t : ℕ) (w : PrivyWallet) (quorum_id : Text)
    → get_wallet_signer_key_quorum_id config ≡ some quorum_id
    → client.get t id ≡ returned w
    → is_signable quorum_id w ≡ false

-- A method that throws, with nothing sent.
abbrev pub Refuses : {A : Type 0} → PrivyAction A → Type 0
Refuses operation =
    (calls : Calls)
    → (e : PrivyError) × ((operation calls).0 ≡ threw e) × ((operation calls).1.sent ≡ calls.sent)

assert-Refuses :
    (client : Client) (config : PrivyConfig) (id : ℕ)
    → NeverSignable client config id
    → Refuses (assert_wallet_server_signable client config id)
unfolding assert_wallet_server_signable
assert-Refuses client config id never calls =
    elim (Option-cases (get_wallet_signer_key_quorum_id config)) [
      | inl missing ↦ (http_exception 400, ground arith, ground arith)
      | inr (quorum_id, given) ↦ elim (Option-cases (get_authorization_context config)) [
        | inl missing ↦ (http_exception 400, ground arith, ground arith)
        | inr (key, at_hand) ↦ elim (Attempt-cases (client.get calls.tick id)) [
          | inl (w, answer) ↦
              let foreign = never calls.tick w quorum_id given answer in
              (http_exception 400, ground arith, ground arith)
          | inr (e, failed) ↦ (e, ground arith, ground arith)
        ]
      ]
    ]

send_once-Refuses :
    (client : Client) (config : PrivyConfig) (input : SendTransactionInput)
    → NeverSignable client config input.provider_wallet_id
    → Refuses (send_once client config input)
unfolding send_once
send_once-Refuses client config input never calls =
    let (e, refused, kept) = assert-Refuses client config input.provider_wallet_id never calls in
    (e, ground arith, ground arith)

retry_from-Refuses :
    {A : Type 0} (operation : PrivyAction A) (left : ℕ)
    → Refuses operation
    → Refuses (retry_from operation left)
unfolding retry_from
retry_from-Refuses operation zero refuses calls = refuses calls
retry_from-Refuses operation (suc left) refuses calls =
    let (e, failed, kept) = refuses calls in
    let (e', failed', kept') = retry_from-Refuses operation left refuses (operation calls).1 in
    elim (Bool-cases (is_retryable_privy_error e)) [
      | inl again ↦
          let next = retry_from-again operation left calls e failed again in
          (e', rw next failed', rw next (cc (kept', kept)))
      | inr last ↦
          let stop = retry_from-stopped operation left calls e failed last in
          (e, rw stop refl, rw stop kept)
    ]

-- Where no wallet that the client answers with is owned by the configured key quorum or has it as a
-- signer, `sendTransaction` ends in an `HttpException`, and no transaction was handed to the client.
pub send_transaction-unsignable :
    (client : Client) (config : PrivyConfig) (input : SendTransactionInput) (calls : Calls)
    → NeverSignable client config input.provider_wallet_id
    → (status : ℕ) × ((send_transaction client config input calls).0
        ≡ threw (http_exception status))
      × ((send_transaction client config input calls).1.sent ≡ calls.sent)
unfolding send_transaction execute
send_transaction-unsignable client config input calls never =
    let (e, failed, kept) =
      retry_from-Refuses (send_once client config input) 2
        (send_once-Refuses client config input never) calls in
    (map_privy_error e, ground arith, kept)

-- What an attempt hands over under a key.
abbrev pub request : PrivyConfig → SendTransactionInput → ℕ → SendRequest
request config input key = record {
  transaction = input;
  authorization_context = get_authorization_context config;
  idempotency_key = key;
}

-- Two calls of the client, a key drawn, and the request among those sent.
abbrev pub after_send : PrivyConfig → SendTransactionInput → Calls → Calls
after_send config input calls = record calls {
  tick = suc (suc calls.tick);
  next_uuid = suc calls.next_uuid;
  sent = request config input calls.next_uuid ∷ calls.sent;
}

module _ (client : Client) (config : PrivyConfig) (input : SendTransactionInput) (w : PrivyWallet)
    (quorum_id key : Text) (given : get_wallet_signer_key_quorum_id config ≡ some quorum_id)
    (at_hand : get_authorization_context config ≡ some key)
    (answered : (t : ℕ) → client.get t input.provider_wallet_id ≡ returned w)
    (signable : is_signable quorum_id w ≡ true) where
  send_once-signable :
      (calls : Calls)
      → send_once client config input calls ≡ (
        client.send (suc calls.tick) (request config input calls.next_uuid),
        after_send config input calls,
      )
  unfolding send_once assert_wallet_server_signable
  send_once-signable calls = ground (arith, answered calls.tick)

  -- Where the wallet can be signed for, an error that is retried, whether or not the transaction went
  -- out, is followed by a second request for the same transaction under another key, by which Privy
  -- cannot know that it is a repetition; the caller is told of the second alone.
  pub send_transaction-twice :
      (calls : Calls) (e : PrivyError) (b : BroadcastTransaction)
      → client.send (suc calls.tick) (request config input calls.next_uuid) ≡ threw e
      → is_retryable_privy_error e ≡ true
      → client.send (suc (suc (suc calls.tick))) (request config input (suc calls.next_uuid))
        ≡ returned b
      → (send_transaction client config input calls
          ≡ (returned b, after_send config input (after_send config input calls)))
        × ((send_transaction client config input calls).1.sent
            ≡ request config input (suc calls.next_uuid)
              ∷ request config input calls.next_uuid
              ∷ calls.sent)
        × ((request config input (suc calls.next_uuid)).idempotency_key
            ≢ (request config input calls.next_uuid).idempotency_key)
  unfolding send_transaction execute
  send_transaction-twice calls e b failed again returned_b =
      let operation = send_once client config input in
      let first = send_once-signable calls in
      let second = send_once-signable (after_send config input calls) in
      let threw_e : (operation calls).0 ≡ threw e = rw first failed in
      let next : (operation calls).1 ≡ after_send config input calls = rw first refl in
      let again_lem = retry_from-again operation 1 calls e threw_e again in
      let returned_lem =
        retry_from-returned operation 0 (after_send config input calls) b (rw second returned_b) in
      let run : retry_from operation 2 calls
          ≡ (returned b, after_send config input (after_send config input calls)) =
        again_lem ∙ ap (retry_from operation 1) next ∙ returned_lem ∙ (rw second refl) in
      (ground (arith, run), ground (arith, run), λ same. absurd (omega arith))
