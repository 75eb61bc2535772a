-- ===== src/Privy/Calls.antt =====
-- wallets/providers/privy: a method that calls the Privy client. What is kept is what the client was
-- handed, since a call that throws may have arrived; `execute` of privy-wallet.service.ts is a method
-- with its retries and its errors mapped.
use earn_defi_nestjs_backend.Base.{
  ℕ, zero, suc, if◌then◌else◌, false, Option, none, some, List, Text,
}
use earn_defi_nestjs_backend.Schema.Chain.{SendTransactionInput}
use earn_defi_nestjs_backend.Privy.{
  PrivyError, Attempt, returned, threw, other_name, is_retryable_privy_error, map_privy_error,
}

-- The owner that a new wallet is given.
pub data Owner : Type 0 where
  quorum : Text → Owner
  privy_user : ℕ → Owner
  nobody : Owner

pub record CreateRequest : Type 0 where
  pub external_id : Text
  pub chain_id : ℕ
  pub owner : Owner
  pub idempotency_key : ℕ

pub record SendRequest : Type 0 where
  pub transaction : SendTransactionInput
  pub authorization_context : Option Text
  pub idempotency_key : ℕ

pub record SignRequest : Type 0 where
  pub transaction : SendTransactionInput
  pub idempotency_key : ℕ

-- What was handed over, newest first, the number of calls, and the next `randomUUID()`: each is a
-- value that was not drawn before.
pub record Calls : Type 0 where
  pub tick : ℕ
  pub next_uuid : ℕ
  pub created : List CreateRequest
  pub sent : List SendRequest
  pub signed : List SignRequest

abbrev pub PrivyAction : Type 0 → Type 0
PrivyAction A = Calls → Attempt A × Calls

infixl 5 ◌>>=◌ ◌>>◌
abbrev pub ◌>>=◌ : {A B : Type 0} → PrivyAction A → (A → PrivyAction B) → PrivyAction B
◌>>=◌ m f calls =
    let (r, calls') = m calls in elim r [ returned a ↦ f a calls' | threw e ↦ (threw e, calls') ]

abbrev pub ◌>>◌ : {A B : Type 0} → PrivyAction A → PrivyAction B → PrivyAction B
m >> k = m >>= λ _. k

abbrev pub pure : {A : Type 0} → A → PrivyAction A
pure a calls = (returned a, calls)

abbrev pub raise : {A : Type 0} → PrivyError → PrivyAction A
raise e calls = (threw e, calls)

-- An `HttpException`, which has a status too, and an `Error` of the code's own.
abbrev pub http_exception : ℕ → PrivyError
http_exception status = record {
  name = other_name;
  status = some status;
  http_exception = some status;
  no_valid_keys = false;
}

abbrev pub plain_error : PrivyError
plain_error = record {
  name = other_name;
  status = none;
  http_exception = none;
  no_valid_keys = false;
}

abbrev pub draw_uuid : PrivyAction ℕ
draw_uuid calls = (returned calls.next_uuid, record calls { next_uuid = suc calls.next_uuid })

-- A call of the client, whose answer may change from one call to the next.
abbrev pub ask : {A : Type 0} → (ℕ → Attempt A) → PrivyAction A
ask answer calls = (answer calls.tick, record calls { tick = suc calls.tick })

-- `withRetry` around such a method, on the attempts left after this one.
unfoldable pub retry_from : {A : Type 0} → PrivyAction A → ℕ → PrivyAction A
retry_from operation zero calls = operation calls
retry_from operation (suc left) calls =
    let (r, calls') = operation calls in
    let rest = retry_from operation left calls' in
    elim r [
      | returned a ↦ (returned a, calls')
      | threw e ↦ if is_retryable_privy_error e then rest else (threw e, calls')
    ]

abbrev pub mapped : {A : Type 0} → Attempt A → Attempt A
mapped (returned a) = returned a
mapped (threw e) = threw (http_exception (map_privy_error e))

unfoldable pub execute : {A : Type 0} → PrivyAction A → PrivyAction A
unfolding retry_from
execute operation calls = let (r, calls') = retry_from operation 2 calls in (mapped r, calls')
