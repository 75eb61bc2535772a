-- ===== src/Privy.antt =====
-- wallets/providers/privy: privy-retry.util.ts and privy-wallet.errors.ts, the retries of a call of
-- the Privy client and the exception that an error of the client becomes.
pub mod Retry
pub mod Calls
pub mod Client
pub mod Sends
pub mod Repeats
pub mod Users
use earn_defi_nestjs_backend.Base.{
  ℕ, zero, suc, leb, ◌==◌, if◌then◌else◌, Bool, true, false, not, ◌&&◌, ◌||◌, Option, none, some,
}

-- `error.name`, as far as it is compared.
pub data ErrorName : Type 0 where
  not_found_error authentication_error permission_denied_error conflict_error : ErrorName
  unprocessable_entity_error rate_limit_error connection_timeout_error connection_error : ErrorName
  internal_server_error other_name : ErrorName

-- An error of the client, or an `HttpException`, by its status.
pub record PrivyError : Type 0 where
  pub name : ErrorName
  pub status : Option ℕ
  pub http_exception : Option ℕ
  -- `message.includes('No valid authorization keys')`
  pub no_valid_keys : Bool

-- How one call ends.
pub data Attempt (A : Type 0) : Type 0 where
  returned : A → Attempt A
  threw : PrivyError → Attempt A

abbrev pub is_retryable_status : Option ℕ → Bool
is_retryable_status none = false
is_retryable_status (some status) = status == 429 || leb 500 status

abbrev pub is_retryable_name : ErrorName → Bool
is_retryable_name connection_error = true
is_retryable_name connection_timeout_error = true
is_retryable_name internal_server_error = true
is_retryable_name _ = false

unfoldable pub is_retryable_privy_error : PrivyError → Bool
is_retryable_privy_error e = is_retryable_status e.status || is_retryable_name e.name

-- The loop of `withRetry`, on the attempts left after this one; the last error is thrown, and so is
-- one that is not to be retried.
unfoldable pub attempt_from :
    {A : Type 0} → (ℕ → Attempt A) → (PrivyError → Bool) → ℕ → ℕ → Attempt A
attempt_from operation should_retry zero attempt = operation attempt
attempt_from operation should_retry (suc left) attempt =
    let rest = attempt_from operation should_retry left (suc attempt) in
    elim (operation attempt) [
      | returned a ↦ returned a
      | threw e ↦ if should_retry e then rest else threw e
    ]

-- The default options: three attempts. The waits in between take no part.
unfoldable pub with_retry : {A : Type 0} → (ℕ → Attempt A) → Attempt A
unfolding attempt_from is_retryable_privy_error
with_retry operation = attempt_from operation is_retryable_privy_error 2 1

-- `isPrivyLikeError(error, name, status)`
abbrev pub has_status : ℕ → Option ℕ → Bool
has_status n none = false
has_status n (some m) = m == n

abbrev pub is_client_error : Option ℕ → Bool
is_client_error none = false
is_client_error (some status) = leb 400 status

abbrev pub is_server_error : Option ℕ → Bool
is_server_error none = false
is_server_error (some status) = leb 500 status

-- The end of `mapPrivyError`, after the named errors.
unfoldable pub map_by_status : PrivyError → ℕ
map_by_status e =
    if e.no_valid_keys
    then 400
    else if is_server_error e.status
    then 502
    else if is_client_error e.status
    then 400
    else 502

-- The status that a name stands for, if the error has the status that goes with the name.
abbrev pub named_status : ErrorName → Option ℕ → Option ℕ
named_status not_found_error status = if has_status 404 status then some 404 else none
named_status authentication_error status = if has_status 401 status then some 401 else none
named_status permission_denied_error status = if has_status 403 status then some 403 else none
named_status conflict_error status = if has_status 409 status then some 409 else none
named_status unprocessable_entity_error status = if has_status 422 status then some 422 else none
named_status rate_limit_error status = if has_status 429 status then some 503 else none
named_status connection_timeout_error status = some 504
named_status connection_error status = some 502
named_status _ status = none

-- The status of the exception.
unfoldable pub map_privy_error : PrivyError → ℕ
unfolding map_by_status
map_privy_error e = elim e.http_exception [
  | some status ↦ status
  | none ↦ elim (named_status e.name e.status) [ some status ↦ status | none ↦ map_by_status e ]
]
