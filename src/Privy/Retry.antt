-- ===== src/Privy/Retry.antt =====
-- privy-retry.util.ts and privy-wallet.errors.ts: what three attempts come to, and what a failure
-- of them is answered with.
use earn_defi_nestjs_backend.Base.{
  ℕ, zero, suc, ◌+◌, ◌<◌, leb, ◌≡◌, true, false, if◌then◌else◌, none, arith,
}
use earn_defi_nestjs_backend.Idempotency.Service.{should_persist_response}
use earn_defi_nestjs_backend.Privy.{
  PrivyError, Attempt, returned, threw, is_retryable_privy_error, attempt_from, with_retry,
  map_by_status, map_privy_error,
}

-- The first `n` attempts threw errors that are retried.
abbrev pub Retried : {A : Type 0} → (ℕ → Attempt A) → ℕ → Type 0
Retried operation n =
    (i : ℕ)
    → i < n
    → (e : PrivyError) × (operation (1 + i) ≡ threw e) × (is_retryable_privy_error e ≡ true)

-- If some attempt n + 1 ≤ 3 returns and all before it threw errors that are retried, its value is
-- returned. If it throws an error that is not retried, or is the third, that error is thrown.
pub with_retry-first :
    {A : Type 0} (operation : ℕ → Attempt A) (n : ℕ)
    → n < 3
    → Retried operation n
    → ((a : A) → operation (1 + n) ≡ returned a → with_retry operation ≡ returned a)
      × ((e : PrivyError)
          → operation (1 + n) ≡ threw e
          → (if leb 2 n then false else is_retryable_privy_error e) ≡ false
          → with_retry operation ≡ threw e)
unfolding with_retry attempt_from
with_retry-first operation zero bound retried = (λ a h. ground arith, λ e h stop. ground arith)
with_retry-first operation (suc zero) bound retried =
    let (e0, t0, again0) = retried 0 (omega arith) in
    (λ a h. ground arith, λ e h stop. ground arith)
with_retry-first operation (suc (suc zero)) bound retried =
    let (e0, t0, again0) = retried 0 (omega arith) in
    let (e1, t1, again1) = retried 1 (omega arith) in
    (λ a h. ground arith, λ e h stop. ground arith)
with_retry-first operation (suc (suc (suc n))) bound retried = absurd (omega arith)

-- An error that is no `HttpException` itself becomes an exception whose status is never stored as
-- the response to an idempotency key.
map_privy_error-should_persist_response :
    (e : PrivyError) → e.http_exception ≡ none → should_persist_response (map_privy_error e) ≡ false
unfolding map_privy_error map_by_status
map_privy_error-should_persist_response e own = ground arith
