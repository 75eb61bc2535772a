-- ===== src/Tests/Provider.antt =====
-- The calls of the wallet provider at concrete answers.
use earn_defi_nestjs_backend.Base.{◌≡◌, refl, false, none, some}
use earn_defi_nestjs_backend.Idempotency.Service.{should_persist_response}
use earn_defi_nestjs_backend.Privy.{PrivyError, rate_limit_error, map_privy_error}

abbrev rate_limited : PrivyError
rate_limited = record {
  name = rate_limit_error;
  status = some 429;
  http_exception = none;
  no_valid_keys = false;
}

rate_limited_test : should_persist_response (map_privy_error rate_limited) ≡ false
unfolding map_privy_error
rate_limited_test = refl
