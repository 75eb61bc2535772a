-- ===== src/Idempotency/Intercept.antt =====
-- idempotency.interceptor.ts: what happens around a handler that is marked idempotent.
use earn_defi_nestjs_backend.Base.{ℕ, Option, none, some}
use earn_defi_nestjs_backend.Schema.Rows.{Db}
use earn_defi_nestjs_backend.Schema.Chain.{Config}
use earn_defi_nestjs_backend.Monad.{
  Error, Action, pure, raise, or_raise, catch, ◌>>=◌, ◌>>◌, key_required,
}
use earn_defi_nestjs_backend.Idempotency.Service.{AcquireInput, acquire, complete}

-- The status of an `HttpException`; an error of another class has none.
abbrev pub get_status : Error → Option ℕ
get_status Error.wallet_not_found = some 404
get_status Error.position_not_found = some 404
get_status Error.transaction_not_found = some 404
get_status Error.vault_not_found = some 404
get_status Error.mainnet_disabled = some 403
get_status Error.faucet_disabled = some 403
get_status Error.deposit_in_progress = some 409
get_status Error.withdraw_in_progress = some 409
get_status Error.key_conflict = some 409
get_status Error.key_in_progress = some 409
get_status Error.rate_limit_exceeded = some 429
get_status Error.record_missing = none
get_status Error.unique_violation = none
get_status Error.position_missing = none
get_status Error.bad_number = none
get_status (Error.external n) = none
get_status (Error.http status) = some status
get_status _ = some 400

-- `IDEMPOTENCY_REQUEST_PATHS[options.operation]`
pub data Operation : Type 0 where
  approval deposit withdrawal : Operation

abbrev pub request_path : Operation → ℕ
request_path approval = 0
request_path deposit = 1
request_path withdrawal = 2

pub record Request : Type 0 where
  -- The trimmed header; `none` where it is missing or blank.
  pub idempotency_key : Option ℕ
  pub request_hash : ℕ
  pub user_id : Option ℕ

-- The body that is stored with a failure does not matter: it is not persisted.
unfoldable pub handle_failure : ℕ → Error → Action (Unit {0})
handle_failure id error = elim (get_status error) [
  | some status ↦ complete id status (some 0)
  | none ↦ complete id 500 (some 0)
]

abbrev pub input_of : Request → Operation → ℕ → AcquireInput
input_of request operation key = record {
  key = key;
  request_path = request_path operation;
  request_hash = request.request_hash;
  user_id = request.user_id;
}

-- The handler runs, and its response is stored; `status` is `response.statusCode || 200`. The
-- `catchError` also catches what `complete` throws.
unfoldable pub run_handler : ℕ → ℕ → Action (Option ℕ) → Action (ℕ × Option ℕ)
unfolding handle_failure
run_handler id status handler =
    catch (do body ← handler; complete id status body; pure (status, body))
      (λ e. handle_failure id e >> raise e)

-- The status and the body of the answer.
unfoldable pub intercept :
    Config → (Db → Db) → Option Operation → Request → ℕ → Action (Option ℕ) → Action (ℕ × Option ℕ)
unfolding run_handler
intercept config others none request status handler = do body ← handler; pure (status, body)
intercept config others (some operation) request status handler = do
  key ← or_raise request.idempotency_key key_required
  (replay, id) ← acquire config others (input_of request operation key)
  elim replay [
    | some r ↦ pure (r.status_code, some r.response_data)
    | none ↦ run_handler id status handler
  ]
