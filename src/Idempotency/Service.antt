-- ===== src/Idempotency/Service.antt =====
-- idempotency.repository.ts and idempotency.service.ts: the stored keys. The hash of a request is
-- an argument: it is SHA-256 of the sorted JSON text of the request.
use earn_defi_nestjs_backend.Base.{
  ℕ, suc, ◌+◌, ◌*◌, leb, ltb, ◌==◌, if◌then◌else◌, Bool, true, false, ◌&&◌, Option, none, some, ◌∷◌,
  find_first, update_where, delete_where,
}
use earn_defi_nestjs_backend.Schema.Rows.{Db, IdempotencyKey}
use earn_defi_nestjs_backend.Schema.Chain.{Config}
use earn_defi_nestjs_backend.Monad.{
  Error, Result, ok, err, Action, pure, raise, gets, catch, ◌>>=◌, ◌>>◌, modify, key_conflict,
  key_in_progress, record_missing, unique_violation,
}

pub record AcquireInput : Type 0 where
  pub key : ℕ
  pub request_path : ℕ
  pub request_hash : ℕ
  pub user_id : Option ℕ

-- The status and the body of the first response.
pub record Replay : Type 0 where
  pub status_code : ℕ
  pub response_data : ℕ

-- The unique index on key and path.
abbrev pub has_key_and_path : ℕ → ℕ → IdempotencyKey → Bool
has_key_and_path key path k = k.key == key && k.request_path == path

abbrev pub has_id : ℕ → IdempotencyKey → Bool
has_id id k = k.id == id

unfoldable pub find_by_key_and_path : ℕ → ℕ → Action (Option IdempotencyKey)
find_by_key_and_path key path =
    gets (λ db. find_first (has_key_and_path key path) db.idempotency_keys)

abbrev pub new_key : AcquireInput → ℕ → Db → IdempotencyKey
new_key input ttl_hours db = record {
  id = db.next_id;
  user_id = input.user_id;
  key = input.key;
  request_path = input.request_path;
  request_hash = input.request_hash;
  response_data = none;
  status_code = none;
  expires_at = db.now + ttl_hours * 3600000;
  created_at = db.now;
}

unfoldable pub create : AcquireInput → ℕ → Action IdempotencyKey
create input ttl_hours db =
    elim (find_first (has_key_and_path input.key input.request_path) db.idempotency_keys) [
      | some k ↦ (err unique_violation, db)
      | none ↦ (
        ok (new_key input ttl_hours db),
        record db {
          idempotency_keys = new_key input ttl_hours db ∷ db.idempotency_keys;
          next_id = suc db.next_id;
        },
      )
    ]

abbrev pub store : ℕ → Option ℕ → IdempotencyKey → IdempotencyKey
store status body k = record k { response_data = body; status_code = some status }

-- `update`, which throws when no row has the id.
unfoldable pub save_response : ℕ → Option ℕ → ℕ → Action (Unit {0})
save_response id body status db = elim (find_first (has_id id) db.idempotency_keys) [
  | none ↦ (err record_missing, db)
  | some k ↦ (
    ok tt,
    record db {
      idempotency_keys = update_where (has_id id) (store status body) db.idempotency_keys;
    },
  )
]

-- `delete`, which throws when no row has the id.
unfoldable pub delete_by_id : ℕ → Action (Unit {0})
delete_by_id id db = elim (find_first (has_id id) db.idempotency_keys) [
  | none ↦ (err record_missing, db)
  | some k ↦ (ok tt, record db { idempotency_keys = delete_where (has_id id) db.idempotency_keys })
]

-- `existing.responseData === null || existing.statusCode === null`
abbrev pub stored_response : Option ℕ → Option ℕ → Option Replay
stored_response (some body) (some status) =
    some (record { status_code = status; response_data = body })
stored_response _ _ = none

abbrev pub resolve_existing_record : IdempotencyKey → ℕ → Result (Option Replay × ℕ)
resolve_existing_record existing hash =
    if existing.request_hash == hash
    then elim (stored_response existing.response_data existing.status_code) [
      | none ↦ err key_in_progress
      | some replay ↦ ok (some replay, existing.id)
    ]
    else err key_conflict

-- A key that another request stored between the look-up and the insert is looked up again.
unfoldable pub resolve_race : AcquireInput → Action (Option Replay × ℕ)
unfolding find_by_key_and_path
resolve_race input = do
  raced ← find_by_key_and_path input.key input.request_path
  elim raced [
    | none ↦ raise unique_violation
    | some k ↦ λ db. (resolve_existing_record k input.request_hash, db)
  ]

-- `isRetryableIdempotencyError`: the code P2002.
abbrev pub is_retryable_idempotency_error : Error → Bool
is_retryable_idempotency_error Error.unique_violation = true
is_retryable_idempotency_error _ = false

-- The replay, if the key is known, and the id of the record. `others` is what other requests do
-- between the look-up and the insert.
unfoldable pub acquire : Config → (Db → Db) → AcquireInput → Action (Option Replay × ℕ)
unfolding find_by_key_and_path create resolve_race
acquire config others input = do
  existing ← find_by_key_and_path input.key input.request_path
  elim existing [
    | some k ↦ λ db. (resolve_existing_record k input.request_hash, db)
    | none ↦
        catch
          (do
            modify others
            created ← create input config.idempotency_ttl_hours
            pure (none, created.id))
          (λ e. if is_retryable_idempotency_error e then resolve_race input else raise e)
  ]

abbrev pub should_persist_response : ℕ → Bool
should_persist_response status = leb 200 status && ltb status 300

unfoldable pub complete : ℕ → ℕ → Option ℕ → Action (Unit {0})
unfolding save_response delete_by_id
complete id status body =
    if should_persist_response status then save_response id body status else delete_by_id id
