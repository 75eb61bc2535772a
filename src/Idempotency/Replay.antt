-- ===== src/Idempotency/Replay.antt =====
-- idempotency.interceptor.ts: a key that is used again, after a success and after a failure.
use earn_defi_nestjs_backend.Base.{
  ℕ, suc, ◌≡◌, ◌≢◌, refl, ==_refl, sym, ◌∙◌, true, false, Option, none, some, ◌∷◌, List, [], arith,
  find_first, update_where, delete_where,
}
use earn_defi_nestjs_backend.Schema.Rows.{Db, IdempotencyKey}
use earn_defi_nestjs_backend.Schema.Chain.{Config}
use earn_defi_nestjs_backend.Monad.{Error, ok, err, Action, key_conflict, key_in_progress}
use earn_defi_nestjs_backend.Idempotency.Service.{
  has_key_and_path, has_id, new_key, store, acquire, complete, should_persist_response,
}
use earn_defi_nestjs_backend.Idempotency.Intercept.{
  Operation, Request, request_path, input_of, run_handler, intercept, get_status,
}

-- What the handler leaves of the stored keys: all, as they are.
abbrev pub KeepsKeys : {A : Type 0} → Action A → Type 0
KeepsKeys m = (db : Db) → (m db).1.idempotency_keys ≡ db.idempotency_keys

abbrev stored : Request → Operation → ℕ → Db → List IdempotencyKey → Option IdempotencyKey
stored request operation key db keys =
    find_first (has_key_and_path key (request_path operation)) keys

-- A request whose key is not known stores the key and runs the handler on that state.
intercept_fresh :
    (config : Config) (others : Db → Db) (operation : Operation) (request : Request)
    (key status : ℕ) (handler : Action (Option ℕ)) (db : Db)
    → request.idempotency_key ≡ some key
    → find_first (has_key_and_path key (request_path operation)) db.idempotency_keys ≡ none
    → find_first (has_key_and_path key (request_path operation)) (others db).idempotency_keys ≡ none
    → let row = new_key (input_of request operation key) config.idempotency_ttl_hours (others db) in
      intercept config others (some operation) request status handler db
      ≡ run_handler row.id status handler (record (others db) {
        idempotency_keys = row ∷ (others db).idempotency_keys;
        next_id = suc (others db).next_id;
      })
unfolding intercept acquire
intercept_fresh config others operation request key status handler db k a b = ground arith

delete-none :
    (key path id : ℕ) (keys : List IdempotencyKey)
    → find_first (has_key_and_path key path) keys ≡ none
    → find_first (has_key_and_path key path) (delete_where (has_id id) keys) ≡ none
unfolding find_first delete_where
delete-none key path id [] h = refl
delete-none key path id (x ∷ xs) h = ground (arith, delete-none key path id xs)

-- Where the handler keeps the stored keys, its good response is stored under the new row.
run_handler-stores :
    (id status body : ℕ) (handler : Action (Option ℕ)) (db : Db) (row : IdempotencyKey)
    (rest : List IdempotencyKey) {db' : Db}
    → KeepsKeys handler
    → should_persist_response status ≡ true
    → db.idempotency_keys ≡ row ∷ rest
    → row.id ≡ id
    → run_handler id status handler db ≡ (ok (status, some body), db')
    → db'.idempotency_keys
      ≡ store status (some body) row ∷ update_where (has_id id) (store status (some body)) rest
unfolding run_handler complete find_first update_where
run_handler-stores id status body handler db row rest {db'} keeps good shape same h =
    ground (arith, keeps db)

-- A request with a stored response is answered from it, whatever the handler, and nothing changes.
intercept_stored :
    (config : Config) (others : Db → Db) (operation : Operation) (request : Request)
    (key status status' body : ℕ) (handler : Action (Option ℕ)) (db : Db) (row : IdempotencyKey)
    (rest : List IdempotencyKey)
    → request.idempotency_key ≡ some key
    → db.idempotency_keys ≡ store status (some body) row ∷ rest
    → has_key_and_path key (request_path operation) row ≡ true
    → row.request_hash ≡ request.request_hash
    → intercept config others (some operation) request status' handler db
      ≡ (ok (status, some body), db)
unfolding intercept acquire find_first
intercept_stored config others operation request key status status' body handler db row rest k shape
      fits hash =
    ground arith

-- A first request with a key that is not known, whose handler leaves the stored keys alone and
-- succeeds with a status from 200 to 299, is answered by its handler. Repeated with the same key,
-- operation and request hash it gets the same status and body, whatever the handler would do now,
-- and nothing in the shared state changes.
pub repeat_replays :
    (config : Config) (others others' : Db → Db) (operation : Operation) (request : Request)
    (key status status' body : ℕ) (handler handler' : Action (Option ℕ)) (db : Db) {db' : Db}
    → request.idempotency_key ≡ some key
    → find_first (has_key_and_path key (request_path operation)) db.idempotency_keys ≡ none
    → find_first (has_key_and_path key (request_path operation)) (others db).idempotency_keys ≡ none
    → KeepsKeys handler
    → should_persist_response status ≡ true
    → intercept config others (some operation) request status handler db
      ≡ (ok (status, some body), db')
    → intercept config others' (some operation) request status' handler' db'
      ≡ (ok (status, some body), db')
repeat_replays config others others' operation request key status status' body handler handler' db
      {db'} k a b keeps good h =
    let row = new_key (input_of request operation key) config.idempotency_ttl_hours (others db) in
    let started : Db = record (others db) {
      idempotency_keys = row ∷ (others db).idempotency_keys;
      next_id = suc (others db).next_id;
    } in
    let ran =
      sym (intercept_fresh config others operation request key status handler db k a b) ∙ h in
    let left =
      run_handler-stores row.id status body handler started row (others db).idempotency_keys keeps
        good refl refl ran in
    intercept_stored config others' operation request key status status' body handler' db' row _ k
      left (ground arith) refl

-- A key that was stored with another request hash is refused, whatever the handler, and nothing
-- changes; the handler does not run. While the first request has not been answered, a repetition
-- of it is refused in the same way.
reuse_refused :
    (config : Config) (others : Db → Db) (operation : Operation) (request : Request)
    (key status : ℕ) (handler : Action (Option ℕ)) (db : Db) (row : IdempotencyKey)
    → request.idempotency_key ≡ some key
    → find_first (has_key_and_path key (request_path operation)) db.idempotency_keys ≡ some row
    → (row.request_hash ≢ request.request_hash
        → intercept config others (some operation) request status handler db
          ≡ (err key_conflict, db))
      × (row.request_hash ≡ request.request_hash
          → row.status_code ≡ none
          → intercept config others (some operation) request status handler db
            ≡ (err key_in_progress, db))
unfolding intercept acquire
reuse_refused config others operation request key status handler db row k found =
    (λ differs. ground arith, λ same unanswered. ground arith)

abbrev pub failure_status : Error → ℕ
failure_status e = elim (get_status e) [ none ↦ 500 | some status ↦ status ]

-- A failed run deletes the row and rethrows.
run_handler-frees :
    (id status key path : ℕ) (handler : Action (Option ℕ)) (db : Db) (row : IdempotencyKey)
    (rest : List IdempotencyKey) {e : Error} {after : Db}
    → KeepsKeys handler
    → handler db ≡ (err e, after)
    → should_persist_response (failure_status e) ≡ false
    → db.idempotency_keys ≡ row ∷ rest
    → row.id ≡ id
    → find_first (has_key_and_path key path) rest ≡ none
    → let (r, db') = run_handler id status handler db in
      (r ≡ err e) × (find_first (has_key_and_path key path) db'.idempotency_keys ≡ none)
unfolding run_handler complete find_first delete_where
run_handler-frees id status key path handler db row rest {e} {after} keeps threw bad shape same
      unknown =
    ground (arith, keeps db, delete-none key path id rest unknown)

-- A first request with a key that is not known, whose handler leaves the stored keys alone and
-- throws an error whose status (500 for an error that is no `HttpException`) is not from 200 to
-- 299, ends in that error, and no row has the key any more: it can be used again.
failure_frees_key :
    (config : Config) (others : Db → Db) (operation : Operation) (request : Request)
    (key status : ℕ) (handler : Action (Option ℕ)) (db : Db) {e : Error} {after : Db}
    → request.idempotency_key ≡ some key
    → find_first (has_key_and_path key (request_path operation)) db.idempotency_keys ≡ none
    → find_first (has_key_and_path key (request_path operation)) (others db).idempotency_keys ≡ none
    → KeepsKeys handler
    → handler (record (others db) {
      idempotency_keys =
          new_key (input_of request operation key) config.idempotency_ttl_hours (others db)
          ∷ (others db).idempotency_keys;
      next_id = suc (others db).next_id;
    })
      ≡ (err e, after)
    → should_persist_response (failure_status e) ≡ false
    → let (r, db') = intercept config others (some operation) request status handler db in
      (r ≡ err e)
      × (find_first (has_key_and_path key (request_path operation)) db'.idempotency_keys ≡ none)
failure_frees_key config others operation request key status handler db k a b keeps threw bad =
    rw (intercept_fresh config others operation request key status handler db k a b) (
      run_handler-frees _ status key (request_path operation) handler _ _ _ keeps threw bad refl
        refl b)

-- A stored response answers every request with its key, operation and request hash, whichever user
-- makes it and however late, beyond the expiry of the key too; the handler does not run, and nothing
-- changes.
pub stored_for_anyone :
    (config : Config) (others : Db → Db) (operation : Operation) (request : Request)
    (key status status' body : ℕ) (handler : Action (Option ℕ)) (db : Db) (row : IdempotencyKey)
    → request.idempotency_key ≡ some key
    → find_first (has_key_and_path key (request_path operation)) db.idempotency_keys ≡ some row
    → row.request_hash ≡ request.request_hash
    → row.response_data ≡ some body
    → row.status_code ≡ some status
    → (user_id : Option ℕ) (later : ℕ)
    → intercept config others
        (some operation)
        (record request { user_id = user_id })
        status'
        handler
        (record db { now = later })
      ≡ (ok (status, some body), record db { now = later })
unfolding intercept acquire
stored_for_anyone config others operation request key status status' body handler db row k found
      same answer with_status user_id later =
    ground (arith, ==_refl request.request_hash)
