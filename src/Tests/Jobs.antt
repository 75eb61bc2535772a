-- ===== src/Tests/Jobs.antt =====
-- The guards, the limits, the stored keys, the lock and the job at concrete inputs.
use earn_defi_nestjs_backend.Base.{
  ℕ, ◌≤◌, ◌≡◌, ◌≢◌, ◌↔◌, refl, true, false, Option, none, some, [], ◌∷◌, arith, find_first, All,
  count_where,
}
use earn_defi_nestjs_backend.Schema.Status.{PositionStatus, TransactionType, TransactionStatus}
use earn_defi_nestjs_backend.Schema.Rows.{Db, Wallet, IdempotencyKey}
use earn_defi_nestjs_backend.Monad.{
  Result, ok, err, Action, pure, raise, catch, external, insufficient_balance,
}
use earn_defi_nestjs_backend.Monad.Triple.{Post}
use earn_defi_nestjs_backend.Validation.{is_owned_wallet, check_deposit_vault, check_wallet}
use earn_defi_nestjs_backend.Validation.Guards.{check_deposit_vault_lem, check_wallet-owned}
use earn_defi_nestjs_backend.RateLimit.Window.{Attempt, attempts, allowed, allowed-min}
use earn_defi_nestjs_backend.Idempotency.Intercept.{Operation, Request, intercept}
use earn_defi_nestjs_backend.Idempotency.Service.{has_key_and_path}
use earn_defi_nestjs_backend.Idempotency.Replay.{repeat_replays, stored_for_anyone}
use earn_defi_nestjs_backend.Deposit.{Opened, Quote, settle_deposit, fail_deposit}
use earn_defi_nestjs_backend.Positions.Service as Positions
use earn_defi_nestjs_backend.Transactions.Service.{to_record}
use earn_defi_nestjs_backend.Approval.{settle_approval, fail_approval}
use earn_defi_nestjs_backend.Lost.{IsLost, timed_out_deposit-IsLost, unread_allowance-IsLost}
use earn_defi_nestjs_backend.Reconciliation.Lock.{acquire, release, lock_exclusive}
use earn_defi_nestjs_backend.Wallets.{Provider, CreateWalletDto, create_wallet}
use earn_defi_nestjs_backend.Wallets.Primary.{
  primaries, readied, create_wallet-HasOne, create_wallet_none_left,
}
use earn_defi_nestjs_backend.Wallets.Twice.{alone, while_made, create_wallet_twice}
use earn_defi_nestjs_backend.Tests.Data.{
  config, slow_env, unread_env, tables, vault, wallet, position, transaction, deposit_dto,
}

abbrev empty : Db
empty = tables [] []

check_deposit_vault_lem_example :
    (check_deposit_vault config vault empty ≡ (ok tt, empty)) ↔ (true ≡ true)
unfolding find_first
check_deposit_vault_lem_example = check_deposit_vault_lem config vault empty

check_wallet-owned_example :
    (find_first (is_owned_wallet 1 3) empty.wallets ≡ some wallet)
    × (wallet.id ≡ 3)
    × (wallet.user_id ≡ 1)
    × (wallet.chain_id ≡ vault.chain_id)
    × (empty ≡ empty)
unfolding check_wallet find_first
check_wallet-owned_example = check_wallet-owned 1 3 vault empty refl

abbrev attempt : ℕ → Attempt
attempt n = record { user_id = 1; action = 0; at = n }

-- Three deposits in one minute where two are allowed.
allowed-min_example :
    allowed (0, 1, 16) (λ action. 2) (attempt 960000 ∷ attempt 960001 ∷ attempt 960002 ∷ []) empty
    ≡ 2
unfolding attempts
allowed-min_example =
    allowed-min 0 1 16 (λ action. 2) (attempt 960000 ∷ attempt 960001 ∷ attempt 960002 ∷ []) empty

abbrev locked : Db
locked = record empty { lock = some (5, 1025000) }

abbrev other_job : ℕ
other_job = 6

lock_exclusive_example :
    let waiting = record locked { now = 1020000 } in
    (acquire 6 waiting ≡ (ok false, waiting))
    × (other_job ≢ 5 → release 6 waiting ≡ (ok tt, waiting))
unfolding acquire
lock_exclusive_example = lock_exclusive 5 6 empty 1020000 refl (omega arith)

abbrev deposit_request : Request
deposit_request = record { idempotency_key = some 77; request_hash = 8; user_id = some 1 }

abbrev known_key : IdempotencyKey
known_key = record {
  id = 60;
  user_id = some 1;
  key = 77;
  request_path = 1;
  request_hash = 9;
  response_data = none;
  status_code = none;
  expires_at = 2000000;
  created_at = 0;
}

abbrev with_key : Db
with_key = record empty { idempotency_keys = known_key ∷ [] }

abbrev answer : Action (Option ℕ)
answer = pure (some 4)

abbrev refuse : Action (Option ℕ)
refuse = raise insufficient_balance

abbrev answered : Db
answered = (intercept config (λ db. db) (some Operation.deposit) deposit_request 201 answer empty).1

repeat_replays_example :
    intercept config (λ db. db) (some Operation.deposit) deposit_request 200 refuse answered
    ≡ (ok (201, some 4), answered)
unfolding intercept find_first earn_defi_nestjs_backend.Idempotency.Service.acquire
    earn_defi_nestjs_backend.Idempotency.Service.complete
repeat_replays_example =
    repeat_replays config (λ db. db) (λ db. db) Operation.deposit deposit_request 77 201 200 4
      answer refuse empty refl refl refl (λ db. refl) refl refl

abbrev opened : Opened
opened = record {
  position = Positions.to_record (position PositionStatus.pending);
  transaction = to_record (transaction TransactionType.deposit TransactionStatus.created);
  is_new_position = true;
}

abbrev quote : Quote
quote = record {
  vault = vault;
  wallet = wallet;
  wallet_balance = 1000;
  allowance = 1000;
  estimated_shares = 40;
}

-- The tables just after a first deposit was opened.
abbrev opening : Db
opening =
    tables (position PositionStatus.pending ∷ [])
      (transaction TransactionType.deposit TransactionStatus.created ∷ [])

timed_out_deposit-IsLost_example :
    All
      (IsLost 40)
      (catch
        (settle_deposit slow_env 1 10 quote deposit_dto opened)
        (fail_deposit opened)
        opening).1.transactions
timed_out_deposit-IsLost_example =
    timed_out_deposit-IsLost slow_env 1 10 quote deposit_dto opened (external 1) opening
      (λ chain hash. refl) refl

abbrev approving : Db
approving = tables [] (transaction TransactionType.approval TransactionStatus.created ∷ [])

unread_allowance-IsLost_example :
    All
      (IsLost 40)
      (catch
        (settle_approval unread_env 1 vault wallet deposit_dto 0
          (to_record (transaction TransactionType.approval TransactionStatus.created)))
        (fail_approval
          (to_record (transaction TransactionType.approval TransactionStatus.created))
          0)
        approving).1.transactions
unread_allowance-IsLost_example =
    unread_allowance-IsLost unread_env 1 vault wallet deposit_dto 0
      (to_record (transaction TransactionType.approval TransactionStatus.created)) (external 2)
      approving (λ chain owner spender asset. refl) refl

abbrev provider : Result (ℕ × ℕ × ℕ) → Provider
provider made = record {
  ensure_privy_user_id = λ user. ok 90;
  create_wallet = λ user chain privy. made;
  ensure_wallet_server_signer = λ id. ok tt;
  get_balances = λ id chain. ok [];
  send_transaction = λ input. err (external 3);
}

abbrev new_primary : CreateWalletDto
new_primary = record { chain_id = none; is_primary = some true }

create_wallet-HasOne_example :
    Post {A = Wallet}
      (λ w db. primaries 1 db ≤ 1)
      (λ db. primaries 1 db ≤ 1)
      (create_wallet (provider (ok (32, 84532, 33))) alone 84532 1 new_primary empty)
unfolding count_where
create_wallet-HasOne_example =
    (create_wallet-HasOne (provider (ok (32, 84532, 33))) alone 84532 1 new_primary 1
        (λ point db. omega arith)).apply
      empty (omega arith)

create_wallet_none_left_example :
    primaries 1 (create_wallet (provider (err (external 4))) alone 84532 1 new_primary empty).1 ≡ 0
create_wallet_none_left_example =
    create_wallet_none_left (provider (err (external 4))) alone 84532 1 new_primary (external 4)
      empty (λ point db. omega arith) refl (λ user chain privy. refl)

-- The second creation runs while the provider makes the first wallet.
create_wallet_twice_example :
    let second = create_wallet (provider (ok (34, 84532, 35))) alone 84532 1 new_primary in
    let (r, db') =
      create_wallet (provider (ok (32, 84532, 33))) (while_made second) 84532 1 new_primary empty in
    ((w : Wallet) × (r ≡ ok w))
    × ((w : Wallet) × ((second (readied 1 true empty)).0 ≡ ok w))
    × (primaries 1 db' ≡ 2)
unfolding find_first
create_wallet_twice_example =
    create_wallet_twice (provider (ok (32, 84532, 33))) (provider (ok (34, 84532, 35))) 84532 1
      new_primary new_primary 90 90 32 34 84532 84532 33 35 empty refl refl refl refl refl refl refl
      refl refl

abbrev answered_key : IdempotencyKey
answered_key = record known_key { request_hash = 8; response_data = some 4; status_code = some 201 }

-- Another user, after the key has expired.
stored_for_anyone_example :
    intercept config
      (λ db. db)
      (some Operation.deposit)
      (record deposit_request { user_id = some 2 })
      200
      refuse
      (record empty { idempotency_keys = answered_key ∷ []; now = 3000000 })
    ≡ (ok (201, some 4), record empty { idempotency_keys = answered_key ∷ []; now = 3000000 })
unfolding find_first
stored_for_anyone_example =
    stored_for_anyone config (λ db. db) Operation.deposit deposit_request 77 201 200 4 refuse
      (record empty { idempotency_keys = answered_key ∷ [] }) answered_key refl refl refl refl refl
      (some 2) 3000000
