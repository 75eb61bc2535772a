-- ===== src/Exclusive.antt =====
-- earn-deposit.service.ts and earn-withdraw.service.ts: the first Prisma transaction of a request
-- and that of the next request.
use earn_defi_nestjs_backend.Base.{
  ℕ, ◌≡◌, refl, true, is_some, inl, inr, Option-cases, arith, ==_refl, find_first,
}
use earn_defi_nestjs_backend.Schema.Rows.{Db}
use earn_defi_nestjs_backend.Monad.{pure, ok, err, deposit_in_progress, withdraw_in_progress}
use earn_defi_nestjs_backend.Monad.Triple.{
  Triple, raise_if-Plain, bind-Triple, then-Triple, atomic-Triple,
}
use earn_defi_nestjs_backend.Monad.Value.{Anything, any-Gives, on_ok}
use earn_defi_nestjs_backend.Positions.Service.{PositionRecord}
use earn_defi_nestjs_backend.Positions.Service as Positions
use earn_defi_nestjs_backend.Transactions.Repository.{is_open_deposit, is_open_withdraw}
use earn_defi_nestjs_backend.Transactions.Service.{TransactionRecord}
use earn_defi_nestjs_backend.Transactions.Service as Transactions
use earn_defi_nestjs_backend.Deposit.{
  DepositDto, Quote, Opened, deposit_input, is_pending_position, position_for_deposit, open_deposit,
}
use earn_defi_nestjs_backend.Withdraw.{WithdrawDto, Plan, withdraw_input, open_withdraw}

abbrev HasOpenDeposit : ℕ → ℕ → Db → Type 0
HasOpenDeposit user_id vault_id db =
    is_some (find_first (is_open_deposit user_id vault_id) db.transactions) ≡ true

abbrev HasOpenWithdraw : ℕ → Db → Type 0
HasOpenWithdraw id db = is_some (find_first (is_open_withdraw id) db.transactions) ≡ true

create_deposit-opens :
    (user_id vault_id : ℕ) (quote : Quote) (dto : DepositDto) (p : PositionRecord)
    → Triple Anything
        (λ t. HasOpenDeposit user_id vault_id)
        Anything
        (Transactions.create_transaction (deposit_input user_id vault_id quote dto p))
unfolding Transactions.create_transaction find_first
create_deposit-opens user_id vault_id quote dto p = record {
  apply = λ db u. rw (==_refl user_id, ==_refl vault_id) refl;
}

open_deposit-opens :
    (user_id vault_id : ℕ) (quote : Quote) (dto : DepositDto)
    → Triple Anything
        (λ o. HasOpenDeposit user_id vault_id)
        Anything
        (open_deposit user_id vault_id quote dto)
unfolding open_deposit
open_deposit-opens user_id vault_id quote dto = atomic-Triple (
    bind-Triple (any-Gives (Positions.find_by_user_and_vault user_id vault_id)) λ existing.
      then-Triple (raise_if-Plain (is_pending_position existing) deposit_in_progress) (
        bind-Triple (any-Gives (Transactions.has_open_deposit user_id vault_id)) λ has_open.
          then-Triple (raise_if-Plain has_open deposit_in_progress) (
            bind-Triple (any-Gives (position_for_deposit user_id vault_id existing)) λ p.
              bind-Triple (create_deposit-opens user_id vault_id quote dto p.0) λ t.
                opened-HasOpen
                  (record { position = p.0; transaction = t; is_new_position = p.1 }))))
  where
    opened-HasOpen :
        (o : Opened)
        → Triple
            (HasOpenDeposit user_id vault_id)
            (λ o. HasOpenDeposit user_id vault_id)
            Anything
            (pure o)
    opened-HasOpen o = record { apply = λ db h. h }

open_deposit_refused :
    (user_id vault_id : ℕ) (quote : Quote) (dto : DepositDto) (db : Db)
    → HasOpenDeposit user_id vault_id db
    → open_deposit user_id vault_id quote dto db ≡ (err deposit_in_progress, db)
unfolding open_deposit Positions.find_by_user_and_vault Transactions.has_open_deposit
open_deposit_refused user_id vault_id quote dto db h = ground arith

create_withdraw-opens :
    (user_id : ℕ) (plan : Plan) (dto : WithdrawDto)
    → Triple Anything
        (λ t. HasOpenWithdraw plan.position.id)
        Anything
        (Transactions.create_transaction (withdraw_input user_id plan dto))
unfolding Transactions.create_transaction find_first
create_withdraw-opens user_id plan dto = record {
  apply = λ db u. rw (==_refl plan.position.id) refl;
}

open_withdraw-opens :
    (user_id position_id : ℕ) (plan : Plan) (dto : WithdrawDto)
    → Triple Anything
        (λ t. HasOpenWithdraw plan.position.id)
        Anything
        (open_withdraw user_id position_id plan dto)
unfolding open_withdraw
open_withdraw-opens user_id position_id plan dto = atomic-Triple (
    bind-Triple (any-Gives (Transactions.has_open_withdraw position_id)) λ has_open.
      then-Triple (raise_if-Plain has_open withdraw_in_progress) (
        then-Triple (any-Gives (Positions.mark_withdrawing plan.position.id))
          (create_withdraw-opens user_id plan dto)))

open_withdraw_refused :
    (user_id position_id : ℕ) (plan : Plan) (dto : WithdrawDto) (db : Db)
    → HasOpenWithdraw position_id db
    → open_withdraw user_id position_id plan dto db ≡ (err withdraw_in_progress, db)
unfolding open_withdraw Transactions.has_open_withdraw
open_withdraw_refused user_id position_id plan dto db h =
    elim (Option-cases (find_first (is_open_withdraw position_id) db.transactions)) [
      | inl missing ↦ ground arith
      | inr (t, found) ↦ ground arith
    ]

-- Right after a deposit of the user into the vault is opened, every further one is refused and
-- changes nothing, whatever it asks for.
pub open_deposit_exclusive :
    (user_id vault_id : ℕ) (quote next : Quote) (dto next_dto : DepositDto) (db : Db)
    {opened : Opened} {db' : Db}
    → open_deposit user_id vault_id quote dto db ≡ (ok opened, db')
    → open_deposit user_id vault_id next next_dto db' ≡ (err deposit_in_progress, db')
open_deposit_exclusive user_id vault_id quote next dto next_dto db {opened} {db'} h =
    open_deposit_refused user_id vault_id next next_dto db'
      (on_ok (open_deposit-opens user_id vault_id quote dto) h)

-- Right after a withdrawal from the position is opened, every further one is refused and changes
-- nothing, whoever asks for it and for whatever amount.
pub open_withdraw_exclusive :
    (user_id other position_id : ℕ) (plan next : Plan) (dto next_dto : WithdrawDto) (db : Db)
    {t : TransactionRecord} {db' : Db}
    → open_withdraw user_id position_id plan dto db ≡ (ok t, db')
    → open_withdraw other plan.position.id next next_dto db' ≡ (err withdraw_in_progress, db')
open_withdraw_exclusive user_id other position_id plan next dto next_dto db {t} {db'} h =
    open_withdraw_refused other plan.position.id next next_dto db'
      (on_ok (open_withdraw-opens user_id position_id plan dto) h)
