-- ===== src/Tests/Books.antt =====
-- The services run on the wallet, the vault and the position of Tests/Data.
use earn_defi_nestjs_backend.Base.{
  ℕ, ◌≡◌, refl, Bool, true, false, Option, none, some, List, [], ◌∷◌, ℤ, pos, arith,
}
use earn_defi_nestjs_backend.Schema.Status.{PositionStatus, TransactionType, TransactionStatus}
use earn_defi_nestjs_backend.Schema.Rows.{Db}
use earn_defi_nestjs_backend.Monad.{Result, ok, err}
use earn_defi_nestjs_backend.Monad.Triple.{Post}
use earn_defi_nestjs_backend.Env.{Env}
use earn_defi_nestjs_backend.Deposit.{deposit_vault}
use earn_defi_nestjs_backend.Withdraw.{plan_withdraw, withdraw_position}
use earn_defi_nestjs_backend.Reconciliation.Run.{reconcile_pending_transactions}
use earn_defi_nestjs_backend.Books.{Books, OthersKeep}
use earn_defi_nestjs_backend.Books.Deposits.{deposit_vault-Keeps}
use earn_defi_nestjs_backend.Books.Plan.{IsSound, plan_withdraw-IsSound}
use earn_defi_nestjs_backend.Books.Withdrawals.{withdraw_position-Keeps}
use earn_defi_nestjs_backend.Books.Runs.{reconcile_pending_transactions-Keeps, job-OthersKeep}
use earn_defi_nestjs_backend.Tests.Data.{
  env, tables, position, transaction, deposit_dto, withdraw_dto,
}

abbrev holding : Db
holding = tables (position PositionStatus.active ∷ []) []

abbrev waiting : Db
waiting =
    tables (position PositionStatus.pending ∷ [])
      (transaction TransactionType.deposit TransactionStatus.submitted ∷ [])

env_keeps : OthersKeep env
env_keeps point c db b = b

-- The same chain, with the job running at every await.
abbrev job_env : Env
job_env = record env { others = λ point db. (reconcile_pending_transactions env 5 db).1 }

job_env_keeps : OthersKeep job_env
job_env_keeps = job-OthersKeep env 5 env_keeps

holding-Books : Books none holding
holding-Books = record {
  backed = ((omega arith, refl, refl), tt);
  recorded = tt;
  fresh = tt;
  agrees = tt;
  given = tt;
}

waiting-Books : Books none waiting
waiting-Books = record {
  backed = ((omega arith, refl, refl), tt);
  recorded = ((refl, omega arith), tt);
  fresh = (omega arith, tt);
  agrees = (tt, tt);
  given = tt;
}

deposit_vault-Keeps_example :
    Post (λ r. Books none) (Books none) (deposit_vault job_env 1 7 deposit_dto holding)
deposit_vault-Keeps_example =
    (deposit_vault-Keeps job_env job_env_keeps 1 7 deposit_dto).apply holding holding-Books

withdraw_position-Keeps_example :
    Post (λ r. Books none) (Books none) (withdraw_position job_env 1 20 withdraw_dto holding)
withdraw_position-Keeps_example =
    (withdraw_position-Keeps job_env job_env_keeps 1 20 withdraw_dto).apply holding holding-Books

reconcile_pending_transactions-Keeps_example :
    Post (λ r. Books none) (Books none) (reconcile_pending_transactions env 5 waiting)
reconcile_pending_transactions-Keeps_example =
    (reconcile_pending_transactions-Keeps none env env_keeps 5).apply waiting waiting-Books

plan_withdraw-IsSound_example :
    Post
      (λ plan db. IsSound env 1 20 withdraw_dto plan × Books none db)
      (Books none)
      (plan_withdraw env 1 20 withdraw_dto holding)
plan_withdraw-IsSound_example =
    (plan_withdraw-IsSound env 1 20 withdraw_dto).apply holding holding-Books

-- The shares of the first position, and the status of the first transaction.
abbrev shares_left : {A : Type 0} → Result A × Db → Option ℤ
shares_left (r, db) = elim db.positions [ [] ↦ none | p ∷ ps ↦ some p.shares ]

abbrev last_status : {A : Type 0} → Result A × Db → Option TransactionStatus
last_status (r, db) = elim db.transactions [ [] ↦ none | t ∷ ts ↦ some t.status ]

deposit_test : shares_left (deposit_vault env 1 7 deposit_dto holding) ≡ some (pos 90)
unfolding deposit_vault earn_defi_nestjs_backend.RateLimit.assert_deposit_allowed
    earn_defi_nestjs_backend.Validation.check_deposit_vault earn_defi_nestjs_backend.Base.find_first
    earn_defi_nestjs_backend.Validation.check_wallet earn_defi_nestjs_backend.Vaults.find_or_create
    earn_defi_nestjs_backend.Positions.Service.find_by_user_and_vault
    earn_defi_nestjs_backend.Transactions.Service.has_open_deposit
    earn_defi_nestjs_backend.Transactions.Service.create_transaction
    earn_defi_nestjs_backend.Monad.log_audit
    earn_defi_nestjs_backend.Blockchain.encode_vault_deposit
    earn_defi_nestjs_backend.Transactions.Service.mark_submitted
    earn_defi_nestjs_backend.Transactions.Service.confirm_submitted
    earn_defi_nestjs_backend.Base.update_where earn_defi_nestjs_backend.Base.count_where
    earn_defi_nestjs_backend.Positions.Service.add_deposit earn_defi_nestjs_backend.Base.◌+ℤ◌
deposit_test = refl

deposit_status_test :
    last_status (deposit_vault env 1 7 deposit_dto holding) ≡ some TransactionStatus.confirmed
unfolding deposit_vault earn_defi_nestjs_backend.RateLimit.assert_deposit_allowed
    earn_defi_nestjs_backend.Validation.check_deposit_vault earn_defi_nestjs_backend.Base.find_first
    earn_defi_nestjs_backend.Validation.check_wallet earn_defi_nestjs_backend.Vaults.find_or_create
    earn_defi_nestjs_backend.Positions.Service.find_by_user_and_vault
    earn_defi_nestjs_backend.Transactions.Service.has_open_deposit
    earn_defi_nestjs_backend.Transactions.Service.create_transaction
    earn_defi_nestjs_backend.Monad.log_audit
    earn_defi_nestjs_backend.Blockchain.encode_vault_deposit
    earn_defi_nestjs_backend.Transactions.Service.mark_submitted
    earn_defi_nestjs_backend.Transactions.Service.confirm_submitted
    earn_defi_nestjs_backend.Base.update_where earn_defi_nestjs_backend.Base.count_where
    earn_defi_nestjs_backend.Positions.Service.add_deposit
deposit_status_test = refl

withdraw_test : shares_left (withdraw_position env 1 20 withdraw_dto holding) ≡ some (pos 20)
unfolding withdraw_position earn_defi_nestjs_backend.RateLimit.assert_withdraw_allowed
    earn_defi_nestjs_backend.Positions.Service.find_by_id_with_vault
    earn_defi_nestjs_backend.Base.find_first
    earn_defi_nestjs_backend.Validation.check_withdraw_vault
    earn_defi_nestjs_backend.Validation.check_wallet
    earn_defi_nestjs_backend.Transactions.Service.has_open_withdraw
    earn_defi_nestjs_backend.Positions.Service.mark_withdrawing
    earn_defi_nestjs_backend.Transactions.Service.create_transaction
    earn_defi_nestjs_backend.Monad.log_audit
    earn_defi_nestjs_backend.Blockchain.encode_vault_withdraw
    earn_defi_nestjs_backend.Transactions.Service.mark_submitted
    earn_defi_nestjs_backend.Transactions.Service.confirm_submitted
    earn_defi_nestjs_backend.Base.update_where earn_defi_nestjs_backend.Base.count_where
    earn_defi_nestjs_backend.Positions.Service.subtract_withdraw earn_defi_nestjs_backend.Base.◌-ℤ◌
withdraw_test = refl

reconcile_test : shares_left (reconcile_pending_transactions env 5 waiting) ≡ some (pos 20)
unfolding reconcile_pending_transactions
    earn_defi_nestjs_backend.Reconciliation.Run.run_reconciliation
    earn_defi_nestjs_backend.Reconciliation.Run.reconcile_stale_created_transactions
    earn_defi_nestjs_backend.Reconciliation.Run.fail_stale_all
    earn_defi_nestjs_backend.Reconciliation.Run.reconcile_all
    earn_defi_nestjs_backend.Reconciliation.Handle.reconcile_transaction
    earn_defi_nestjs_backend.Reconciliation.Handle.reconcile_hash
    earn_defi_nestjs_backend.Reconciliation.Handle.handle_confirmed_transaction
    earn_defi_nestjs_backend.Reconciliation.Handle.confirm_deposit_transaction
    earn_defi_nestjs_backend.Reconciliation.Handle.credit_pending
    earn_defi_nestjs_backend.Reconciliation.Lock.acquire
    earn_defi_nestjs_backend.Reconciliation.Lock.release
    earn_defi_nestjs_backend.Transactions.Service.find_stale_created
    earn_defi_nestjs_backend.Transactions.Service.find_pending_reconciliation
    earn_defi_nestjs_backend.Transactions.Repository.order_asc
    earn_defi_nestjs_backend.Base.find_many
    earn_defi_nestjs_backend.Transactions.Service.confirm_submitted
    earn_defi_nestjs_backend.Positions.Service.find_by_id
    earn_defi_nestjs_backend.Positions.Service.activate
    earn_defi_nestjs_backend.Blockchain.get_transaction_receipt_with_retry
    earn_defi_nestjs_backend.Base.find_first earn_defi_nestjs_backend.Base.update_where
    earn_defi_nestjs_backend.Base.count_where
reconcile_test = refl
