-- ===== src/Tests/Approvals.antt =====
-- Approvals on the wallet and the vault of Tests/Data.
use earn_defi_nestjs_backend.Base.{ℕ, ◌≡◌, refl, true, false, some, [], arith, find_first}
use earn_defi_nestjs_backend.Schema.Status.{TransactionStatus}
use earn_defi_nestjs_backend.Schema.Rows.{Db}
use earn_defi_nestjs_backend.Schema.Chain.{Receipt}
use earn_defi_nestjs_backend.Monad.{Result, ok}
use earn_defi_nestjs_backend.Env.{Env, Moment, before, after}
use earn_defi_nestjs_backend.Validation.{check_deposit_vault, check_wallet}
use earn_defi_nestjs_backend.Approval.{approve_vault}
use earn_defi_nestjs_backend.Approval.Answers.{approve_vault_sent}
use earn_defi_nestjs_backend.Tests.Data.{env, tables, vault, wallet, deposit_dto, receipt}

abbrev empty : Db
empty = tables [] []

-- The transaction is reverted, and 30 are allowed in the end.
abbrev allowance_at : Moment → Result ℕ
allowance_at before = ok 10
allowance_at after = ok 30

abbrev reverted : Receipt
reverted = record receipt { success = false }

abbrev short_env : Env
short_env = record env {
  allowance = λ moment chain_id asset owner spender. allowance_at moment;
  wait_for_receipt = λ chain_id hash. ok reverted;
}

approve_vault_sent_example :
    let (r, db') = approve_vault short_env 1 7 deposit_dto empty in
    (r
      ≡ ok (record {
        vault_id = 7;
        chain_id = 84532;
        wallet_id = 3;
        amount = 40;
        allowance = 30;
        requires_approval = true;
        status = TransactionStatus.reverted;
        transaction_id = 100;
        tx_hash = some 55;
        block_number = some 9;
      }))
    × (db'.positions ≡ [])
unfolding check_deposit_vault check_wallet find_first
approve_vault_sent_example =
    approve_vault_sent short_env 1 7 deposit_dto vault wallet 10 99 30
      (record { hash = 55; transaction_id = some 8 }) reverted empty refl refl refl refl refl
      (omega arith) refl refl refl refl refl
