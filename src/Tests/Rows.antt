-- ===== src/Tests/Rows.antt =====
-- Transactions, positions and requests that shut each other out, at concrete rows.
use earn_defi_nestjs_backend.Base.{
  ℕ, suc, ◌≡◌, ◌≢◌, ◌≤ℤ◌, ◌+ℤ◌, refl, Bool, true, false, if◌then◌else◌, Option, none, some, List,
  [], ◌∷◌, ℤ, pos, leb_ℤ, arith, find_first, find_many, map,
}
use earn_defi_nestjs_backend.Schema.Status.{PositionStatus, TransactionType, TransactionStatus}
use earn_defi_nestjs_backend.Schema.Rows.{Db, Position, Transaction, number}
use earn_defi_nestjs_backend.Monad.{ok, err, deposit_in_progress, withdraw_in_progress}
use earn_defi_nestjs_backend.Positions.Repository.{write_row, set_amounts, set_status}
use earn_defi_nestjs_backend.Positions.Repository as PositionRows
use earn_defi_nestjs_backend.Positions.Amounts.{
  IsBacked, even_withdrawal, after_withdraw, write_withdraw, subtract_withdraw_exact,
}
use earn_defi_nestjs_backend.Transactions.Repository.{
  has_id_submitted, write_rows, confirm_submitted,
}
use earn_defi_nestjs_backend.Transactions.Confirm.{
  confirmed_row, confirm_submitted_lem, confirm_submitted_once,
}
use earn_defi_nestjs_backend.Transactions.Service.{to_record}
use earn_defi_nestjs_backend.Transactions.Page.{Filters, with_slug, find_by_user_with_filters}
use earn_defi_nestjs_backend.Transactions.Page.Pages.{first_pages, first_pages-take}
use earn_defi_nestjs_backend.Deposit.{Quote, open_deposit}
use earn_defi_nestjs_backend.Withdraw.{Plan, open_withdraw}
use earn_defi_nestjs_backend.Exclusive.{open_deposit_exclusive, open_withdraw_exclusive}
use earn_defi_nestjs_backend.Reconciliation.Handle.{
  reconciled_deposit_metadata, reconciled_withdraw_metadata, confirm_deposit_transaction,
  confirm_withdraw_transaction, handle_confirmed_transaction,
}
use earn_defi_nestjs_backend.Reconciliation.Run.{fail_stale}
use earn_defi_nestjs_backend.Reconciliation.Settled.{
  with_confirmed, debit, confirm_deposit_transaction_lem, confirm_withdraw_transaction_lem,
  handle_confirmed_once,
}
use earn_defi_nestjs_backend.Reconciliation.Stale.{with_failed, fail_stale_lem}
use earn_defi_nestjs_backend.Tests.Data.{
  tables, vault, vault_row, wallet, position, transaction, receipt, deposit_dto, withdraw_dto,
}

-- The tables with one position and one transaction of it.
abbrev with_one : PositionStatus → TransactionType → TransactionStatus → Db
with_one status type tx_status = tables (position status ∷ []) (transaction type tx_status ∷ [])

abbrev submitted_deposit : Transaction
submitted_deposit = transaction TransactionType.deposit TransactionStatus.submitted

abbrev submitted_withdraw : Transaction
submitted_withdraw = transaction TransactionType.withdraw TransactionStatus.submitted

abbrev settled_deposit : Transaction
settled_deposit = transaction TransactionType.deposit TransactionStatus.confirmed

abbrev stale_withdraw : Transaction
stale_withdraw = record (transaction TransactionType.withdraw TransactionStatus.created) {
  tx_hash = none;
}

abbrev depositing : Db
depositing = with_one PositionStatus.active TransactionType.deposit TransactionStatus.submitted

abbrev withdrawing : Db
withdrawing =
    with_one PositionStatus.withdrawing TransactionType.withdraw TransactionStatus.submitted

abbrev settled : Db
settled = with_one PositionStatus.active TransactionType.deposit TransactionStatus.confirmed

abbrev stalled : Db
stalled = tables (position PositionStatus.withdrawing ∷ []) (stale_withdraw ∷ [])

abbrev first_confirmed : Db
first_confirmed = write_rows (has_id_submitted 40) (confirmed_row 9 none 1000000) depositing

confirm_submitted_once_example :
    confirm_submitted 40 10 none first_confirmed
    ≡ (ok (false, confirmed_row 9 none 1000000 submitted_deposit), first_confirmed)
unfolding confirm_submitted find_first earn_defi_nestjs_backend.Base.update_where
    earn_defi_nestjs_backend.Base.count_where
confirm_submitted_once_example = confirm_submitted_once 40 9 10 none none depositing refl

confirm_submitted_lem_example : confirm_submitted 40 9 none depositing ≡ (
  ok (true, confirmed_row 9 none 1000000 submitted_deposit),
  write_rows (has_id_submitted 40) (confirmed_row 9 none 1000000) depositing,
)
unfolding find_first
confirm_submitted_lem_example =
    confirm_submitted_lem 40 9 none depositing submitted_deposit (refl, tt) refl

abbrev withdrawn : Position
withdrawn = after_withdraw (position PositionStatus.withdrawing) (even_withdrawal (pos 20)) 1000000

subtract_withdraw_exact_example :
    let (r, db') = PositionRows.subtract_withdraw 20 (even_withdrawal (pos 20)) withdrawing in
    (r ≡ ok withdrawn)
    × (find_first (PositionRows.has_id 20) db'.positions ≡ some withdrawn)
    × IsBacked withdrawn
    × (withdrawn.shares +ℤ pos 20 ≡ pos 50)
    × (withdrawn.status ≡ PositionStatus.active)
    × ((other : ℕ)
        → other ≢ 20
        → find_first (PositionRows.has_id other) db'.positions
          ≡ find_first (PositionRows.has_id other) withdrawing.positions)
unfolding find_first
subtract_withdraw_exact_example =
    subtract_withdraw_exact 20 (pos 20) withdrawing (position PositionStatus.withdrawing) refl
      (omega arith, refl, refl) (omega arith)

-- A deposit that adds to an ACTIVE position: the position is not credited.
confirm_deposit_transaction_lem_example :
    confirm_deposit_transaction (to_record submitted_deposit) receipt depositing ≡ (
      ok tt,
      with_confirmed
          (to_record submitted_deposit)
          receipt
          (reconciled_deposit_metadata receipt (number (pos 20)))
          depositing,
    )
unfolding find_first
confirm_deposit_transaction_lem_example =
    confirm_deposit_transaction_lem (to_record submitted_deposit) receipt depositing
      submitted_deposit (position PositionStatus.active) (pos 20) (refl, tt) refl refl refl refl
      refl

confirm_withdraw_transaction_lem_example :
    confirm_withdraw_transaction (to_record submitted_withdraw) receipt withdrawing ≡ (
      ok tt,
      write_row 20
          (write_withdraw (position PositionStatus.withdrawing) (debit (pos 20) (pos 20)) 1000000)
          (with_confirmed
            (to_record submitted_withdraw)
            receipt
            (reconciled_withdraw_metadata receipt (number (pos 20)))
            withdrawing),
    )
unfolding find_first
confirm_withdraw_transaction_lem_example =
    confirm_withdraw_transaction_lem (to_record submitted_withdraw) receipt withdrawing
      submitted_withdraw (position PositionStatus.withdrawing) (pos 20) (refl, tt) refl refl refl
      refl refl

handle_confirmed_once_example :
    handle_confirmed_transaction (to_record submitted_deposit) receipt settled ≡ (ok tt, settled)
unfolding find_first
handle_confirmed_once_example =
    handle_confirmed_once (to_record submitted_deposit) receipt settled settled_deposit (refl, tt)
      refl refl

-- The position of a withdrawal that was never sent stays WITHDRAWING.
fail_stale_lem_example :
    fail_stale (to_record stale_withdraw) stalled
    ≡ (ok tt, with_failed (to_record stale_withdraw) stalled)
unfolding find_first
fail_stale_lem_example =
    fail_stale_lem (to_record stale_withdraw) stalled stale_withdraw
      (position PositionStatus.withdrawing) refl refl refl

abbrev quote : Quote
quote = record {
  vault = vault;
  wallet = wallet;
  wallet_balance = 1000;
  allowance = 1000;
  estimated_shares = 40;
}

abbrev plan : Plan
plan = record {
  position = position PositionStatus.active;
  db_vault = vault_row;
  vault = vault;
  wallet = wallet;
  withdraw_amount = pos 30;
  shares_to_burn = pos 30;
  on_chain_shares = pos 1000;
}

open_deposit_exclusive_example :
    open_deposit 1 10 quote
      (record deposit_dto { amount = 7 })
      (open_deposit 1 10 quote deposit_dto settled).1
    ≡ (err deposit_in_progress, (open_deposit 1 10 quote deposit_dto settled).1)
unfolding open_deposit earn_defi_nestjs_backend.Positions.Service.find_by_user_and_vault find_first
    earn_defi_nestjs_backend.Transactions.Service.has_open_deposit
    earn_defi_nestjs_backend.Transactions.Service.create_transaction
open_deposit_exclusive_example =
    open_deposit_exclusive 1 10 quote quote deposit_dto (record deposit_dto { amount = 7 }) settled
      refl

open_withdraw_exclusive_example :
    open_withdraw 2 20 plan withdraw_dto (open_withdraw 1 20 plan withdraw_dto settled).1
    ≡ (err withdraw_in_progress, (open_withdraw 1 20 plan withdraw_dto settled).1)
unfolding open_withdraw earn_defi_nestjs_backend.Transactions.Service.has_open_withdraw find_first
    earn_defi_nestjs_backend.Positions.Service.mark_withdrawing
    earn_defi_nestjs_backend.Transactions.Service.create_transaction
open_withdraw_exclusive_example =
    open_withdraw_exclusive 1 2 20 plan plan withdraw_dto withdraw_dto settled refl

abbrev deposits : Filters
deposits = record {
  user_id = 1;
  wallet_id = none;
  vault_slug = some 7;
  position_id = none;
  type = some TransactionType.deposit;
  status = none;
}

-- Two deposits of one vault, one to a page.
abbrev two_deposits : Db
two_deposits = tables [] (submitted_deposit ∷ settled_deposit ∷ [])

first_pages-take_example :
    let rows = submitted_deposit ∷ settled_deposit ∷ [] in
    (first_pages deposits (some 1) 2 two_deposits ≡ map (with_slug two_deposits.vaults) rows)
    × (find_by_user_with_filters deposits (some 3) (some 1) two_deposits
        ≡ (ok (record { items = []; total = 2; page = 3; limit = 1 }), two_deposits))
unfolding find_first find_many
first_pages-take_example = first_pages-take deposits (some 1) 2 two_deposits
