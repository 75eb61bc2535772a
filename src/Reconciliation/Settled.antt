-- ===== src/Reconciliation/Settled.antt =====
-- transaction-reconciliation.service.ts: what a successful receipt does to the transaction and the
-- position.
use earn_defi_nestjs_backend.Base.{
  ℕ, ◌≡◌, false, if◌then◌else◌, Option, some, inl, inr, Bool-cases, ℤ, arith, find_first,
}
use earn_defi_nestjs_backend.Schema.Status.{
  PositionStatus, TransactionStatus, is_pending, is_withdrawing, is_submitted, is_deposit,
  is_withdraw,
}
use earn_defi_nestjs_backend.Schema.Rows.{Db, Transaction, Position, Metadata, number}
use earn_defi_nestjs_backend.Schema.Chain.{Receipt}
use earn_defi_nestjs_backend.Monad.{ok}
use earn_defi_nestjs_backend.Positions.Repository.{
  ActivatePositionInput, WithdrawPositionInput, set_amounts, write_row,
}
use earn_defi_nestjs_backend.Positions.Repository as PositionRows
use earn_defi_nestjs_backend.Positions.Amounts.{write_withdraw, subtract_withdraw_lem}
use earn_defi_nestjs_backend.Positions.Service as Positions
use earn_defi_nestjs_backend.Transactions.Repository.{has_id, has_id_submitted, write_rows}
use earn_defi_nestjs_backend.Transactions.Confirm.{Unique, confirmed_row, confirm_submitted_lem}
use earn_defi_nestjs_backend.Transactions.Service.{TransactionRecord, to_record}
use earn_defi_nestjs_backend.Transactions.Service as Transactions
use earn_defi_nestjs_backend.Reconciliation.Handle.{
  SharesField, read_metadata_string, reconciled_deposit_metadata, reconciled_withdraw_metadata,
  reconciled_other_metadata, credit_pending, debit_withdrawing, confirm_deposit_transaction,
  confirm_withdraw_transaction, confirm_other_transaction, handle_confirmed_transaction,
}

-- The books with the transaction confirmed.
abbrev pub with_confirmed : TransactionRecord → Receipt → Metadata → Db → Db
with_confirmed t receipt metadata db =
    write_rows (has_id_submitted t.transaction_id)
      (confirmed_row receipt.block_number (some metadata) db.now) db

abbrev pub credit : ℤ → ℤ → ActivatePositionInput
credit amount shares = record {
  deposited_amount = amount;
  current_amount = amount;
  shares = shares;
}

abbrev pub debit : ℤ → ℤ → WithdrawPositionInput
debit amount shares = record { withdrawn_amount = amount; shares = shares }

-- Where ids are unique, the transaction is SUBMITTED, its position `p` exists and its metadata names
-- the shares, a successful receipt of a deposit confirms the transaction; the position is given the
-- deposit's amount and shares if it is PENDING, and is left as it is in any other status.
pub confirm_deposit_transaction_lem :
    (t : TransactionRecord) (receipt : Receipt) (db : Db) (row : Transaction) (p : Position)
    (shares : ℤ)
    → Unique db.transactions
    → find_first (has_id t.transaction_id) db.transactions ≡ some row
    → row.status ≡ TransactionStatus.submitted
    → t.position_id ≡ some p.id
    → find_first (PositionRows.has_id p.id) db.positions ≡ some p
    → read_metadata_string SharesField.estimated t.metadata ≡ number shares
    → confirm_deposit_transaction t receipt db ≡ (
      ok tt,
      let db' = with_confirmed t receipt (reconciled_deposit_metadata receipt (number shares)) db in
          if is_pending p.status
          then write_row p.id
              (set_amounts PositionStatus.active (credit t.amount shares) db.now)
              db'
          else db',
    )
unfolding confirm_deposit_transaction credit_pending Positions.find_by_id Positions.activate
    Transactions.confirm_submitted
confirm_deposit_transaction_lem t receipt db row p shares unique found fresh held at_hand named =
    let applied =
      confirm_submitted_lem t.transaction_id receipt.block_number
        (some (reconciled_deposit_metadata receipt (number shares))) db row unique found in
    elim (Bool-cases (is_pending p.status)) [
      | inl waits ↦ ground (arith, applied)
      | inr moved ↦ ground (arith, applied)
    ]

-- Where ids are unique, the transaction is SUBMITTED, its position `p` exists and its metadata names
-- the shares, a successful receipt of a withdrawal confirms the transaction; the amount and the
-- shares are taken off the position if it is WITHDRAWING, and it is left as it is in any other
-- status.
pub confirm_withdraw_transaction_lem :
    (t : TransactionRecord) (receipt : Receipt) (db : Db) (row : Transaction) (p : Position)
    (shares : ℤ)
    → Unique db.transactions
    → find_first (has_id t.transaction_id) db.transactions ≡ some row
    → row.status ≡ TransactionStatus.submitted
    → t.position_id ≡ some p.id
    → find_first (PositionRows.has_id p.id) db.positions ≡ some p
    → read_metadata_string SharesField.burned t.metadata ≡ number shares
    → confirm_withdraw_transaction t receipt db ≡ (
      ok tt,
      let db' =
            with_confirmed t receipt (reconciled_withdraw_metadata receipt (number shares)) db in
          if is_withdrawing p.status
          then write_row p.id (write_withdraw p (debit t.amount shares) db.now) db'
          else db',
    )
unfolding confirm_withdraw_transaction debit_withdrawing Positions.find_by_id
    Positions.subtract_withdraw Transactions.confirm_submitted
confirm_withdraw_transaction_lem t receipt db row p shares unique found fresh held at_hand named =
    let metadata = reconciled_withdraw_metadata receipt (number shares) in
    let applied =
      confirm_submitted_lem t.transaction_id receipt.block_number (some metadata) db row unique
        found in
    let written =
      subtract_withdraw_lem p.id (debit t.amount shares) (with_confirmed t receipt metadata db) p
        at_hand in
    elim (Bool-cases (is_withdrawing p.status)) [
      | inl waits ↦ ground (arith, applied, written)
      | inr moved ↦ ground (arith, applied)
    ]

stays_settled :
    (id block_number : ℕ) (metadata : Option Metadata) (db : Db) (row : Transaction)
    → Unique db.transactions
    → find_first (has_id id) db.transactions ≡ some row
    → is_submitted row.status ≡ false
    → Transactions.confirm_submitted id block_number metadata db ≡ (ok (false, to_record row), db)
unfolding Transactions.confirm_submitted
stays_settled id block_number metadata db row unique found settled =
    ground (arith, confirm_submitted_lem id block_number metadata db row unique found)

-- Where ids are unique and the transaction is in any status but SUBMITTED, a successful receipt
-- changes nothing, whatever the type and the metadata of the transaction: what the other party
-- settled is not settled again.
pub handle_confirmed_once :
    (t : TransactionRecord) (receipt : Receipt) (db : Db) (row : Transaction)
    → Unique db.transactions
    → find_first (has_id t.transaction_id) db.transactions ≡ some row
    → is_submitted row.status ≡ false
    → handle_confirmed_transaction t receipt db ≡ (ok tt, db)
unfolding handle_confirmed_transaction confirm_deposit_transaction confirm_withdraw_transaction
    confirm_other_transaction credit_pending debit_withdrawing
handle_confirmed_once t receipt db row unique found settled =
    let stays = λ (m : Metadata).
      stays_settled t.transaction_id receipt.block_number (some m) db row unique found settled in
    let deposit = stays (
      reconciled_deposit_metadata receipt
        (read_metadata_string SharesField.estimated t.metadata)) in
    let withdraw =
      stays (
        reconciled_withdraw_metadata receipt
          (read_metadata_string SharesField.burned t.metadata)) in
    let other = stays (reconciled_other_metadata receipt) in
    elim (Bool-cases (is_deposit t.type)) [
      | inl d ↦ ground (arith, deposit)
      | inr nd ↦ elim (Bool-cases (is_withdraw t.type)) [
        | inl w ↦ ground (arith, withdraw)
        | inr nw ↦ ground (arith, other)
      ]
    ]
