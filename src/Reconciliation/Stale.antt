-- ===== src/Reconciliation/Stale.antt =====
-- transaction-reconciliation.service.ts: what the job does with a transaction that was never
-- broadcast.
use earn_defi_nestjs_backend.Base.{
  ◌≡◌, ◌&&◌, if◌then◌else◌, some, inl, inr, Bool-cases, arith, find_first,
}
use earn_defi_nestjs_backend.Schema.Status.{PositionStatus, is_pending, is_deposit}
use earn_defi_nestjs_backend.Schema.Rows.{Db, Transaction, Position}
use earn_defi_nestjs_backend.Monad.{ok}
use earn_defi_nestjs_backend.Positions.Repository.{set_status, write_row}
use earn_defi_nestjs_backend.Positions.Repository as PositionRows
use earn_defi_nestjs_backend.Positions.Service as Positions
use earn_defi_nestjs_backend.Transactions.Repository.{has_id, apply_update, write_rows}
use earn_defi_nestjs_backend.Transactions.Service.{TransactionRecord, failure}
use earn_defi_nestjs_backend.Transactions.Service as Transactions
use earn_defi_nestjs_backend.Reconciliation.Run.{stale_metadata, fail_stale, fail_stale_position}

-- The books with the transaction failed.
abbrev pub with_failed : TransactionRecord → Db → Db
with_failed t db =
    write_rows (has_id t.transaction_id) (apply_update (failure (some stale_metadata)) db.now) db

-- A stale transaction with a position `p`, both in the tables, becomes FAILED; a PENDING position of
-- a deposit becomes FAILED with it, and every other position stays as it is: in particular that of
-- a withdrawal, which the request had made WITHDRAWING.
pub fail_stale_lem :
    (t : TransactionRecord) (db : Db) (row : Transaction) (p : Position)
    → find_first (has_id t.transaction_id) db.transactions ≡ some row
    → t.position_id ≡ some p.id
    → find_first (PositionRows.has_id p.id) db.positions ≡ some p
    → fail_stale t db ≡ (
      ok tt,
      if is_deposit t.type && is_pending p.status
          then write_row p.id (set_status PositionStatus.failed db.now) (with_failed t db)
          else with_failed t db,
    )
unfolding fail_stale fail_stale_position Transactions.mark_failed Positions.find_by_id
    Positions.mark_failed
fail_stale_lem t db row p found held at_hand = elim (Bool-cases (is_deposit t.type)) [
  | inl deposit ↦ elim (Bool-cases (is_pending p.status)) [
    | inl waits ↦ ground arith
    | inr moved ↦ ground arith
  ]
  | inr other ↦ ground arith
]
