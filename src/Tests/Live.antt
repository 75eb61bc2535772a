-- ===== src/Tests/Live.antt =====
-- A run of the job over two submitted transactions, and the theorem at it.
use earn_defi_nestjs_backend.Base.{◌≡◌, refl, arith, true, some, [], ◌∷◌, find_first, find_many}
use earn_defi_nestjs_backend.Schema.Status.{PositionStatus, TransactionType, TransactionStatus}
use earn_defi_nestjs_backend.Schema.Rows.{Db, Transaction}
use earn_defi_nestjs_backend.Monad.{ok}
use earn_defi_nestjs_backend.Transactions.Service.{
  to_record, find_stale_created, find_pending_reconciliation,
}
use earn_defi_nestjs_backend.Transactions.Repository.{order_asc}
use earn_defi_nestjs_backend.Blockchain.{retry_from}
use earn_defi_nestjs_backend.Reconciliation.Lock.{acquire}
use earn_defi_nestjs_backend.Reconciliation.Run.{Summary, reconcile_pending_transactions}
use earn_defi_nestjs_backend.Reconciliation.Progress.{Tracked}
use earn_defi_nestjs_backend.Reconciliation.Arrival.{reconcile_pending_transactions-Tracked}
use earn_defi_nestjs_backend.Tests.Data.{env, receipt, tables, position, transaction}

abbrev first : Transaction
first = record (transaction TransactionType.approval TransactionStatus.submitted) { id = 41 }

abbrev second : Transaction
second = record (transaction TransactionType.deposit TransactionStatus.submitted) { updated_at = 7 }

abbrev two_open : Db
two_open = tables (position PositionStatus.pending ∷ []) (second ∷ first ∷ [])

abbrev two_open_locked : Db
two_open_locked = record two_open { lock = some (5, 1025000) }

reconcile_pending_transactions-Tracked_example :
    let (r, db') = reconcile_pending_transactions env 5 two_open in
    ((s : Summary) × (r ≡ ok s)) × Tracked 40 true db'
unfolding acquire find_stale_created find_pending_reconciliation order_asc find_first find_many
    retry_from
reconcile_pending_transactions-Tracked_example =
    reconcile_pending_transactions-Tracked env (to_record second) 55 receipt (to_record first ∷ [])
      [] 5 two_open two_open_locked refl refl refl (second, refl, refl)
      (λ point b db tracked. tracked) (refl, omega arith) refl refl
