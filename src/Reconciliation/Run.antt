-- ===== src/Reconciliation/Run.antt =====
-- transaction-reconciliation.service.ts and transaction-reconciliation.processor.ts: one run of
-- the job over all open transactions.
use earn_defi_nestjs_backend.Base.{
  ℕ, suc, ◌-◌, ◌*◌, if◌then◌else◌, Option, none, some, List, [], ◌∷◌,
}
use earn_defi_nestjs_backend.Schema.Status.{is_deposit}
use earn_defi_nestjs_backend.Schema.Rows.{Metadata, MetaKey, text}
use earn_defi_nestjs_backend.Monad.{Result, ok, err, Action, pure, gets, ◌>>=◌, ◌>>◌}
use earn_defi_nestjs_backend.Env.{Env}
use earn_defi_nestjs_backend.Positions.Service as Positions
use earn_defi_nestjs_backend.Transactions.Service.{TransactionRecord}
use earn_defi_nestjs_backend.Transactions.Service as Transactions
use earn_defi_nestjs_backend.Reconciliation.Lock.{acquire, release}
use earn_defi_nestjs_backend.Reconciliation.Handle.{
  Outcome, confirmed, reverted, pending, when_pending, reconcile_transaction,
}

pub record Summary : Type 0 where
  pub scanned : ℕ
  pub confirmed : ℕ
  pub reverted : ℕ
  pub failed : ℕ
  pub pending : ℕ

abbrev pub empty_summary : Summary
empty_summary = record { scanned = 0; confirmed = 0; reverted = 0; failed = 0; pending = 0 }

abbrev pub stale_created_transaction_minutes : ℕ
stale_created_transaction_minutes = 10

abbrev pub stale_metadata : Metadata
stale_metadata = (MetaKey.reason, text 1) ∷ []

-- A stale deposit takes its pending position with it; a position of any other type is left.
unfoldable pub fail_stale_position : TransactionRecord → Option ℕ → Action (Unit {0})
fail_stale_position transaction none = pure tt
fail_stale_position transaction (some position_id) =
    if is_deposit transaction.type
    then (do
      position ← Positions.find_by_id position_id
      when_pending position (λ p. Positions.mark_failed p.position_id >> pure tt))
    else pure tt

unfoldable pub fail_stale : TransactionRecord → Action (Unit {0})
unfolding fail_stale_position
fail_stale transaction = do
  Transactions.mark_failed transaction.transaction_id (some stale_metadata)
  fail_stale_position transaction transaction.position_id

abbrev pub count_failed : Summary → Summary
count_failed s = record s { scanned = suc s.scanned; failed = suc s.failed }

unfoldable pub fail_stale_all : List TransactionRecord → Summary → Action Summary
unfolding fail_stale
fail_stale_all [] summary = pure summary
fail_stale_all (t ∷ ts) summary = do fail_stale t; fail_stale_all ts (count_failed summary)

unfoldable pub reconcile_stale_created_transactions : Summary → Action Summary
unfolding fail_stale_all
reconcile_stale_created_transactions summary = do
  now ← gets (λ db. db.now)
  stale ← Transactions.find_stale_created (now - stale_created_transaction_minutes * 60000)
  fail_stale_all stale summary

-- The counters after one transaction; one that threw is only scanned.
abbrev pub count_outcome : Result Outcome → Summary → Summary
count_outcome (ok confirmed) s = record s { scanned = suc s.scanned; confirmed = suc s.confirmed }
count_outcome (ok reverted) s = record s { scanned = suc s.scanned; reverted = suc s.reverted }
count_outcome (ok pending) s = record s { scanned = suc s.scanned; pending = suc s.pending }
count_outcome (err e) s = record s { scanned = suc s.scanned }

-- The `for` loop, with its `try` and `catch` for each transaction.
unfoldable pub reconcile_all : Env → List TransactionRecord → Summary → Action Summary
reconcile_all env [] summary db = (ok summary, db)
reconcile_all env (t ∷ ts) summary db =
    let (outcome, db') = reconcile_transaction env t db in
    reconcile_all env ts (count_outcome outcome summary) db'

unfoldable pub run_reconciliation : Env → Action Summary
unfolding reconcile_stale_created_transactions reconcile_all
run_reconciliation env = do
  summary ← reconcile_stale_created_transactions empty_summary
  waiting ← Transactions.find_pending_reconciliation
  reconcile_all env waiting summary

-- `try { … } finally { await release(jobId) }`
abbrev pub finally : {A : Type 0} → Action A → Action (Unit {0}) → Action A
finally m k db =
    let (r, db') = m db in
    let (done, db'') = k db' in elim done [ ok u ↦ (r, db'') | err e ↦ (err e, db'') ]

unfoldable pub reconcile_pending_transactions : Env → ℕ → Action Summary
unfolding run_reconciliation
reconcile_pending_transactions env job_id = do
  acquired ← acquire job_id
  if acquired then finally (run_reconciliation env) (release job_id) else pure empty_summary
