-- ===== src/Reconciliation/Accounting.antt =====
-- transaction-reconciliation.service.ts: the counters of the summary.
use earn_defi_nestjs_backend.Base.{
  ℕ, zero, suc, ◌+◌, ◌-◌, ◌*◌, ◌≤◌, ◌≡◌, List, [], ◌∷◌, map, arith, take, length,
}
use earn_defi_nestjs_backend.Schema.Rows.{Db, Transaction}
use earn_defi_nestjs_backend.Monad.{Result, ok, err, Action, gets}
use earn_defi_nestjs_backend.Monad.Triple.{Post, then-Triple, if-Triple, Triple-mono}
use earn_defi_nestjs_backend.Monad.Value.{
  Anything, Gives, any-Gives, pure-Gives, known-Triple, on_ok,
}
use earn_defi_nestjs_backend.Env.{Env}
use earn_defi_nestjs_backend.Transactions.Service.{TransactionRecord, to_record}
use earn_defi_nestjs_backend.Transactions.Service as Transactions
use earn_defi_nestjs_backend.Reconciliation.Lock.{acquire, release}
use earn_defi_nestjs_backend.Reconciliation.Handle.{
  Outcome, confirmed, reverted, pending, reconcile_transaction,
}
use earn_defi_nestjs_backend.Reconciliation.Run.{
  Summary, empty_summary, stale_created_transaction_minutes, count_failed, count_outcome,
  fail_stale, fail_stale_all, reconcile_stale_created_transactions, reconcile_all,
  run_reconciliation, finally, reconcile_pending_transactions,
}

-- The transactions with an outcome are at most those scanned, and those at most `n`.
abbrev pub IsAccounted : ℕ → Summary → Type 0
IsAccounted n s = (s.confirmed + s.reverted + s.failed + s.pending ≤ s.scanned) × (s.scanned ≤ n)

count_outcome-IsAccounted :
    (outcome : Result Outcome) (n : ℕ) (s : Summary)
    → IsAccounted n s
    → IsAccounted (suc n) (count_outcome outcome s)
count_outcome-IsAccounted (ok confirmed) n s h = (omega arith, omega arith)
count_outcome-IsAccounted (ok reverted) n s h = (omega arith, omega arith)
count_outcome-IsAccounted (ok pending) n s h = (omega arith, omega arith)
count_outcome-IsAccounted (err e) n s h = (omega arith, omega arith)

reconcile_all-IsAccounted :
    (env : Env) (ts : List TransactionRecord) (n : ℕ) (s : Summary)
    → IsAccounted n s
    → Gives (IsAccounted (n + length ts)) (reconcile_all env ts s)
unfolding reconcile_all
reconcile_all-IsAccounted env [] n s h = record { apply = λ db u. (omega arith, omega arith) }
reconcile_all-IsAccounted env (t ∷ ts) n s h = record {
  apply = λ db u.
      let outcome = (reconcile_transaction env t db).0 in
      let rest =
        (reconcile_all-IsAccounted env ts (suc n) (count_outcome outcome s)
            (count_outcome-IsAccounted outcome n s h)).apply
          (reconcile_transaction env t db).1 tt in
      widen (reconcile_all env ts (count_outcome outcome s) (reconcile_transaction env t db).1)
        rest;
}
  where
    widen :
        (r : Result Summary × Db)
        → Post (λ s db. IsAccounted (suc n + length ts) s) Anything r
        → Post (λ s db. IsAccounted (n + suc (length ts)) s) Anything r
    widen (ok s, db) q = (q.0, omega arith)
    widen (err e, db) q = tt

fail_stale_all-IsAccounted :
    (ts : List TransactionRecord) (n : ℕ) (s : Summary)
    → IsAccounted n s
    → Gives (IsAccounted (n + length ts)) (fail_stale_all ts s)
unfolding fail_stale_all
fail_stale_all-IsAccounted [] n s h = record { apply = λ db u. (omega arith, omega arith) }
fail_stale_all-IsAccounted (t ∷ ts) n s h = then-Triple (any-Gives (fail_stale t)) (
    Triple-mono (fail_stale_all-IsAccounted ts (suc n) (count_failed s) (omega arith, omega arith))
      (λ s db q. (q.0, omega arith)) (λ db u. tt))

length-batch : (n : ℕ) (ts : List Transaction) → length (map to_record (take n ts)) ≤ n
length-batch zero ts = omega arith
length-batch (suc n) [] = omega arith
length-batch (suc n) (t ∷ ts) = let rest = length-batch n ts in omega arith

find_stale_created-length :
    (older_than : ℕ) → Gives (λ ts. length ts ≤ 50) (Transactions.find_stale_created older_than)
unfolding Transactions.find_stale_created
find_stale_created-length older_than = record { apply = λ db u. length-batch 50 _ }

find_pending_reconciliation-length :
    Gives (λ ts. length ts ≤ 100) Transactions.find_pending_reconciliation
unfolding Transactions.find_pending_reconciliation
find_pending_reconciliation-length = record { apply = λ db u. length-batch 100 _ }

reconcile_stale-IsAccounted :
    Gives (IsAccounted 50) (reconcile_stale_created_transactions empty_summary)
unfolding reconcile_stale_created_transactions
reconcile_stale-IsAccounted = known-Triple (any-Gives (gets (λ db. db.now))) λ now u.
    known-Triple (find_stale_created-length (now - stale_created_transaction_minutes * 60000))
      λ stale few.
        Triple-mono (fail_stale_all-IsAccounted stale 0 empty_summary (omega arith, omega arith))
          (λ s db q. (q.0, omega arith)) (λ db u. tt)

run_reconciliation-IsAccounted : (env : Env) → Gives (IsAccounted 150) (run_reconciliation env)
unfolding run_reconciliation
run_reconciliation-IsAccounted env = known-Triple reconcile_stale-IsAccounted λ s h.
    known-Triple find_pending_reconciliation-length λ waiting few.
      Triple-mono (reconcile_all-IsAccounted env waiting 50 s h) (λ s db q. (q.0, omega arith))
        (λ db u. tt)

finally-Gives :
    {A : Type 0} {F : A → Type 0} {m : Action A} (k : Action (Unit {0}))
    → Gives F m
    → Gives F (finally m k)
finally-Gives {A} {F} {m} k h = record {
  apply = λ db u. let r = m db in answer r.0 r.1 (k r.1) (h.apply db tt);
}
  where
    answer :
        (a : Result A) (db : Db) (done : Result (Unit {0}) × Db)
        → Post {A = A} (λ a db. F a) Anything (a, db)
        → Post {A = A}
            (λ a db. F a)
            Anything
            (elim done.0 [ ok u ↦ (a, done.1) | err e ↦ (err e, done.1) ])
    answer (ok a) db (ok u, db') q = q
    answer (err e) db (ok u, db') q = tt
    answer a db (err e, db') q = tt

run-IsAccounted :
    (env : Env) (job_id : ℕ) → Gives (IsAccounted 150) (reconcile_pending_transactions env job_id)
unfolding reconcile_pending_transactions
run-IsAccounted env job_id = known-Triple (any-Gives (acquire job_id)) λ acquired u.
    if-Triple acquired (finally-Gives (release job_id) (run_reconciliation-IsAccounted env))
      (pure-Gives empty_summary (omega arith, omega arith))

-- The summary that a run of the job returns accounts for its work: the transactions counted as
-- confirmed, reverted, failed or pending are together at most those scanned, and one run scans at
-- most 150.
reconcile_pending_transactions-IsAccounted :
    (env : Env) (job_id : ℕ) (db : Db) {s : Summary} {db' : Db}
    → reconcile_pending_transactions env job_id db ≡ (ok s, db')
    → (s.confirmed + s.reverted + s.failed + s.pending ≤ s.scanned) × (s.scanned ≤ 150)
reconcile_pending_transactions-IsAccounted env job_id db {s} {db'} h =
    on_ok (run-IsAccounted env job_id) h
