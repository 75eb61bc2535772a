-- ===== src/Books/Runs.antt =====
-- reconciliation/transaction-reconciliation.service.ts: the books along a run of the job.
use earn_defi_nestjs_backend.Base.{
  ℕ, ◌-◌, ◌*◌, ◌≡◌, refl, subst, true, Option, none, some, List, [], ◌∷◌, map, arith, All, All-map,
  All-take, All-find_many,
}
use earn_defi_nestjs_backend.Schema.Status.{is_open, is_deposit}
use earn_defi_nestjs_backend.Schema.Rows.{Db, Transaction}
use earn_defi_nestjs_backend.Monad.{Result, ok, err, Action}
use earn_defi_nestjs_backend.Monad.Triple.{
  Post, Keeps, KeepsAnd, pure-Keeps, gets-Keeps, bind-Triple, then-Triple, given-Triple,
  readonly-Keeps, if-Triple,
}
use earn_defi_nestjs_backend.Env.{Env}
use earn_defi_nestjs_backend.Transactions.Repository.{is_pending_reconciliation}
use earn_defi_nestjs_backend.Transactions.Order.{All-order_asc}
use earn_defi_nestjs_backend.Transactions.Service.{TransactionRecord, to_record}
use earn_defi_nestjs_backend.Transactions.Service as Transactions
use earn_defi_nestjs_backend.Reconciliation.Lock.{acquire, release}
use earn_defi_nestjs_backend.Reconciliation.Handle.{reconcile_transaction}
use earn_defi_nestjs_backend.Reconciliation.Run.{
  Summary, empty_summary, stale_created_transaction_minutes, fail_stale_position, count_failed,
  count_outcome, fail_stale, fail_stale_all, reconcile_stale_created_transactions, reconcile_all,
  run_reconciliation, finally, reconcile_pending_transactions,
}
use earn_defi_nestjs_backend.Books.{Records, IsRecorded, Claim, Books, OthersKeep}
use earn_defi_nestjs_backend.Books.Operations.{
  find_position-Keeps, mark_failed-Keeps, mark_tx_failed-Keeps, untouched-Keeps,
}
use earn_defi_nestjs_backend.Books.Reconciled.{
  IsReadable, when_pending-Keeps, reconcile_transaction-Keeps,
}

module _ (c : Claim) where
  pub Books-after :
      {A : Type 0} (r : Result A × Db) → Post {A = A} (λ _. Books c) (Books c) r → Books c r.1
  Books-after (ok a, db) p = p
  Books-after (err e, db) p = p

  reconcile_all-Keeps :
      (env : Env) (ts : List TransactionRecord) (summary : Summary)
      → OthersKeep env
      → All IsReadable ts
      → Keeps (Books c) (reconcile_all env ts summary)
  unfolding reconcile_all
  reconcile_all-Keeps env [] summary others readable = record { apply = λ db b. b }
  reconcile_all-Keeps env (t ∷ ts) summary others (readable, rest) = record {
    apply = λ db b.
        let b' = (reconcile_transaction-Keeps c env t others readable).apply db b in
        (reconcile_all-Keeps env ts (count_outcome (reconcile_transaction env t db).0 summary)
            others rest).apply
          (reconcile_transaction env t db).1 (Books-after (reconcile_transaction env t db) b');
  }

  submitted-IsReadable :
      (t : Transaction)
      → IsRecorded t × (is_pending_reconciliation t ≡ true)
      → IsReadable (to_record t)
  submitted-IsReadable t (recorded, waits) =
      let still_open : is_open t.status ≡ true = ground arith in
      subst (λ b. Records b t.type t.metadata t.amount) still_open recorded

  All-to_record :
      (ts : List Transaction)
      → All (λ t. IsReadable (to_record t)) ts
      → All IsReadable (map to_record ts)
  All-to_record [] all = tt
  All-to_record (t ∷ ts) (r, rs) = (r, All-to_record ts rs)

  find_pending_reconciliation-Keeps :
      KeepsAnd (Books c) (All IsReadable) Transactions.find_pending_reconciliation
  unfolding Transactions.find_pending_reconciliation
  find_pending_reconciliation-Keeps = record {
    apply = λ db b. (
      All-to_record _ (
          All-take (λ t. IsReadable (to_record t)) 100 _
            (All-order_asc (λ t. IsReadable (to_record t)) (λ t. t.updated_at) _
              (All-map _ _ _ submitted-IsReadable
                (All-find_many IsRecorded is_pending_reconciliation db.transactions b.recorded)))),
      b,
    );
  }

  fail_stale-Keeps : (t : TransactionRecord) → Keeps (Books c) (fail_stale t)
  unfolding fail_stale
  fail_stale-Keeps t =
      then-Triple (mark_tx_failed-Keeps c t.transaction_id _) (with_position t.position_id)
    where
      with_position : (o : Option ℕ) → Keeps (Books c) (fail_stale_position t o)
      with_position none = pure-Keeps tt
      with_position (some id) =
          if-Triple (is_deposit t.type)
            (bind-Triple (find_position-Keeps c id) λ found.
              when_pending-Keeps c found _
                (λ p. then-Triple (mark_failed-Keeps c p.position_id) (pure-Keeps tt)))
            (pure-Keeps tt)

  fail_stale_all-Keeps :
      (ts : List TransactionRecord) (summary : Summary)
      → Keeps (Books c) (fail_stale_all ts summary)
  unfolding fail_stale_all
  fail_stale_all-Keeps [] summary = pure-Keeps summary
  fail_stale_all-Keeps (t ∷ ts) summary =
      then-Triple (fail_stale-Keeps t) (fail_stale_all-Keeps ts (count_failed summary))

  find_stale_created-Keeps : (n : ℕ) → Keeps (Books c) (Transactions.find_stale_created n)
  unfolding Transactions.find_stale_created
  find_stale_created-Keeps n = readonly-Keeps _ (λ db. refl)

  run_reconciliation-Keeps : (env : Env) → OthersKeep env → Keeps (Books c) (run_reconciliation env)
  unfolding run_reconciliation reconcile_stale_created_transactions
  run_reconciliation-Keeps env others =
      bind-Triple
        (bind-Triple (gets-Keeps (λ db. db.now)) λ now.
          bind-Triple (find_stale_created-Keeps (now - stale_created_transaction_minutes * 60000))
            λ stale. fail_stale_all-Keeps stale empty_summary)
        λ summary. bind-Triple find_pending_reconciliation-Keeps λ waiting.
          given-Triple λ readable. reconcile_all-Keeps env waiting summary others readable

  acquire-Keeps : (job : ℕ) → Keeps (Books c) (acquire job)
  unfolding acquire
  acquire-Keeps job = untouched-Keeps c _ (λ db. ground arith)

  release-Keeps : (job : ℕ) → Keeps (Books c) (release job)
  unfolding release
  release-Keeps job = untouched-Keeps c _ (λ db. ground arith)

  finally-Keeps :
      {A : Type 0} {m : Action A} {k : Action (Unit {0})}
      → Keeps (Books c) m
      → Keeps (Books c) k
      → Keeps (Books c) (finally m k)
  finally-Keeps {A} {m} {k} h f = record {
    apply = λ db b. let r = m db in answer r.0 (k r.1) (f.apply r.1 (Books-after r (h.apply db b)));
  }
    where
      answer :
          (a : Result A) (done : Result (Unit {0}) × Db)
          → Post {A = Unit {0}} (λ _. Books c) (Books c) done
          → Post {A = A}
              (λ _. Books c)
              (Books c)
              (elim done.0 [ ok u ↦ (a, done.1) | err e ↦ (err e, done.1) ])
      answer (ok a) (ok u, db) b = b
      answer (err e) (ok u, db) b = b
      answer a (err e, db) b = b

  -- A run of the reconciliation job, started where the books hold, ends where they hold, whichever
  -- transactions wait and whatever the chain answers, provided the other requests keep them. It
  -- leaves the type and the amount of any one transaction that a request holds on to (the claim) as
  -- they are.
  pub reconcile_pending_transactions-Keeps :
      (env : Env)
      → OthersKeep env
      → (job_id : ℕ) → Keeps (Books c) (reconcile_pending_transactions env job_id)
  unfolding reconcile_pending_transactions
  reconcile_pending_transactions-Keeps env others job_id =
      bind-Triple (acquire-Keeps job_id) λ acquired.
        if-Triple acquired
          (finally-Keeps (run_reconciliation-Keeps env others) (release-Keeps job_id))
          (pure-Keeps empty_summary)

-- Whatever others the job itself meets, as long as these keep the books, the job run at an await of
-- a request is one of the others that keep them, together with what the request holds on to.
pub job-OthersKeep :
    (env : Env) (job_id : ℕ)
    → OthersKeep env
    → OthersKeep
        (record env { others = λ point db. (reconcile_pending_transactions env job_id db).1 })
job-OthersKeep env job_id others point c db b =
    Books-after c (reconcile_pending_transactions env job_id db)
      ((reconcile_pending_transactions-Keeps c env others job_id).apply db b)
