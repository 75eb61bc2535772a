-- ===== src/Reconciliation/Arrival.antt =====
-- transaction-reconciliation.service.ts: a whole run of the job, followed for one of its transactions.
use earn_defi_nestjs_backend.Base.{
  ℕ, ◌-◌, ◌*◌, ◌≡◌, refl, Bool, true, false, if◌then◌else◌, some, List, [], ◌∷◌, ◌++◌, inl, inr,
  arith, Option-cases, subst, ap, ◌∙◌,
}
use mathlib.Core.Path.{sym}
use earn_defi_nestjs_backend.Schema.Rows.{Db}
use earn_defi_nestjs_backend.Schema.Chain.{Receipt}
use earn_defi_nestjs_backend.Monad.{Result, ok, err, Action, pure, ◌>>=◌}
use earn_defi_nestjs_backend.Monad.Triple.{Post}
use earn_defi_nestjs_backend.Env.{Env}
use earn_defi_nestjs_backend.Transactions.Service.{TransactionRecord}
use earn_defi_nestjs_backend.Transactions.Service as Transactions
use earn_defi_nestjs_backend.Reconciliation.Lock.{holder, acquire, release}
use earn_defi_nestjs_backend.Reconciliation.Handle.{reconcile_transaction}
use earn_defi_nestjs_backend.Reconciliation.Run.{
  Summary, empty_summary, stale_created_transaction_minutes, fail_stale_all, count_outcome,
  reconcile_all, reconcile_stale_created_transactions, run_reconciliation, finally,
  reconcile_pending_transactions,
}
use earn_defi_nestjs_backend.Books.Reconciled.{IsReadable}
use earn_defi_nestjs_backend.Reconciliation.Progress.{
  Tracked, OthersProgress, reconcile_transaction-Keeps,
}
use earn_defi_nestjs_backend.Reconciliation.Live.{Arrives, reconcile_transaction-Settles}

-- The run returned its summary, and the transaction is as `Tracked` says.
abbrev Ends : ℕ → Bool → Result Summary × Db → Type 0
Ends x b r = ((s : Summary) × (r.0 ≡ ok s)) × Tracked x b r.1

kept :
    (x : ℕ) (b : Bool) {A : Type 0} (r : Result A × Db)
    → Post {A = A} (λ _. Tracked x b) (Tracked x b) r
    → Tracked x b r.1
kept x b (ok a, db) t = t
kept x b (err e, db) t = t

settled :
    (x : ℕ) {A : Type 0} (r : Result A × Db)
    → Post {A = A} (λ _. Tracked x true) (λ db. ⊥) r
    → Tracked x true r.1
settled x (ok a, db) t = t
settled x (err e, db) t = elim t [ ]

reconcile_all-Ends :
    (env : Env) (x : ℕ) (b : Bool)
    → OthersProgress x env
    → (ts : List TransactionRecord) (s : Summary) (db : Db) → Tracked x b db
    → Ends x b (reconcile_all env ts s db)
unfolding reconcile_all
reconcile_all-Ends env x b others [] s db tracked = ((s, refl), tracked)
reconcile_all-Ends env x b others (t ∷ ts) s db tracked =
    let (outcome, db') = reconcile_transaction env t db in
    reconcile_all-Ends env x b others ts (count_outcome outcome s) db' (
      kept x b (reconcile_transaction env t db)
        ((reconcile_transaction-Keeps x b env t others).apply db tracked))

module _ (env : Env) (t : TransactionRecord) (hash : ℕ) (receipt : Receipt) where
  reconcile_all-Tracked :
      OthersProgress t.transaction_id env
      → IsReadable t
      → t.tx_hash ≡ some hash
      → Arrives env t hash receipt
      → (before after : List TransactionRecord) (s : Summary) (db : Db)
      → Tracked t.transaction_id false db
      → Ends t.transaction_id true (reconcile_all env (before ++ t ∷ after) s db)
  unfolding reconcile_all
  reconcile_all-Tracked others readable sent arrives [] after s db tracked =
      reconcile_all-Ends env t.transaction_id true others after _ _ (
        settled t.transaction_id (reconcile_transaction env t db) (
          (reconcile_transaction-Settles env t others hash receipt readable sent arrives).apply db
            tracked))
  reconcile_all-Tracked others readable sent arrives (u ∷ before) after s db tracked =
      reconcile_all-Tracked others readable sent arrives before after _ _ (
        kept t.transaction_id false (reconcile_transaction env u db)
          ((reconcile_transaction-Keeps t.transaction_id false env u others).apply db tracked))

-- A step that returned, and what comes after it.
bind_ok :
    {A B : Type 0} (m : Action A) (f : A → Action B) (db : Db) {a : A} {db' : Db}
    → m db ≡ (ok a, db')
    → (m >>= f) db ≡ f a db'
bind_ok m f db e = ap (λ r. elim r.0 [ ok a ↦ f a r.1 | err e ↦ (err e, r.1) ]) e

-- The lock is given back, or was lost in the meantime; the tables stay.
release-returns :
    (job_id : ℕ) (db : Db)
    → ((release job_id db).0 ≡ ok tt) × ((release job_id db).1.transactions ≡ db.transactions)
unfolding release
release-returns job_id db = elim (Option-cases (holder db.lock db.now)) [
  | inl vacant ↦ ground arith
  | inr (current, e) ↦ ground arith
]

finally-Ends :
    (x job_id : ℕ) (m : Action Summary) (db : Db)
    → Ends x true (m db)
    → Ends x true (finally m (release job_id) db)
finally-Ends x job_id m db ((s, answered), (row, found, fits)) =
    let (returned, same) = release-returns job_id (m db).1 in
    ((s, rw (finally, returned) answered), (row, rw (finally, returned, same) found, fits))

fresh_run :
    (env : Env) (db : Db) (ts : List TransactionRecord)
    → Transactions.find_stale_created (db.now - stale_created_transaction_minutes * 60000) db
      ≡ (ok [], db)
    → Transactions.find_pending_reconciliation db ≡ (ok ts, db)
    → run_reconciliation env db ≡ reconcile_all env ts empty_summary db
unfolding run_reconciliation reconcile_stale_created_transactions fail_stale_all
fresh_run env db ts fresh waiting =
    bind_ok (reconcile_stale_created_transactions empty_summary)
      (λ s. Transactions.find_pending_reconciliation >>= λ waiting. reconcile_all env waiting s) db
      (nothing_stale db fresh)
    ∙ bind_ok Transactions.find_pending_reconciliation
        (λ waiting. reconcile_all env waiting empty_summary) db waiting
  where
    nothing_stale :
        (db : Db)
        → Transactions.find_stale_created (db.now - stale_created_transaction_minutes * 60000) db
          ≡ (ok [], db)
        → reconcile_stale_created_transactions empty_summary db ≡ (ok empty_summary, db)
    nothing_stale db fresh =
        bind_ok
          (Transactions.find_stale_created (db.now - stale_created_transaction_minutes * 60000))
          (λ stale. fail_stale_all stale empty_summary) db fresh

-- A run that gets the lock, finds nothing stale and has a submitted transaction among those it
-- reads returns its summary and leaves that transaction CONFIRMED, REVERTED or FAILED, wherever it
-- stands in the list and whatever happens to the others: when its hash is stored, its metadata
-- record its amount as its shares (for a deposit, with an amount that is not negative, or a
-- withdrawal), one of the three attempts at its receipt succeeds, and no other request takes it back.
pub reconcile_pending_transactions-Tracked :
    (env : Env) (t : TransactionRecord) (hash : ℕ) (receipt : Receipt)
    (before after : List TransactionRecord) (job_id : ℕ) (db locked : Db)
    → acquire job_id db ≡ (ok true, locked)
    → Transactions.find_stale_created
        (locked.now - stale_created_transaction_minutes * 60000)
        locked
      ≡ (ok [], locked)
    → Transactions.find_pending_reconciliation locked ≡ (ok (before ++ t ∷ after), locked)
    → Tracked t.transaction_id false locked
    → OthersProgress t.transaction_id env
    → IsReadable t
    → t.tx_hash ≡ some hash
    → Arrives env t hash receipt
    → let (r, db') = reconcile_pending_transactions env job_id db in
      ((s : Summary) × (r ≡ ok s)) × Tracked t.transaction_id true db'
unfolding reconcile_pending_transactions
reconcile_pending_transactions-Tracked env t hash receipt before after job_id db locked got fresh
      waiting tracked others readable sent arrives =
    let run = finally (run_reconciliation env) (release job_id) in
    subst (Ends t.transaction_id true)
      (sym (
        bind_ok (acquire job_id) (λ acquired. if acquired then run else pure empty_summary) db got))
      (finally-Ends t.transaction_id job_id (run_reconciliation env) locked (
        subst (Ends t.transaction_id true)
          (sym (fresh_run env locked (before ++ t ∷ after) fresh waiting))
          (reconcile_all-Tracked env t hash receipt others readable sent arrives before after
            empty_summary locked tracked)))
