-- ===== src/Reconciliation/Progress.antt =====
-- transaction-reconciliation.service.ts: a submitted transaction while the job works on others.
use earn_defi_nestjs_backend.Base.{
  ℕ, ◌≡◌, ◌⊎◌, refl, Bool, true, false, if◌then◌else◌, ◌||◌, Option, none, some, ℤ, inl, inr, arith,
  Bool-cases, Option-cases, find_first, find_first-update_keyed, update_where,
}
use earn_defi_nestjs_backend.Schema.Status.{
  TransactionType, TransactionStatus, is_submitted, is_deposit, is_withdraw,
}
use earn_defi_nestjs_backend.Schema.Rows.{Db, Transaction, Metadata, MetaValue}
use earn_defi_nestjs_backend.Schema.Chain.{Receipt}
use earn_defi_nestjs_backend.Monad.{Result, ok, err, Action, log_audit}
use earn_defi_nestjs_backend.Monad.Triple.{
  Post, Keeps, pure-Keeps, lift-Keeps, atomic-Triple, bind-Triple, then-Triple, modify-Keeps,
  if-Triple,
}
use earn_defi_nestjs_backend.Env.{Env, Await, at_receipt}
use earn_defi_nestjs_backend.Blockchain.{get_transaction_receipt_with_retry}
use earn_defi_nestjs_backend.Positions.Service as Positions
use earn_defi_nestjs_backend.Transactions.Repository.{has_id, has_id_submitted}
use earn_defi_nestjs_backend.Transactions.Repository
use earn_defi_nestjs_backend.Transactions.Service.{TransactionRecord}
use earn_defi_nestjs_backend.Transactions.Service as Transactions
use earn_defi_nestjs_backend.Reconciliation.Handle.{
  confirmed, reverted, pending, credit_pending, debit_withdrawing, confirm_deposit_transaction,
  confirm_withdraw_transaction, log_confirmed_audit, confirm_other_transaction,
  handle_confirmed_transaction, give_back, handle_reverted_transaction, reconcile_hash,
  reconcile_transaction,
}

abbrev pub is_done : TransactionStatus → Bool
is_done TransactionStatus.confirmed = true
is_done TransactionStatus.failed = true
is_done TransactionStatus.reverted = true
is_done _ = false

-- The transaction is in the table, and is SUBMITTED or done; or, with `true`, it is done.
abbrev pub is_allowed : Bool → TransactionStatus → Bool
is_allowed true status = is_done status
is_allowed false status = is_submitted status || is_done status

abbrev pub Tracked : ℕ → Bool → Db → Type 0
Tracked x b db =
    (row : Transaction) × (find_first (has_id x) db.transactions ≡ some row)
    × (is_allowed b row.status ≡ true)

-- The other requests do not take the transaction back: one that is SUBMITTED stays so or is done, and
-- one that is done stays done.
abbrev pub OthersProgress : ℕ → Env → Type 0
OthersProgress x env =
    (point : Await) (b : Bool) (db : Db) → Tracked x b db → Tracked x b (env.others point db)

module _ (x : ℕ) (b : Bool) where
  -- A write of a status that is done.
  write_done :
      (p : Transaction → Bool) (f : Transaction → Transaction) (db db' : Db)
      → ((a : Transaction) → (f a).id ≡ a.id)
      → ((a : Transaction) → is_done (f a).status ≡ true)
      → db'.transactions ≡ update_where p f db.transactions
      → Tracked x b db
      → Tracked x b db'
  write_done p f db db' same done written (row, found, fits) =
      let seen =
        find_first-update_keyed (has_id x) p f db.transactions row (λ a. rw (same a) refl) found in
      (
        (if p row then f row else row),
        rw written seen,
        elim (Bool-cases (p row)) [
          | inl hit ↦ rw hit (allowed b (f row).status (done row))
          | inr miss ↦ rw miss fits
        ],
      )
    where
      allowed : (c : Bool) (s : TransactionStatus) → is_done s ≡ true → is_allowed c s ≡ true
      allowed true s h = h
      allowed false s h = ground arith

  -- A method that leaves the transactions alone.
  untracked :
      {A : Type 0} (m : Action A)
      → ((db : Db) → (m db).1.transactions ≡ db.transactions)
      → Keeps (Tracked x b) m
  untracked m same = record {
    apply = λ db (row, found, fits). go (m db) (row, rw (same db) found, fits);
  }
    where
      go :
          {A : Type 0} (r : Result A × Db)
          → Tracked x b r.1
          → Post {A = A} (λ _. Tracked x b) (Tracked x b) r
      go (ok a, db) t = t
      go (err e, db) t = t

  after_done :
      {A : Type 0} (m : Action A) (p : Db → Transaction → Bool) (f : Db → Transaction → Transaction)
      → ((db : Db) (a : Transaction) → (f db a).id ≡ a.id)
      → ((db : Db) (a : Transaction) → is_done (f db a).status ≡ true)
      → ((db : Db)
          → ((m db).1.transactions ≡ update_where (p db) (f db) db.transactions)
            ⊎ ((m db).1.transactions ≡ db.transactions))
      → Keeps (Tracked x b) m
  after_done m p f same done written = record { apply = λ db t. go (m db) (step db t (written db)) }
    where
      go :
          {A : Type 0} (r : Result A × Db)
          → Tracked x b r.1
          → Post {A = A} (λ _. Tracked x b) (Tracked x b) r
      go (ok a, db) t = t
      go (err e, db) t = t

      step :
          (db : Db)
          → Tracked x b db
          → ((m db).1.transactions ≡ update_where (p db) (f db) db.transactions)
            ⊎ ((m db).1.transactions ≡ db.transactions)
          → Tracked x b (m db).1
      step db t (inl w) = write_done (p db) (f db) db (m db).1 (same db) (done db) w t
      step db (row, found, fits) (inr w) = (row, rw w found, fits)

  confirm_submitted-Keeps :
      (id block_number : ℕ) (metadata : Option Metadata)
      → Keeps (Tracked x b) (Transactions.confirm_submitted id block_number metadata)
  unfolding Transactions.confirm_submitted Repository.confirm_submitted
  confirm_submitted-Keeps id block_number metadata =
      after_done _ (λ db. has_id_submitted id)
        (λ db. Repository.apply_update (Repository.confirmation block_number metadata) db.now)
        (λ db a. refl) (λ db a. refl) (λ db. inl (ground arith))

  mark_reverted-Keeps :
      (id block_number : ℕ) (metadata : Option Metadata)
      → Keeps (Tracked x b) (Transactions.mark_reverted id block_number metadata)
  unfolding Transactions.mark_reverted
  mark_reverted-Keeps id block_number metadata =
      after_done _ (λ db. has_id id)
        (λ db. Repository.apply_update (Transactions.reversal block_number metadata) db.now)
        (λ db a. refl) (λ db a. refl)
        λ db. elim (Option-cases (find_first (has_id id) db.transactions)) [
          | inl missing ↦ inr (ground arith)
          | inr (row, found) ↦ inl (ground arith)
        ]

  credit_pending-Keeps :
      (applied : Bool) (id : Option ℕ) (n : ℤ) (m : MetaValue)
      → Keeps (Tracked x b) (credit_pending applied id n m)
  unfolding credit_pending Positions.find_by_id Positions.activate
  credit_pending-Keeps true (some id) n m = untracked _ (λ db. ground arith)
  credit_pending-Keeps true none n m = untracked _ (λ db. refl)
  credit_pending-Keeps false id n m = untracked _ (λ db. refl)

  debit_withdrawing-Keeps :
      (applied : Bool) (id : Option ℕ) (n : ℤ) (m : MetaValue)
      → Keeps (Tracked x b) (debit_withdrawing applied id n m)
  unfolding debit_withdrawing Positions.find_by_id Positions.subtract_withdraw
  debit_withdrawing-Keeps true (some id) n m = untracked _ (λ db. ground arith)
  debit_withdrawing-Keeps true none n m = untracked _ (λ db. refl)
  debit_withdrawing-Keeps false id n m = untracked _ (λ db. refl)

  give_back-Keeps :
      (type : TransactionType) (id : Option ℕ) → Keeps (Tracked x b) (give_back type id)
  unfolding give_back Positions.find_by_id Positions.mark_failed Positions.mark_active
  give_back-Keeps type none = untracked _ (λ db. refl)
  give_back-Keeps TransactionType.deposit (some id) = untracked _ (λ db. ground arith)
  give_back-Keeps TransactionType.withdraw (some id) = untracked _ (λ db. ground arith)
  give_back-Keeps _ (some id) = untracked _ (λ db. ground arith)

  log_confirmed_audit-Keeps :
      (t : TransactionRecord) (id : ℕ) (hash : Option ℕ)
      → Keeps (Tracked x b) (log_confirmed_audit t id hash)
  unfolding log_confirmed_audit log_audit
  log_confirmed_audit-Keeps t id hash = untracked _ (λ db. ground arith)

  confirm_deposit_transaction-Keeps :
      (t : TransactionRecord) (receipt : Receipt)
      → Keeps (Tracked x b) (confirm_deposit_transaction t receipt)
  unfolding confirm_deposit_transaction
  confirm_deposit_transaction-Keeps t receipt = atomic-Triple (
      bind-Triple (confirm_submitted-Keeps t.transaction_id receipt.block_number _)
        λ r. credit_pending-Keeps r.0 t.position_id t.amount _)

  confirm_withdraw_transaction-Keeps :
      (t : TransactionRecord) (receipt : Receipt)
      → Keeps (Tracked x b) (confirm_withdraw_transaction t receipt)
  unfolding confirm_withdraw_transaction
  confirm_withdraw_transaction-Keeps t receipt = atomic-Triple (
      bind-Triple (confirm_submitted-Keeps t.transaction_id receipt.block_number _)
        λ r. debit_withdrawing-Keeps r.0 t.position_id t.amount _)

  confirm_other_transaction-Keeps :
      (t : TransactionRecord) (receipt : Receipt)
      → Keeps (Tracked x b) (confirm_other_transaction t receipt)
  unfolding confirm_other_transaction
  confirm_other_transaction-Keeps t receipt =
      bind-Triple (confirm_submitted-Keeps t.transaction_id receipt.block_number _) λ r.
        if-Triple r.0 (log_confirmed_audit-Keeps t r.1.transaction_id r.1.tx_hash) (pure-Keeps tt)

  handle_confirmed_transaction-Keeps :
      (t : TransactionRecord) (receipt : Receipt)
      → Keeps (Tracked x b) (handle_confirmed_transaction t receipt)
  unfolding handle_confirmed_transaction
  handle_confirmed_transaction-Keeps t receipt =
      if-Triple (is_deposit t.type) (confirm_deposit_transaction-Keeps t receipt) (
        if-Triple (is_withdraw t.type) (confirm_withdraw_transaction-Keeps t receipt)
          (confirm_other_transaction-Keeps t receipt))

  handle_reverted_transaction-Keeps :
      (t : TransactionRecord) (receipt : Receipt)
      → Keeps (Tracked x b) (handle_reverted_transaction t receipt)
  unfolding handle_reverted_transaction
  handle_reverted_transaction-Keeps t receipt = atomic-Triple (
      then-Triple (mark_reverted-Keeps t.transaction_id receipt.block_number _)
        (give_back-Keeps t.type t.position_id))

  receipt-Keeps :
      (env : Env) (chain_id hash : ℕ)
      → Keeps (Tracked x b) (get_transaction_receipt_with_retry env chain_id hash)
  unfolding get_transaction_receipt_with_retry
  receipt-Keeps env chain_id hash = lift-Keeps _

  pub reconcile_transaction-Keeps :
      (env : Env) (t : TransactionRecord)
      → OthersProgress x env
      → Keeps (Tracked x b) (reconcile_transaction env t)
  unfolding reconcile_transaction reconcile_hash
  reconcile_transaction-Keeps env t others = by_hash t.tx_hash
    where
      by_hash : (o : Option ℕ) → Keeps (Tracked x b) (reconcile_hash env t o)
      by_hash none = pure-Keeps pending
      by_hash (some hash) =
          then-Triple (modify-Keeps (env.others at_receipt) (others at_receipt b)) (
            bind-Triple (receipt-Keeps env t.chain_id hash) λ receipt.
              if-Triple receipt.success
                (then-Triple (handle_confirmed_transaction-Keeps t receipt) (pure-Keeps confirmed))
                (then-Triple (handle_reverted_transaction-Keeps t receipt) (pure-Keeps reverted)))
