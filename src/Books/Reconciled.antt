-- ===== src/Books/Reconciled.antt =====
-- reconciliation/transaction-reconciliation.service.ts: the books along what is done with one
-- transaction.
use earn_defi_nestjs_backend.Base.{
  ℕ, ◌≡◌, Bool, true, false, if◌then◌else◌, Option, none, some, ℤ, pos, negsuc, ◌≤ℤ◌, arith,
}
use earn_defi_nestjs_backend.Schema.Rows.{MetaValue, number}
use earn_defi_nestjs_backend.Schema.Status.{TransactionType, is_deposit, is_withdraw, AuditAction}
use earn_defi_nestjs_backend.Schema.Chain.{Receipt}
use earn_defi_nestjs_backend.Monad.{Action, pure, log_audit}
use earn_defi_nestjs_backend.Monad.Triple.{
  Keeps, pure-Keeps, lift-Keeps, atomic-Triple, bind-Triple, then-Triple, modify-Keeps, if-Triple,
}
use earn_defi_nestjs_backend.Env.{Env, at_receipt}
use earn_defi_nestjs_backend.Blockchain.{get_transaction_receipt_with_retry}
use earn_defi_nestjs_backend.Positions.Service.{PositionRecord}
use earn_defi_nestjs_backend.Transactions.Service.{TransactionRecord}
use earn_defi_nestjs_backend.Reconciliation.Handle.{
  confirmed, reverted, pending, when_pending, when_withdrawing, credit_pending, debit_withdrawing,
  confirm_deposit_transaction, confirm_withdraw_transaction, action_by_type, confirmed_audit,
  log_confirmed_audit, confirm_other_transaction, handle_confirmed_transaction, give_back,
  handle_reverted_transaction, reconcile_hash, reconcile_transaction,
}
use earn_defi_nestjs_backend.Books.{Records, Claim, Books, OthersKeep}
use earn_defi_nestjs_backend.Books.Operations.{
  log_audit-Keeps, find_position-Keeps, activate-Keeps, mark_active-Keeps, mark_failed-Keeps,
  subtract_withdraw-Keeps, mark_reverted-Keeps, confirm_submitted-Keeps,
}

-- The transactions that the job reads are open, and so recorded.
abbrev pub IsReadable : TransactionRecord → Type 0
IsReadable t = Records true t.type t.metadata t.amount

module _ (c : Claim) where
  pub when_pending-Keeps :
      (o : Option PositionRecord) (act : PositionRecord → Action (Unit {0}))
      → ((p : PositionRecord) → Keeps (Books c) (act p))
      → Keeps (Books c) (when_pending o act)
  when_pending-Keeps none act keep = pure-Keeps tt
  when_pending-Keeps (some p) act keep = if-Triple _ (keep p) (pure-Keeps tt)

  when_withdrawing-Keeps :
      (o : Option PositionRecord) (act : PositionRecord → Action (Unit {0}))
      → ((p : PositionRecord) → Keeps (Books c) (act p))
      → Keeps (Books c) (when_withdrawing o act)
  when_withdrawing-Keeps none act keep = pure-Keeps tt
  when_withdrawing-Keeps (some p) act keep = if-Triple _ (keep p) (pure-Keeps tt)

  credit_pending-Keeps :
      (applied : Bool) (id : Option ℕ) (n : ℤ) (m : MetaValue)
      → pos 0 ≤ℤ n
      → m ≡ number n
      → Keeps (Books c) (credit_pending applied id n m)
  unfolding credit_pending
  credit_pending-Keeps true (some id) (pos n) m h e = rw e (
      bind-Triple (find_position-Keeps c id) λ found.
        when_pending-Keeps found _
          (λ p. then-Triple (activate-Keeps c p.position_id n) (pure-Keeps tt)))
  credit_pending-Keeps true (some id) (negsuc n) m h e = absurd (omega arith)
  credit_pending-Keeps true none n m h e = pure-Keeps tt
  credit_pending-Keeps false id n m h e = pure-Keeps tt

  debit_withdrawing-Keeps :
      (applied : Bool) (id : Option ℕ) (n : ℤ) (m : MetaValue)
      → m ≡ number n
      → Keeps (Books c) (debit_withdrawing applied id n m)
  unfolding debit_withdrawing
  debit_withdrawing-Keeps true (some id) n m e = rw e (
      bind-Triple (find_position-Keeps c id) λ found.
        when_withdrawing-Keeps found _
          (λ p. then-Triple (subtract_withdraw-Keeps c id n) (pure-Keeps tt)))
  debit_withdrawing-Keeps true none n m e = pure-Keeps tt
  debit_withdrawing-Keeps false id n m e = pure-Keeps tt

  log_confirmed_audit-Keeps :
      (t : TransactionRecord) (id : ℕ) (hash : Option ℕ)
      → Keeps (Books c) (log_confirmed_audit t id hash)
  unfolding log_confirmed_audit
  log_confirmed_audit-Keeps t id hash = by_action (action_by_type t.type)
    where
      by_action :
          (o : Option AuditAction)
          → Keeps (Books c) (elim o [
            | none ↦ pure tt
            | some action ↦ log_audit t.user_id action id (confirmed_audit t.type hash)
          ])
      by_action none = pure-Keeps tt
      by_action (some action) = log_audit-Keeps c t.user_id action id _

  confirm_other_transaction-Keeps :
      (t : TransactionRecord) (receipt : Receipt)
      → Keeps (Books c) (confirm_other_transaction t receipt)
  unfolding confirm_other_transaction
  confirm_other_transaction-Keeps t receipt =
      bind-Triple (confirm_submitted-Keeps c t.transaction_id receipt.block_number _) λ r.
        if-Triple r.0 (log_confirmed_audit-Keeps t r.1.transaction_id r.1.tx_hash) (pure-Keeps tt)

  confirm_deposit_transaction-Keeps :
      (t : TransactionRecord) (receipt : Receipt)
      → Records true TransactionType.deposit t.metadata t.amount
      → Keeps (Books c) (confirm_deposit_transaction t receipt)
  unfolding confirm_deposit_transaction
  confirm_deposit_transaction-Keeps t receipt (same, above) = atomic-Triple (
      bind-Triple (confirm_submitted-Keeps c t.transaction_id receipt.block_number _)
        λ r. credit_pending-Keeps r.0 t.position_id t.amount _ above same)

  confirm_withdraw_transaction-Keeps :
      (t : TransactionRecord) (receipt : Receipt)
      → Records true TransactionType.withdraw t.metadata t.amount
      → Keeps (Books c) (confirm_withdraw_transaction t receipt)
  unfolding confirm_withdraw_transaction
  confirm_withdraw_transaction-Keeps t receipt same = atomic-Triple (
      bind-Triple (confirm_submitted-Keeps c t.transaction_id receipt.block_number _)
        λ r. debit_withdrawing-Keeps r.0 t.position_id t.amount _ same)

  handle_confirmed_transaction-Keeps :
      (t : TransactionRecord) (receipt : Receipt)
      → IsReadable t
      → Keeps (Books c) (handle_confirmed_transaction t receipt)
  unfolding handle_confirmed_transaction
  handle_confirmed_transaction-Keeps t receipt readable = by_type t.type readable
    where
      by_type :
          (type : TransactionType)
          → Records true type t.metadata t.amount
          → Keeps (Books c) (
              if is_deposit type
              then confirm_deposit_transaction t receipt
              else if is_withdraw type
              then confirm_withdraw_transaction t receipt
              else confirm_other_transaction t receipt)
      by_type TransactionType.deposit r = confirm_deposit_transaction-Keeps t receipt r
      by_type TransactionType.withdraw r = confirm_withdraw_transaction-Keeps t receipt r
      by_type _ r = confirm_other_transaction-Keeps t receipt

  give_back-Keeps : (type : TransactionType) (id : Option ℕ) → Keeps (Books c) (give_back type id)
  unfolding give_back
  give_back-Keeps type none = pure-Keeps tt
  give_back-Keeps type (some id) = bind-Triple (find_position-Keeps c id) λ found.
      if-Triple (is_deposit type)
        (when_pending-Keeps found _
          (λ p. then-Triple (mark_failed-Keeps c p.position_id) (pure-Keeps tt)))
        (if-Triple (is_withdraw type)
          (when_withdrawing-Keeps found _
            (λ p. then-Triple (mark_active-Keeps c p.position_id) (pure-Keeps tt)))
          (pure-Keeps tt))

  handle_reverted_transaction-Keeps :
      (t : TransactionRecord) (receipt : Receipt)
      → Keeps (Books c) (handle_reverted_transaction t receipt)
  unfolding handle_reverted_transaction
  handle_reverted_transaction-Keeps t receipt = atomic-Triple (
      then-Triple (mark_reverted-Keeps c t.transaction_id receipt.block_number _)
        (give_back-Keeps t.type t.position_id))

  with_retry-Keeps :
      (env : Env) (chain_id hash : ℕ)
      → Keeps (Books c) (get_transaction_receipt_with_retry env chain_id hash)
  unfolding get_transaction_receipt_with_retry
  with_retry-Keeps env chain_id hash = lift-Keeps _

  pub reconcile_transaction-Keeps :
      (env : Env) (t : TransactionRecord)
      → OthersKeep env
      → IsReadable t
      → Keeps (Books c) (reconcile_transaction env t)
  unfolding reconcile_transaction reconcile_hash
  reconcile_transaction-Keeps env t others readable = by_hash t.tx_hash
    where
      by_hash : (o : Option ℕ) → Keeps (Books c) (reconcile_hash env t o)
      by_hash none = pure-Keeps pending
      by_hash (some hash) =
          then-Triple (modify-Keeps (env.others at_receipt) (others at_receipt c)) (
            bind-Triple (with_retry-Keeps env t.chain_id hash) λ receipt.
              if-Triple receipt.success
                (then-Triple (handle_confirmed_transaction-Keeps t receipt readable)
                  (pure-Keeps confirmed))
                (then-Triple (handle_reverted_transaction-Keeps t receipt) (pure-Keeps reverted)))
