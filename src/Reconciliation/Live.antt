-- ===== src/Reconciliation/Live.antt =====
-- transaction-reconciliation.service.ts: a submitted transaction that a run of the job reads.
use earn_defi_nestjs_backend.Base.{ℕ, ◌≡◌, refl, true, false, if◌then◌else◌, some, subst}
use mathlib.Core.Path.{sym}
use earn_defi_nestjs_backend.Schema.Status.{TransactionType, is_deposit, is_withdraw}
use earn_defi_nestjs_backend.Schema.Chain.{Receipt}
use earn_defi_nestjs_backend.Monad.{Error, ok, pure, modify}
use earn_defi_nestjs_backend.Monad.Triple.{Triple, bind-Triple, then-Triple, if-Triple}
use earn_defi_nestjs_backend.Env.{Env, at_receipt}
use earn_defi_nestjs_backend.Blockchain.{get_transaction_receipt_with_retry, retry_from}
use earn_defi_nestjs_backend.Transactions.Service.{TransactionRecord}
use earn_defi_nestjs_backend.Reconciliation.Handle.{
  Outcome, confirmed, reverted, confirm_deposit_transaction, confirm_withdraw_transaction,
  confirm_other_transaction, handle_confirmed_transaction, handle_reverted_transaction,
  reconcile_hash, reconcile_transaction,
}
use earn_defi_nestjs_backend.Books.{Records}
use earn_defi_nestjs_backend.Books.Reconciled.{IsReadable}
use earn_defi_nestjs_backend.Reconciliation.Progress.{Tracked, OthersProgress}
use earn_defi_nestjs_backend.Reconciliation.Steps.{
  Settles, quiet, confirm_submitted-Settles, mark_reverted-Settles, credit_pending-Settles,
  debit_withdrawing-Settles, give_back-Settles, log_confirmed_audit-Settles, atomic-Settles,
}

-- What is done with the transaction itself, once its receipt is there.
module _ (t : TransactionRecord) (receipt : Receipt) where
  confirm_deposit_transaction-Settles :
      Records true TransactionType.deposit t.metadata t.amount
      → Settles t.transaction_id false (confirm_deposit_transaction t receipt)
  unfolding confirm_deposit_transaction
  confirm_deposit_transaction-Settles readable = atomic-Settles t.transaction_id _ (
      bind-Triple (confirm_submitted-Settles t.transaction_id receipt.block_number _) λ r.
        credit_pending-Settles t.transaction_id r.0 t.position_id t.amount t.amount _ readable.0)

  confirm_withdraw_transaction-Settles :
      Records true TransactionType.withdraw t.metadata t.amount
      → Settles t.transaction_id false (confirm_withdraw_transaction t receipt)
  unfolding confirm_withdraw_transaction
  confirm_withdraw_transaction-Settles readable = atomic-Settles t.transaction_id _ (
      bind-Triple (confirm_submitted-Settles t.transaction_id receipt.block_number _) λ r.
        debit_withdrawing-Settles t.transaction_id r.0 t.position_id t.amount t.amount _ readable)

  confirm_other_transaction-Settles :
      Settles t.transaction_id false (confirm_other_transaction t receipt)
  unfolding confirm_other_transaction
  confirm_other_transaction-Settles =
      bind-Triple (confirm_submitted-Settles t.transaction_id receipt.block_number _) λ r.
        if-Triple r.0
          (log_confirmed_audit-Settles t.transaction_id t r.1.transaction_id r.1.tx_hash)
          (quiet t.transaction_id _ (λ db. (tt, refl)) (λ db. refl))

  handle_confirmed_transaction-Settles :
      IsReadable t → Settles t.transaction_id false (handle_confirmed_transaction t receipt)
  unfolding handle_confirmed_transaction
  handle_confirmed_transaction-Settles readable = by_type t.type readable
    where
      by_type :
          (type : TransactionType)
          → Records true type t.metadata t.amount
          → Settles t.transaction_id false (
              if is_deposit type
              then confirm_deposit_transaction t receipt
              else if is_withdraw type
              then confirm_withdraw_transaction t receipt
              else confirm_other_transaction t receipt)
      by_type TransactionType.deposit r = confirm_deposit_transaction-Settles r
      by_type TransactionType.withdraw r = confirm_withdraw_transaction-Settles r
      by_type _ r = confirm_other_transaction-Settles

  handle_reverted_transaction-Settles :
      Settles t.transaction_id false (handle_reverted_transaction t receipt)
  unfolding handle_reverted_transaction
  handle_reverted_transaction-Settles = atomic-Settles t.transaction_id _ (
      then-Triple (mark_reverted-Settles t.transaction_id receipt.block_number _)
        (give_back-Settles t.transaction_id t.type t.position_id))

-- One of three attempts gets the receipt.
abbrev pub Arrives : Env → TransactionRecord → ℕ → Receipt → Type 0
Arrives env t hash receipt =
    retry_from (λ attempt. env.get_receipt attempt t.chain_id hash) 3 1 (Error.external 0)
    ≡ ok receipt

module _ (env : Env) (t : TransactionRecord) (others : OthersProgress t.transaction_id env) where
  others_at_receipt :
      Triple {A = Unit {0}}
        (Tracked t.transaction_id false)
        (λ u. Tracked t.transaction_id false)
        (λ db. ⊥)
        (modify (env.others at_receipt))
  others_at_receipt = record { apply = λ db tracked. others at_receipt false db tracked }

  receipt-Arrives :
      (hash : ℕ) (receipt : Receipt)
      → Arrives env t hash receipt
      → Triple {A = Receipt}
          (Tracked t.transaction_id false)
          (λ r. Tracked t.transaction_id false)
          (λ db. ⊥)
          (get_transaction_receipt_with_retry env t.chain_id hash)
  unfolding get_transaction_receipt_with_retry
  receipt-Arrives hash receipt arrives = record { apply = λ db tracked. rw arrives tracked }

  done : (o : Outcome) → Settles t.transaction_id true (pure o)
  done o = quiet t.transaction_id _ (λ db. (o, refl)) (λ db. refl)

  pub reconcile_transaction-Settles :
      (hash : ℕ) (receipt : Receipt)
      → IsReadable t
      → t.tx_hash ≡ some hash
      → Arrives env t hash receipt
      → Settles t.transaction_id false (reconcile_transaction env t)
  unfolding reconcile_transaction reconcile_hash
  reconcile_transaction-Settles hash receipt readable sent arrives =
      subst (λ o. Settles t.transaction_id false (reconcile_hash env t o)) (sym sent)
        (then-Triple others_at_receipt (
          bind-Triple (receipt-Arrives hash receipt arrives) λ answer.
            if-Triple answer.success
              (then-Triple (handle_confirmed_transaction-Settles t answer readable)
                (done confirmed))
              (then-Triple (handle_reverted_transaction-Settles t answer) (done reverted))))
