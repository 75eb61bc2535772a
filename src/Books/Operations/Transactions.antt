-- ===== src/Books/Operations/Transactions.antt =====
-- transactions.service.ts: the books before and after each operation.
use earn_defi_nestjs_backend.Base.{
  ℕ, ltb, ◌≡◌, refl, true, Option, none, some, inl, inr, Option-cases, arith, ℤ, find_first,
  count_where, eq_of_==,
}
use earn_defi_nestjs_backend.Schema.Status.{TransactionType}
use earn_defi_nestjs_backend.Schema.Rows.{Transaction, Metadata}
use earn_defi_nestjs_backend.Monad.{ok, err, record_missing}
use earn_defi_nestjs_backend.Monad.Triple.{Triple, Keeps, pure-Keeps, bind-Triple, cases-Triple}
use earn_defi_nestjs_backend.Transactions.Repository.{
  CreateTransactionInput, StatusUpdate, has_id, has_id_submitted, apply_update, confirmation,
  update_status, write_rows,
}
use earn_defi_nestjs_backend.Transactions.Repository as Rows
use earn_defi_nestjs_backend.Transactions.Service.{TransactionRecord, to_record}
use earn_defi_nestjs_backend.Transactions.Service as Transactions
use earn_defi_nestjs_backend.Books.{Records, IsRecorded, Claim, Agrees, Books}
use earn_defi_nestjs_backend.Books.Writes.{apply_update-Books, create-Books_held}

module _ (c : Claim) where
  update_status-Keeps :
      (id : ℕ) (u : StatusUpdate)
      → ((now : ℕ) (t : Transaction)
          → has_id id t ≡ true
          → IsRecorded t
          → Agrees c t
          → IsRecorded (apply_update u now t))
      → Keeps (Books c) (update_status id u)
  unfolding update_status
  update_status-Keeps id u keep = cases-Triple _ λ db b.
      elim (Option-cases (find_first (has_id id) db.transactions)) [
        | inl missing ↦ ((err record_missing, db), ground arith, b)
        | inr (t, found) ↦ (
          (ok (apply_update u db.now t), write_rows (has_id id) (apply_update u db.now) db),
          ground arith,
          apply_update-Books c (has_id id) u db.now db (keep db.now) b,
        )
      ]

  update_record-Keeps :
      (id : ℕ) (u : StatusUpdate)
      → ((now : ℕ) (t : Transaction)
          → has_id id t ≡ true
          → IsRecorded t
          → Agrees c t
          → IsRecorded (apply_update u now t))
      → Keeps (Books c) (Transactions.update_record id u)
  update_record-Keeps id u keep =
      bind-Triple (update_status-Keeps id u keep) (λ t. pure-Keeps (to_record t))

  pub mark_tx_failed-Keeps :
      (id : ℕ) (m : Option Metadata) → Keeps (Books c) (Transactions.mark_failed id m)
  unfolding Transactions.mark_failed
  mark_tx_failed-Keeps id m = update_record-Keeps id (Transactions.failure m) (λ now t hit r a. tt)

  pub mark_reverted-Keeps :
      (id block : ℕ) (m : Option Metadata) → Keeps (Books c) (Transactions.mark_reverted id block m)
  unfolding Transactions.mark_reverted
  mark_reverted-Keeps id block m =
      update_record-Keeps id (Transactions.reversal block m) (λ now t hit r a. tt)

  pub confirm_submitted-Keeps :
      (id block : ℕ) (m : Option Metadata)
      → Keeps (Books c) (Transactions.confirm_submitted id block m)
  unfolding Transactions.confirm_submitted
  confirm_submitted-Keeps id block m = bind-Triple rows (λ t. pure-Keeps _)
    where
      rows : Keeps (Books c) (Rows.confirm_submitted id block m)
      rows = cases-Triple _ λ db b.
          let f = apply_update (confirmation block m) db.now in
          let db' = write_rows (has_id_submitted id) f db in
          let b' =
            apply_update-Books c (has_id_submitted id) (confirmation block m) db.now db
              (λ t hit r a. tt) b in
          elim (Option-cases (find_first (has_id id) db'.transactions)) [
            | inl missing ↦ ((err record_missing, db'), ground arith, b')
            | inr (t, found) ↦ (
              (ok (ltb 0 (count_where (has_id_submitted id) db.transactions), t), db'),
              ground arith,
              b',
            )
          ]

pub create_transaction-Holds :
    (input : CreateTransactionInput)
    → Records true input.type input.metadata input.amount
    → Triple
        (Books none)
        (λ t. Books (some (t.transaction_id, input.type, input.amount)))
        (Books none)
        (Transactions.create_transaction input)
unfolding Transactions.create_transaction
create_transaction-Holds input r = record {
  apply = λ db b. create-Books_held (Rows.new_row input db) db refl r b;
}

pub mark_submitted-Keeps :
    (id hash : ℕ) (type : TransactionType) (amount : ℤ) (m : Metadata)
    → Records true type (some m) amount
    → Keeps (Books (some (id, type, amount))) (Transactions.mark_submitted id hash (some m))
unfolding Transactions.mark_submitted
mark_submitted-Keeps id hash type amount m r =
    update_record-Keeps (some (id, type, amount)) id (Transactions.submission hash (some m))
      (λ now t hit old a. let (k, n) = a (eq_of_== t.id id hit) in rw (k, n) r)
