-- ===== src/Lost.antt =====
-- The `catch` blocks of earn-deposit.service.ts and earn-approval.service.ts, and the two
-- queries of the reconciliation job: what becomes of a transaction whose request throws after
-- the broadcast.
use earn_defi_nestjs_backend.Base.{
  ℕ, ◌≡◌, refl, true, false, Option, none, some, inl, inr, Bool-cases, Option-cases, pos, List, [],
  ◌∷◌, arith, find_first, update_where, All,
}
use earn_defi_nestjs_backend.Schema.Status.{PositionStatus, TransactionStatus}
use earn_defi_nestjs_backend.Schema.Rows.{Db, Transaction, Metadata, Wallet}
use earn_defi_nestjs_backend.Schema.Chain.{AssetAddress, token, Call, ProtocolVault}
use earn_defi_nestjs_backend.Monad.{Error, Result, ok, err, lift, catch, modify, record_missing}
use earn_defi_nestjs_backend.Monad.Triple.{
  Triple, Keeps, pure-Keeps, raise-Keeps, catch-Triple, bind-Triple, then-Triple, if-Triple,
  cases-Triple,
}
use earn_defi_nestjs_backend.Monad.Value.{Anything, any-Gives, throws-Triple, on_end}
use earn_defi_nestjs_backend.Env.{Env, after, at_broadcast, at_receipt}
use earn_defi_nestjs_backend.Blockchain.{encode_vault_deposit, encode_erc20_approve}
use earn_defi_nestjs_backend.Positions.Repository.{has_id, write_row, set_status}
use earn_defi_nestjs_backend.Positions.Service as Positions
use earn_defi_nestjs_backend.Transactions.Repository.{
  is_pending_reconciliation, is_stale_created, apply_update, write_rows, update_status,
}
use earn_defi_nestjs_backend.Transactions.Repository as Rows
use earn_defi_nestjs_backend.Transactions.Service.{TransactionRecord, to_record}
use earn_defi_nestjs_backend.Transactions.Service as Transactions
use earn_defi_nestjs_backend.Deposit.{
  DepositDto, Quote, Opened, DepositResponse, apply_deposit_receipt, settle_deposit, fail_deposit,
  submitted_metadata,
}
use earn_defi_nestjs_backend.Approval.{
  ApprovalResponse, conclude_approval, report_approval, settle_approval, fail_approval,
}
use earn_defi_nestjs_backend.Approval as Approval

-- The transaction is FAILED, and neither query of the job finds it.
abbrev pub IsLost : ℕ → Transaction → Type 0
IsLost id t =
    Rows.has_id id t ≡ true
    → (t.status ≡ TransactionStatus.failed)
      × (is_pending_reconciliation t ≡ false)
      × ((older_than : ℕ) → is_stale_created older_than t ≡ false)

abbrev Lost : ℕ → Db → Type 0
Lost id db = All (IsLost id) db.transactions

missing-Lost :
    (id : ℕ) (ts : List Transaction) → find_first (Rows.has_id id) ts ≡ none → All (IsLost id) ts
unfolding find_first
missing-Lost id [] h = tt
missing-Lost id (t ∷ ts) h = elim (Bool-cases (Rows.has_id id t)) [
  | inl hit ↦ ground arith
  | inr miss ↦ ((λ hit. ground arith), missing-Lost id ts (ground arith))
]

written-Lost :
    (id now : ℕ) (m : Option Metadata) (ts : List Transaction)
    → All (IsLost id) (update_where (Rows.has_id id) (apply_update (Transactions.failure m) now) ts)
unfolding update_where
written-Lost id now m [] = tt
written-Lost id now m (t ∷ ts) =
    let rest = written-Lost id now m ts in
    elim (Bool-cases (Rows.has_id id t)) [
      | inl hit ↦ rw hit ((λ h. (refl, refl, λ n. refl)), rest)
      | inr miss ↦ rw miss ((λ h. ground arith), rest)
    ]

mark_failed-Lost :
    (id : ℕ) (m : Option Metadata)
    → Triple Anything (λ t. Lost id) (Lost id) (Transactions.mark_failed id m)
unfolding Transactions.mark_failed update_status
mark_failed-Lost id m = cases-Triple _ λ db u.
    elim (Option-cases (find_first (Rows.has_id id) db.transactions)) [
      | inl missing ↦
          ((err record_missing, db), ground arith, missing-Lost id db.transactions missing)
      | inr (t, found) ↦
          let f = apply_update (Transactions.failure m) db.now in
          (
            (ok (to_record (f t)), write_rows (Rows.has_id id) f db),
            ground arith,
            written-Lost id db.now m db.transactions,
          )
    ]

-- A failed position is written to its own table.
mark_position_failed-Lost :
    (id position_id : ℕ) → Keeps (Lost id) (Positions.mark_failed position_id)
unfolding Positions.mark_failed
mark_position_failed-Lost id position_id = cases-Triple _ λ db lost.
    elim (Option-cases (find_first (has_id position_id) db.positions)) [
      | inl missing ↦ ((err record_missing, db), ground arith, lost)
      | inr (p, found) ↦
          let f = set_status PositionStatus.failed db.now in
          ((ok (Positions.to_record (f p)), write_row position_id f db), ground arith, lost)
    ]

fail_deposit-Lost :
    (opened : Opened) (e : Error)
    → Triple Anything
        (λ r. Lost opened.transaction.transaction_id)
        (Lost opened.transaction.transaction_id)
        (fail_deposit opened e)
unfolding fail_deposit
fail_deposit-Lost opened e =
    let id = opened.transaction.transaction_id in
    bind-Triple (mark_failed-Lost id _) λ t.
      then-Triple
        (if-Triple opened.is_new_position
          (then-Triple (mark_position_failed-Lost id opened.position.position_id) (pure-Keeps tt))
          (pure-Keeps tt))
        (raise-Keeps e)

-- The body of the `try` throws where the receipt does not come.
settle_deposit-throws :
    (env : Env) (user_id vault_id : ℕ) (quote : Quote) (dto : DepositDto) (opened : Opened)
    (timed_out : Error) {Q : DepositResponse → Db → Type 0}
    → ((chain_id hash : ℕ) → env.wait_for_receipt chain_id hash ≡ err timed_out)
    → Triple Anything Q Anything (settle_deposit env user_id vault_id quote dto opened)
unfolding settle_deposit encode_vault_deposit
settle_deposit-throws env user_id vault_id quote dto opened timed_out h =
    bind-Triple
      (any-Gives (
        lift (
          env.encode_function_data
            (Call.supply quote.vault.asset_address (pos dto.amount) quote.wallet.address 0))))
      λ calldata. then-Triple (any-Gives (modify (env.others at_broadcast))) (
        bind-Triple
          (any-Gives (
            lift (
              env.send_transaction (record {
                provider_wallet_id = quote.wallet.provider_id;
                chain_id = quote.vault.chain_id;
                to = token quote.vault.contract_address;
                value = 0;
                calldata = calldata;
              }))))
          λ broadcast.
            bind-Triple
              (any-Gives (
                Transactions.mark_submitted opened.transaction.transaction_id broadcast.hash
                  (some (submitted_metadata quote broadcast))))
              λ submitted. then-Triple (any-Gives (modify (env.others at_receipt))) (
                throws-Triple (env.wait_for_receipt quote.vault.chain_id broadcast.hash) timed_out
                  (apply_deposit_receipt user_id vault_id quote dto opened submitted)
                  (h quote.vault.chain_id broadcast.hash)))

-- Where the wait for the receipt throws, as on a time-out, a deposit that may have been broadcast
-- ends with its transaction FAILED, where neither the query for submitted transactions nor the one
-- for stale ones finds it: the job does not look at its receipt.
pub timed_out_deposit-IsLost :
    (env : Env) (user_id vault_id : ℕ) (quote : Quote) (dto : DepositDto) (opened : Opened)
    (timed_out : Error) (db : Db) {r : Result DepositResponse} {db' : Db}
    → ((chain_id hash : ℕ) → env.wait_for_receipt chain_id hash ≡ err timed_out)
    → catch (settle_deposit env user_id vault_id quote dto opened) (fail_deposit opened) db
      ≡ (r, db')
    → All (IsLost opened.transaction.transaction_id) db'.transactions
timed_out_deposit-IsLost env user_id vault_id quote dto opened timed_out db h e =
    on_end
      (catch-Triple (settle_deposit-throws env user_id vault_id quote dto opened timed_out h)
        (fail_deposit-Lost opened))
      e

fail_approval-Lost :
    (t : TransactionRecord) (allowance : ℕ) (e : Error)
    → Triple Anything
        (λ r. Lost t.transaction_id)
        (Lost t.transaction_id)
        (fail_approval t allowance e)
unfolding fail_approval
fail_approval-Lost t allowance e =
    bind-Triple (mark_failed-Lost t.transaction_id _) λ u. raise-Keeps e

settle_approval-throws :
    (env : Env) (user_id : ℕ) (vault : ProtocolVault) (wallet : Wallet) (dto : DepositDto)
    (allowance : ℕ) (t : TransactionRecord) (unread : Error) {Q : ApprovalResponse → Db → Type 0}
    → ((chain_id owner spender : ℕ) (asset : AssetAddress)
        → env.allowance after chain_id asset owner spender ≡ err unread)
    → Triple Anything Q Anything (settle_approval env user_id vault wallet dto allowance t)
unfolding settle_approval encode_erc20_approve
settle_approval-throws env user_id vault wallet dto allowance t unread h =
    bind-Triple
      (any-Gives
        (lift (env.encode_function_data (Call.approve vault.contract_address (pos dto.amount)))))
      λ calldata. then-Triple (any-Gives (modify (env.others at_broadcast))) (
        bind-Triple
          (any-Gives (
            lift (
              env.send_transaction (record {
                provider_wallet_id = wallet.provider_id;
                chain_id = vault.chain_id;
                to = vault.asset_address;
                value = 0;
                calldata = calldata;
              }))))
          λ broadcast.
            bind-Triple
              (any-Gives (
                Transactions.mark_submitted t.transaction_id broadcast.hash
                  (some (Approval.submitted_metadata broadcast allowance))))
              λ submitted. then-Triple (any-Gives (modify (env.others at_receipt))) (
                bind-Triple (any-Gives (lift (env.wait_for_receipt vault.chain_id broadcast.hash)))
                  λ receipt.
                    bind-Triple (any-Gives (conclude_approval submitted receipt allowance)) λ final.
                      throws-Triple
                        (env.allowance after vault.chain_id vault.asset_address wallet.address
                          vault.contract_address)
                        unread (report_approval user_id vault dto final)
                        (h vault.chain_id wallet.address vault.contract_address
                          vault.asset_address)))

-- Where the second read of the allowance throws, an approval ends FAILED, even when its receipt
-- was a success and had already confirmed it.
pub unread_allowance-IsLost :
    (env : Env) (user_id : ℕ) (vault : ProtocolVault) (wallet : Wallet) (dto : DepositDto)
    (allowance : ℕ) (t : TransactionRecord) (unread : Error) (db : Db) {r : Result ApprovalResponse}
    {db' : Db}
    → ((chain_id owner spender : ℕ) (asset : AssetAddress)
        → env.allowance after chain_id asset owner spender ≡ err unread)
    → catch
        (settle_approval env user_id vault wallet dto allowance t)
        (fail_approval t allowance)
        db
      ≡ (r, db')
    → All (IsLost t.transaction_id) db'.transactions
unread_allowance-IsLost env user_id vault wallet dto allowance t unread db h e =
    on_end
      (catch-Triple (settle_approval-throws env user_id vault wallet dto allowance t unread h)
        (fail_approval-Lost t allowance))
      e
