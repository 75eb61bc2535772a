-- ===== src/Books/Deposits.antt =====
-- earn/services/earn-deposit.service.ts: the books along the steps of a deposit.
use earn_defi_nestjs_backend.Base.{
  ℕ, ltb, ◌≡◌, refl, ap, Bool, true, false, if◌then◌else◌, Option, none, some, inl, inr,
  Option-cases, pos, arith,
}
use earn_defi_nestjs_backend.Schema.Status.{TransactionType, AuditAction}
use earn_defi_nestjs_backend.Schema.Chain.{Receipt, BroadcastTransaction, supply, token}
use earn_defi_nestjs_backend.Schema.Rows.{number}
use earn_defi_nestjs_backend.Monad.{
  Error, pure, catch, log_audit, ◌>>◌, position_missing, insufficient_balance,
  insufficient_allowance,
}
use earn_defi_nestjs_backend.Monad.Triple.{
  Triple, Keeps, KeepsAnd, pure-Keeps, pure-KeepsAnd, raise-Keeps, lift-Keeps, or_raise-Keeps,
  atomic-Triple, catch-Triple, bind-Triple, then-Triple, given-Triple, raise_if-Plain, modify-Keeps,
  readonly-Keeps, if-Triple, Triple-mono,
}
use earn_defi_nestjs_backend.Env.{Env, before, at_open, at_broadcast, at_receipt}
use earn_defi_nestjs_backend.Blockchain.{is_native, encode_vault_deposit}
use earn_defi_nestjs_backend.Positions.Repository.{ActivatePositionInput}
use earn_defi_nestjs_backend.Positions.Amounts.{even_deposit}
use earn_defi_nestjs_backend.Positions.Service as Positions
use earn_defi_nestjs_backend.Transactions.Service.{TransactionRecord}
use earn_defi_nestjs_backend.Transactions.Service as Transactions
use earn_defi_nestjs_backend.Deposit.{
  DepositDto, Quote, Opened, deposit_amounts, deposit_input, requested_metadata, deposit_metadata,
  submitted_metadata, to_response, or_position, shares_of, quote_deposit,
  assert_no_duplicate_deposit, position_for_deposit, open_deposit, revert_deposit, credit_position,
  confirm_deposit, settle_deposit, fail_deposit, deposit_vault,
}
use earn_defi_nestjs_backend.Books.{Records, Claim, Books, OthersKeep}
use earn_defi_nestjs_backend.Books.Writes.{release-Books}
use earn_defi_nestjs_backend.Books.Operations.{
  log_audit-Keeps, assert_deposit_allowed-Keeps, find_or_create-Keeps, check_deposit_vault-Keeps,
  check_wallet-Keeps, find_by_user_and_vault-Keeps, has_open_deposit-Keeps, create_pending-Keeps,
  activate-Keeps, add_deposit-Keeps, mark_failed-Keeps, mark_tx_failed-Keeps, mark_reverted-Keeps,
  confirm_submitted-Keeps, create_transaction-Holds, mark_submitted-Keeps,
}

-- The shares that a quote estimates are the amount.
abbrev IsEven : DepositDto → Quote → Type 0
IsEven dto quote = quote.estimated_shares ≡ dto.amount

quote_deposit-Keeps :
    (env : Env) (user_id vault_id : ℕ) (dto : DepositDto)
    → KeepsAnd (Books none) (IsEven dto) (quote_deposit env user_id vault_id dto)
unfolding quote_deposit
quote_deposit-Keeps env user_id vault_id dto =
    then-Triple (assert_deposit_allowed-Keeps none env.config user_id) (
      bind-Triple (lift-Keeps (env.get_vault vault_id none)) λ vault.
        then-Triple (check_deposit_vault-Keeps none env.config vault) (
          bind-Triple (check_wallet-Keeps none user_id dto.wallet_id vault) λ wallet.
            bind-Triple
              (lift-Keeps (env.asset_balance vault.chain_id vault.asset_address wallet.address))
              λ balance.
                bind-Triple
                  (if-Triple (is_native vault.asset_address) (pure-Keeps dto.amount) (
                    lift-Keeps (
                      env.allowance before vault.chain_id vault.asset_address wallet.address
                        vault.contract_address)))
                  λ allowance.
                    then-Triple (raise_if-Plain (ltb balance dto.amount) insufficient_balance) (
                      then-Triple (raise_if-Plain (ltb allowance dto.amount) insufficient_allowance)
                        (pure-KeepsAnd (IsEven dto)
                          (record {
                            vault = vault;
                            wallet = wallet;
                            wallet_balance = balance;
                            allowance = allowance;
                            estimated_shares = dto.amount;
                          })
                          refl))))

assert_no_duplicate_deposit-Keeps :
    (c : Claim) (user_id vault_id : ℕ)
    → Keeps (Books c) (assert_no_duplicate_deposit user_id vault_id)
unfolding assert_no_duplicate_deposit Positions.find_by_user_and_vault Transactions.has_open_deposit
assert_no_duplicate_deposit-Keeps c user_id vault_id = readonly-Keeps _ (λ db. ground arith)

position_for_deposit-Keeps :
    (c : Claim) (user_id vault_id : ℕ) (o : Option Positions.PositionRecord)
    → Keeps (Books c) (position_for_deposit user_id vault_id o)
unfolding position_for_deposit
position_for_deposit-Keeps c user_id vault_id none =
    bind-Triple (create_pending-Keeps c user_id vault_id) λ p. pure-Keeps _
position_for_deposit-Keeps c user_id vault_id (some p) = pure-Keeps _

-- The transaction that a request holds on to once the deposit is open.
abbrev deposit_claim : DepositDto → Opened → Claim
deposit_claim dto o = some (o.transaction.transaction_id, TransactionType.deposit, pos dto.amount)

open_deposit-Holds :
    (user_id vault_id : ℕ) (quote : Quote) (dto : DepositDto)
    → IsEven dto quote
    → Triple
        (Books none)
        (λ o. Books (deposit_claim dto o))
        (Books none)
        (open_deposit user_id vault_id quote dto)
unfolding open_deposit
open_deposit-Holds user_id vault_id quote dto even = atomic-Triple (
    bind-Triple (find_by_user_and_vault-Keeps none user_id vault_id) λ existing.
      then-Triple (raise_if-Plain _ _) (
        bind-Triple (has_open_deposit-Keeps none user_id vault_id) λ has_open.
          then-Triple (raise_if-Plain _ _) (
            bind-Triple (position_for_deposit-Keeps none user_id vault_id existing) λ p.
              bind-Triple
                (create_transaction-Holds (deposit_input user_id vault_id quote dto p.0) recorded)
                λ t.
                  pure-Holds (record { position = p.0; transaction = t; is_new_position = p.1 }))))
  where
    recorded : Records true TransactionType.deposit (some (deposit_metadata quote)) (pos dto.amount)
    recorded = (ap (λ n. number (pos n)) even, omega arith)

    pure-Holds :
        (o : Opened)
        → Triple
            (Books (deposit_claim dto o))
            (λ o. Books (deposit_claim dto o))
            (Books none)
            (pure o)
    pure-Holds o = record { apply = λ db b. b }

credit_position-Keeps :
    (c : Claim) (applied is_new : Bool) (id n : ℕ) (amounts : ActivatePositionInput)
    → amounts ≡ even_deposit (pos n)
    → Keeps (Books c) (credit_position applied is_new id amounts)
unfolding credit_position Positions.find_by_id
credit_position-Keeps c true true id n amounts e =
    rw e (bind-Triple (activate-Keeps c id n) λ p. pure-Keeps _)
credit_position-Keeps c true false id n amounts e =
    rw e (bind-Triple (add_deposit-Keeps c id n) λ p. pure-Keeps _)
credit_position-Keeps c false is_new id n amounts e = readonly-Keeps _ (λ db. refl)

fail_new_position-Keeps :
    (c : Claim) (is_new : Bool) (id : ℕ)
    → Keeps (Books c) (if is_new then (Positions.mark_failed id >> pure tt) else pure tt)
fail_new_position-Keeps c is_new id =
    if-Triple is_new (then-Triple (mark_failed-Keeps c id) (pure-Keeps tt)) (pure-Keeps tt)

revert_deposit-Keeps :
    (c : Claim) (user_id vault_id : ℕ) (quote : Quote) (dto : DepositDto) (opened : Opened)
    (submitted : TransactionRecord) (receipt : Receipt)
    → Keeps (Books c) (revert_deposit user_id vault_id quote dto opened submitted receipt)
unfolding revert_deposit
revert_deposit-Keeps c user_id vault_id quote dto opened submitted receipt =
    then-Triple (fail_new_position-Keeps c opened.is_new_position opened.position.position_id) (
      bind-Triple (mark_reverted-Keeps c _ _ _) λ reverted.
        bind-Triple (find_by_user_and_vault-Keeps c user_id vault_id) λ current. pure-Keeps (
          to_response quote dto (or_position current opened.position) reverted (shares_of current)))

confirm_deposit-Keeps :
    (c : Claim) (quote : Quote) (dto : DepositDto) (opened : Opened) (submitted : TransactionRecord)
    (receipt : Receipt)
    → IsEven dto quote
    → Keeps (Books c) (confirm_deposit quote dto opened submitted receipt)
unfolding confirm_deposit
confirm_deposit-Keeps c quote dto opened submitted receipt even = atomic-Triple (
    bind-Triple (confirm_submitted-Keeps c _ _ _) λ t.
      bind-Triple
        (credit_position-Keeps c t.0 opened.is_new_position opened.position.position_id dto.amount
          (deposit_amounts quote dto) amounts)
        λ updated.
          bind-Triple (or_raise-Keeps updated position_missing)
            λ p. given-Triple (λ e. pure-Keeps (t.1, p)))
  where
    amounts : deposit_amounts quote dto ≡ even_deposit (pos dto.amount)
    amounts = ground arith

submitted-Records :
    (quote : Quote) (dto : DepositDto) (broadcast : BroadcastTransaction)
    → IsEven dto quote
    → Records true TransactionType.deposit
        (some (submitted_metadata quote broadcast))
        (pos dto.amount)
submitted-Records quote dto broadcast even = elim (Option-cases broadcast.transaction_id) [
  | inl none_given ↦ rw none_given (ap (λ n. number (pos n)) even, omega arith)
  | inr (n, given) ↦ rw given (ap (λ n. number (pos n)) even, omega arith)
]

settle_deposit-Keeps :
    (env : Env) (user_id vault_id : ℕ) (quote : Quote) (dto : DepositDto) (opened : Opened)
    → OthersKeep env
    → IsEven dto quote
    → Keeps
        (Books (deposit_claim dto opened))
        (settle_deposit env user_id vault_id quote dto opened)
unfolding settle_deposit encode_vault_deposit
settle_deposit-Keeps env user_id vault_id quote dto opened others even =
    let c = deposit_claim dto opened in
    bind-Triple
      (lift-Keeps (
        env.encode_function_data
          (supply quote.vault.asset_address (pos dto.amount) quote.wallet.address 0)))
      λ calldata. then-Triple (modify-Keeps (env.others at_broadcast) (others at_broadcast c)) (
        bind-Triple
          (lift-Keeps (
            env.send_transaction (record {
              provider_wallet_id = quote.wallet.provider_id;
              chain_id = quote.vault.chain_id;
              to = token quote.vault.contract_address;
              value = 0;
              calldata = calldata;
            })))
          λ broadcast.
            bind-Triple
              (mark_submitted-Keeps opened.transaction.transaction_id broadcast.hash
                TransactionType.deposit (pos dto.amount) (submitted_metadata quote broadcast)
                (submitted-Records quote dto broadcast even))
              λ submitted.
                then-Triple (modify-Keeps (env.others at_receipt) (others at_receipt c)) (
                  bind-Triple
                    (lift-Keeps (env.wait_for_receipt quote.vault.chain_id broadcast.hash))
                    λ receipt.
                      if-Triple receipt.success
                        (bind-Triple
                          (confirm_deposit-Keeps c quote dto opened submitted receipt even)
                          λ final. then-Triple (log_audit-Keeps c _ _ _ _) (pure-Keeps _))
                        (revert_deposit-Keeps c user_id vault_id quote dto opened submitted
                          receipt)))

fail_deposit-Keeps :
    (c : Claim) (opened : Opened) (e : Error) → Keeps (Books c) (fail_deposit opened e)
unfolding fail_deposit
fail_deposit-Keeps c opened e = then-Triple (mark_tx_failed-Keeps c _ _) (
    then-Triple (fail_new_position-Keeps c opened.is_new_position opened.position.position_id)
      (raise-Keeps e))

tracked_deposit-Keeps :
    (env : Env) (user_id vault_id : ℕ) (quote : Quote) (dto : DepositDto) (opened : Opened)
    → OthersKeep env
    → IsEven dto quote
    → Keeps (Books (deposit_claim dto opened)) (
        log_audit user_id AuditAction.deposit_requested opened.transaction.transaction_id
          (requested_metadata quote dto opened)
        >> catch (settle_deposit env user_id vault_id quote dto opened) (fail_deposit opened))
tracked_deposit-Keeps env user_id vault_id quote dto opened others even =
    let c = deposit_claim dto opened in
    then-Triple (log_audit-Keeps c _ _ _ _) (
      catch-Triple (settle_deposit-Keeps env user_id vault_id quote dto opened others even)
        (fail_deposit-Keeps c opened))

-- The deposit of a user, run where the books hold, ends where they hold, whether it returns or
-- throws and whatever the chain answers, provided the other requests keep them.
pub deposit_vault-Keeps :
    (env : Env)
    → OthersKeep env
    → (user_id vault_id : ℕ) (dto : DepositDto)
    → Keeps (Books none) (deposit_vault env user_id vault_id dto)
unfolding deposit_vault
deposit_vault-Keeps env others user_id vault_id dto =
    bind-Triple (quote_deposit-Keeps env user_id vault_id dto) λ quote. given-Triple λ even.
      bind-Triple (find_or_create-Keeps none quote.vault) λ vault.
        then-Triple (assert_no_duplicate_deposit-Keeps none user_id vault.id) (
          then-Triple (modify-Keeps (env.others at_open) (others at_open none)) (
            bind-Triple (open_deposit-Holds user_id vault.id quote dto even) λ opened.
              Triple-mono (tracked_deposit-Keeps env user_id vault.id quote dto opened others even)
                (λ a db b. release-Books (deposit_claim dto opened) db b)
                (λ db b. release-Books (deposit_claim dto opened) db b)))
