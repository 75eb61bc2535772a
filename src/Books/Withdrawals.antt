-- ===== src/Books/Withdrawals.antt =====
-- earn/services/earn-withdraw.service.ts: the books along the steps of a withdrawal.
use earn_defi_nestjs_backend.Base.{
  ℕ, ◌≡◌, refl, ap, Bool, true, false, if◌then◌else◌, none, some, inl, inr, Option-cases,
}
use earn_defi_nestjs_backend.Schema.Status.{TransactionType, AuditAction}
use earn_defi_nestjs_backend.Schema.Chain.{Receipt, BroadcastTransaction, Call, token}
use earn_defi_nestjs_backend.Schema.Rows.{number}
use earn_defi_nestjs_backend.Monad.{
  Error, catch, log_audit, ◌>>◌, position_missing, withdraw_in_progress,
}
use earn_defi_nestjs_backend.Monad.Triple.{
  Triple, Keeps, pure-Keeps, raise-Keeps, lift-Keeps, or_raise-Keeps, atomic-Triple, catch-Triple,
  bind-Triple, then-Triple, given-Triple, raise_if-Plain, modify-Keeps, readonly-Keeps, if-Triple,
  Triple-mono,
}
use earn_defi_nestjs_backend.Env.{Env, at_open, at_broadcast, at_receipt}
use earn_defi_nestjs_backend.Blockchain.{max_uint256, encode_vault_withdraw}
use earn_defi_nestjs_backend.Positions.Service as Positions
use earn_defi_nestjs_backend.Transactions.Service.{TransactionRecord}
use earn_defi_nestjs_backend.Withdraw.{
  WithdrawDto, Plan, withdraw_input, submitted_metadata, requested_metadata, open_withdraw,
  to_response, revert_withdraw, debit_position, confirm_withdraw, settle_withdraw, fail_withdraw,
  withdraw_position,
}
use earn_defi_nestjs_backend.Books.{Records, Claim, Books, OthersKeep}
use earn_defi_nestjs_backend.Books.Writes.{release-Books}
use earn_defi_nestjs_backend.Books.Operations.{
  log_audit-Keeps, has_open_withdraw-Keeps, mark_withdrawing-Keeps, mark_active-Keeps,
  subtract_withdraw-Keeps, mark_tx_failed-Keeps, mark_reverted-Keeps, confirm_submitted-Keeps,
  create_transaction-Holds, mark_submitted-Keeps,
}
use earn_defi_nestjs_backend.Books.Plan.{plan_withdraw-IsSound}

abbrev withdraw_claim : Plan → TransactionRecord → Claim
withdraw_claim plan t = some (t.transaction_id, TransactionType.withdraw, plan.withdraw_amount)

open_withdraw-Holds :
    (user_id position_id : ℕ) (plan : Plan) (dto : WithdrawDto)
    → plan.shares_to_burn ≡ plan.withdraw_amount
    → Triple
        (Books none)
        (λ t. Books (withdraw_claim plan t))
        (Books none)
        (open_withdraw user_id position_id plan dto)
unfolding open_withdraw
open_withdraw-Holds user_id position_id plan dto even = atomic-Triple (
    bind-Triple (has_open_withdraw-Keeps none position_id) λ has_open.
      then-Triple (raise_if-Plain has_open withdraw_in_progress) (
        then-Triple (mark_withdrawing-Keeps none plan.position.id)
          (create_transaction-Holds (withdraw_input user_id plan dto) (ap number even))))

debit_position-Keeps :
    (c : Claim) (applied : Bool) (plan : Plan)
    → plan.shares_to_burn ≡ plan.withdraw_amount
    → Keeps (Books c) (debit_position applied plan)
unfolding debit_position Positions.find_by_id
debit_position-Keeps c true plan even = rw even (
    bind-Triple (subtract_withdraw-Keeps c plan.position.id plan.withdraw_amount)
      λ p. pure-Keeps (some p))
debit_position-Keeps c false plan even = readonly-Keeps _ (λ db. refl)

revert_withdraw-Keeps :
    (c : Claim) (plan : Plan) (dto : WithdrawDto) (submitted : TransactionRecord)
    (receipt : Receipt)
    → Keeps (Books c) (revert_withdraw plan dto submitted receipt)
unfolding revert_withdraw
revert_withdraw-Keeps c plan dto submitted receipt =
    bind-Triple (mark_reverted-Keeps c submitted.transaction_id receipt.block_number _) λ reverted.
      then-Triple (mark_active-Keeps c plan.position.id)
        (pure-Keeps (to_response plan dto reverted none))

confirm_withdraw-Keeps :
    (c : Claim) (plan : Plan) (dto : WithdrawDto) (submitted : TransactionRecord)
    (receipt : Receipt)
    → plan.shares_to_burn ≡ plan.withdraw_amount
    → Keeps (Books c) (confirm_withdraw plan dto submitted receipt)
unfolding confirm_withdraw
confirm_withdraw-Keeps c plan dto submitted receipt even = atomic-Triple (
    bind-Triple (confirm_submitted-Keeps c submitted.transaction_id receipt.block_number _) λ t.
      bind-Triple (debit_position-Keeps c t.0 plan even) λ updated.
        bind-Triple (or_raise-Keeps updated position_missing)
          λ p. given-Triple (λ e. pure-Keeps (t.1, p)))

submitted-Records :
    (plan : Plan) (dto : WithdrawDto) (broadcast : BroadcastTransaction)
    → plan.shares_to_burn ≡ plan.withdraw_amount
    → Records true TransactionType.withdraw
        (some (submitted_metadata plan dto broadcast))
        plan.withdraw_amount
submitted-Records plan dto broadcast even = elim (Option-cases broadcast.transaction_id) [
  | inl none_given ↦ rw none_given (ap number even)
  | inr (n, given) ↦ rw given (ap number even)
]

settle_withdraw-Keeps :
    (env : Env) (user_id position_id : ℕ) (plan : Plan) (dto : WithdrawDto) (t : TransactionRecord)
    → OthersKeep env
    → plan.shares_to_burn ≡ plan.withdraw_amount
    → Keeps (Books (withdraw_claim plan t)) (settle_withdraw env user_id position_id plan dto t)
unfolding settle_withdraw encode_vault_withdraw
settle_withdraw-Keeps env user_id position_id plan dto t others even =
    let c = withdraw_claim plan t in
    bind-Triple
      (lift-Keeps (
        env.encode_function_data (
          Call.withdraw plan.vault.asset_address
            (if dto.full_withdraw then max_uint256 else plan.withdraw_amount) plan.wallet.address)))
      λ calldata. then-Triple (modify-Keeps (env.others at_broadcast) (others at_broadcast c)) (
        bind-Triple
          (lift-Keeps (
            env.send_transaction (record {
              provider_wallet_id = plan.wallet.provider_id;
              chain_id = plan.vault.chain_id;
              to = token plan.vault.contract_address;
              value = 0;
              calldata = calldata;
            })))
          λ broadcast.
            bind-Triple
              (mark_submitted-Keeps t.transaction_id broadcast.hash TransactionType.withdraw
                plan.withdraw_amount (submitted_metadata plan dto broadcast)
                (submitted-Records plan dto broadcast even))
              λ submitted.
                then-Triple (modify-Keeps (env.others at_receipt) (others at_receipt c)) (
                  bind-Triple (lift-Keeps (env.wait_for_receipt plan.vault.chain_id broadcast.hash))
                    λ receipt.
                      if-Triple receipt.success
                        (bind-Triple (confirm_withdraw-Keeps c plan dto submitted receipt even)
                          λ final.
                            then-Triple
                              (log_audit-Keeps c user_id AuditAction.withdraw_confirmed
                                final.0.transaction_id _)
                              (pure-Keeps (to_response plan dto final.0 (some final.1))))
                        (revert_withdraw-Keeps c plan dto submitted receipt)))

fail_withdraw-Keeps :
    (c : Claim) (plan : Plan) (t : TransactionRecord) (e : Error)
    → Keeps (Books c) (fail_withdraw plan t e)
unfolding fail_withdraw
fail_withdraw-Keeps c plan t e =
    then-Triple (mark_tx_failed-Keeps c t.transaction_id _)
      (then-Triple (mark_active-Keeps c plan.position.id) (raise-Keeps e))

tracked_withdraw-Keeps :
    (env : Env) (user_id position_id : ℕ) (plan : Plan) (dto : WithdrawDto) (t : TransactionRecord)
    → OthersKeep env
    → plan.shares_to_burn ≡ plan.withdraw_amount
    → Keeps (Books (withdraw_claim plan t)) (
        log_audit user_id AuditAction.withdraw_requested t.transaction_id
          (requested_metadata position_id plan dto)
        >> catch (settle_withdraw env user_id position_id plan dto t) (fail_withdraw plan t))
tracked_withdraw-Keeps env user_id position_id plan dto t others even =
    let c = withdraw_claim plan t in
    then-Triple (log_audit-Keeps c _ _ _ _) (
      catch-Triple (settle_withdraw-Keeps env user_id position_id plan dto t others even)
        (fail_withdraw-Keeps c plan t))

-- The withdrawal of a user, run where the books hold, ends where they hold, whether it returns or
-- throws and whatever the chain answers, provided the other requests keep them.
pub withdraw_position-Keeps :
    (env : Env)
    → OthersKeep env
    → (user_id position_id : ℕ) (dto : WithdrawDto)
    → Keeps (Books none) (withdraw_position env user_id position_id dto)
unfolding withdraw_position
withdraw_position-Keeps env others user_id position_id dto =
    bind-Triple (plan_withdraw-IsSound env user_id position_id dto) λ plan. given-Triple λ sound.
      bind-Triple (has_open_withdraw-Keeps none position_id) λ has_open.
        then-Triple (raise_if-Plain has_open withdraw_in_progress) (
          then-Triple (modify-Keeps (env.others at_open) (others at_open none)) (
            bind-Triple (open_withdraw-Holds user_id position_id plan dto sound.even) λ t.
              Triple-mono
                (tracked_withdraw-Keeps env user_id position_id plan dto t others sound.even)
                (λ a db b. release-Books (withdraw_claim plan t) db b)
                (λ db b. release-Books (withdraw_claim plan t) db b)))
