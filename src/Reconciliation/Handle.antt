-- ===== src/Reconciliation/Handle.antt =====
-- transaction-reconciliation.service.ts: what is done with one transaction.
use earn_defi_nestjs_backend.Base.{
  ℕ, if◌then◌else◌, Bool, true, Option, none, some, [], ◌∷◌, ℤ, pos,
}
use earn_defi_nestjs_backend.Schema.Status.{
  TransactionType, AuditAction, is_pending, is_withdrawing, is_deposit, is_withdraw,
}
use earn_defi_nestjs_backend.Schema.Rows.{
  Metadata, MetaKey, MetaValue, number, text, flag, words, absent,
}
use earn_defi_nestjs_backend.Schema.Chain.{Receipt}
use earn_defi_nestjs_backend.Monad.{
  Result, ok, err, Action, pure, lift, atomic, ◌>>=◌, ◌>>◌, modify, log_audit, bad_number,
}
use earn_defi_nestjs_backend.Env.{Env, at_receipt}
use earn_defi_nestjs_backend.Blockchain.{get_transaction_receipt_with_retry}
use earn_defi_nestjs_backend.Positions.Service.{PositionRecord}
use earn_defi_nestjs_backend.Positions.Service as Positions
use earn_defi_nestjs_backend.Transactions.Service.{TransactionRecord}
use earn_defi_nestjs_backend.Transactions.Service as Transactions
use earn_defi_nestjs_backend.Deposit.{amount_meta, optional_meta}

-- `'confirmed' | 'reverted' | 'pending'`
pub data Outcome : Type 0 where
  confirmed reverted pending : Outcome

-- The two fields of the metadata that are read back.
pub data SharesField : Type 0 where
  estimated burned : SharesField

abbrev pub shares_under : SharesField → MetaKey × MetaValue → Option MetaValue
shares_under estimated (MetaKey.estimated_shares, v) = some v
shares_under burned (MetaKey.shares_burned, v) = some v
shares_under _ _ = none

abbrev pub lookup_shares : SharesField → Metadata → MetaValue
lookup_shares field [] = absent
lookup_shares field (e ∷ rest) = elim (shares_under field e) [
  | some v ↦ v
  | none ↦ lookup_shares field rest
]

-- `readMetadataString`: a string that is not empty, and `'0'` for anything else.
abbrev pub string_or_zero : MetaValue → MetaValue
string_or_zero (number n) = number n
string_or_zero (text n) = text n
string_or_zero (flag b) = number (pos 0)
string_or_zero (words []) = number (pos 0)
string_or_zero (words (c ∷ cs)) = words (c ∷ cs)
string_or_zero absent = number (pos 0)

abbrev pub read_metadata_string : SharesField → Option Metadata → MetaValue
read_metadata_string field none = number (pos 0)
read_metadata_string field (some metadata) = string_or_zero (lookup_shares field metadata)

-- The string as a decimal, where it is written to a position: one that is no number throws.
abbrev pub decimal : MetaValue → Result ℤ
decimal (number n) = ok n
decimal _ = err bad_number

abbrev pub reconciled_metadata : Receipt → Metadata → Metadata
reconciled_metadata receipt rest = amount_meta MetaKey.gas_used receipt.gas_used ∷ rest

abbrev pub reconciled_other_metadata : Receipt → Metadata
reconciled_other_metadata receipt =
    reconciled_metadata receipt ((MetaKey.reconciled, flag true) ∷ [])

abbrev pub reconciled_deposit_metadata : Receipt → MetaValue → Metadata
reconciled_deposit_metadata receipt shares =
    reconciled_metadata receipt
      ((MetaKey.estimated_shares, shares) ∷ (MetaKey.reconciled, flag true) ∷ [])

abbrev pub reconciled_withdraw_metadata : Receipt → MetaValue → Metadata
reconciled_withdraw_metadata receipt shares =
    reconciled_metadata receipt
      ((MetaKey.shares_burned, shares) ∷ (MetaKey.reconciled, flag true) ∷ [])

-- `position?.status === …`, and the position.
abbrev pub when_pending :
    Option PositionRecord → (PositionRecord → Action (Unit {0})) → Action (Unit {0})
when_pending none act = pure tt
when_pending (some p) act = if is_pending p.status then act p else pure tt

abbrev pub when_withdrawing :
    Option PositionRecord → (PositionRecord → Action (Unit {0})) → Action (Unit {0})
when_withdrawing none act = pure tt
when_withdrawing (some p) act = if is_withdrawing p.status then act p else pure tt

-- Under `if (applied && positionId)`, for a deposit.
unfoldable pub credit_pending : Bool → Option ℕ → ℤ → MetaValue → Action (Unit {0})
credit_pending true (some position_id) amount value = do
  position ← Positions.find_by_id position_id
  when_pending position λ p. (do
    shares ← lift (decimal value)
    Positions.activate p.position_id
        (record { deposited_amount = amount; current_amount = amount; shares = shares })
    pure tt)
credit_pending _ _ amount value = pure tt

unfoldable pub confirm_deposit_transaction : TransactionRecord → Receipt → Action (Unit {0})
unfolding credit_pending
confirm_deposit_transaction transaction receipt = do
  let shares = read_metadata_string estimated transaction.metadata
  atomic do
    (applied, row) ←
        Transactions.confirm_submitted transaction.transaction_id receipt.block_number
          (some (reconciled_deposit_metadata receipt shares))
    credit_pending applied transaction.position_id transaction.amount shares

-- The same for a withdrawal.
unfoldable pub debit_withdrawing : Bool → Option ℕ → ℤ → MetaValue → Action (Unit {0})
debit_withdrawing true (some position_id) amount value = do
  position ← Positions.find_by_id position_id
  when_withdrawing position λ p. (do
    shares ← lift (decimal value)
    Positions.subtract_withdraw position_id (record { withdrawn_amount = amount; shares = shares })
    pure tt)
debit_withdrawing _ _ amount value = pure tt

unfoldable pub confirm_withdraw_transaction : TransactionRecord → Receipt → Action (Unit {0})
unfolding debit_withdrawing
confirm_withdraw_transaction transaction receipt = do
  let shares = read_metadata_string burned transaction.metadata
  atomic do
    (applied, row) ←
        Transactions.confirm_submitted transaction.transaction_id receipt.block_number
          (some (reconciled_withdraw_metadata receipt shares))
    debit_withdrawing applied transaction.position_id transaction.amount shares

-- `actionByType[transaction.type]`
abbrev pub action_by_type : TransactionType → Option AuditAction
action_by_type TransactionType.approval = some AuditAction.approval_confirmed
action_by_type TransactionType.deposit = some AuditAction.deposit_confirmed
action_by_type TransactionType.withdraw = some AuditAction.withdraw_confirmed
action_by_type _ = none

-- The type, by its number in the schema.
abbrev pub type_text : TransactionType → MetaValue
type_text TransactionType.approval = text 0
type_text TransactionType.deposit = text 1
type_text TransactionType.withdraw = text 2
type_text TransactionType.yield_claim = text 3
type_text TransactionType.rebalance = text 4

abbrev pub confirmed_audit : TransactionType → Option ℕ → Metadata
confirmed_audit type tx_hash =
    optional_meta MetaKey.tx_hash tx_hash
      ((MetaKey.reconciled, flag true) ∷ (MetaKey.type, type_text type) ∷ [])

unfoldable pub log_confirmed_audit : TransactionRecord → ℕ → Option ℕ → Action (Unit {0})
log_confirmed_audit transaction id tx_hash = elim (action_by_type transaction.type) [
  | none ↦ pure tt
  | some action ↦ log_audit transaction.user_id action id (confirmed_audit transaction.type tx_hash)
]

-- Any other type has no position to move.
unfoldable pub confirm_other_transaction : TransactionRecord → Receipt → Action (Unit {0})
unfolding log_confirmed_audit
confirm_other_transaction transaction receipt = do
  (applied, row) ←
      Transactions.confirm_submitted transaction.transaction_id receipt.block_number
        (some (reconciled_other_metadata receipt))
  if applied then log_confirmed_audit transaction row.transaction_id row.tx_hash else pure tt

unfoldable pub handle_confirmed_transaction : TransactionRecord → Receipt → Action (Unit {0})
unfolding confirm_deposit_transaction confirm_withdraw_transaction confirm_other_transaction
handle_confirmed_transaction transaction receipt =
    if is_deposit transaction.type
    then confirm_deposit_transaction transaction receipt
    else if is_withdraw transaction.type
    then confirm_withdraw_transaction transaction receipt
    else confirm_other_transaction transaction receipt

-- What a revert does to the position: a pending deposit fails, a withdrawal gives it back.
unfoldable pub give_back : TransactionType → Option ℕ → Action (Unit {0})
give_back type none = pure tt
give_back type (some position_id) = do
  position ← Positions.find_by_id position_id
  if is_deposit type
      then when_pending position (λ p. Positions.mark_failed p.position_id >> pure tt)
      else if is_withdraw type
      then when_withdrawing position (λ p. Positions.mark_active p.position_id >> pure tt)
      else pure tt

unfoldable pub handle_reverted_transaction : TransactionRecord → Receipt → Action (Unit {0})
unfolding give_back
handle_reverted_transaction transaction receipt = atomic do
  Transactions.mark_reverted transaction.transaction_id receipt.block_number
      (some (reconciled_metadata receipt ((MetaKey.reconciled, flag true) ∷ [])))
  give_back transaction.type transaction.position_id

-- The client never returns an empty receipt: it throws.
unfoldable pub reconcile_hash : Env → TransactionRecord → Option ℕ → Action Outcome
unfolding handle_confirmed_transaction handle_reverted_transaction
reconcile_hash env transaction none = pure pending
reconcile_hash env transaction (some hash) = do
  modify (env.others at_receipt)
  receipt ← get_transaction_receipt_with_retry env transaction.chain_id hash
  if receipt.success
      then (handle_confirmed_transaction transaction receipt >> pure confirmed)
      else (handle_reverted_transaction transaction receipt >> pure reverted)

unfoldable pub reconcile_transaction : Env → TransactionRecord → Action Outcome
unfolding reconcile_hash
reconcile_transaction env transaction = reconcile_hash env transaction transaction.tx_hash
