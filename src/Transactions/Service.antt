-- ===== src/Transactions/Service.antt =====
-- transactions.service.ts: the operations on transactions that the other services call. A row is
-- handed out as a `TransactionRecord`.
use earn_defi_nestjs_backend.Base.{ℕ, Bool, Option, none, some, List, map, ℤ, is_some}
use earn_defi_nestjs_backend.Schema.Status.{TransactionType, TransactionStatus}
use earn_defi_nestjs_backend.Schema.Rows.{Transaction, Metadata}
use earn_defi_nestjs_backend.Monad.{Action, pure, ◌>>=◌}
use earn_defi_nestjs_backend.Transactions.Repository.{CreateTransactionInput, StatusUpdate}
use earn_defi_nestjs_backend.Transactions.Repository

pub record TransactionRecord : Type 0 where
  pub transaction_id : ℕ
  pub user_id : ℕ
  pub wallet_id : Option ℕ
  pub vault_id : Option ℕ
  pub vault_slug : Option ℕ
  pub position_id : Option ℕ
  pub type : TransactionType
  pub status : TransactionStatus
  pub amount : ℤ
  pub tx_hash : Option ℕ
  pub chain_id : ℕ
  pub block_number : Option ℕ
  pub metadata : Option Metadata
  pub created_at : ℕ
  pub updated_at : ℕ

abbrev pub to_record : Transaction → TransactionRecord
to_record t = record {
  transaction_id = t.id;
  user_id = t.user_id;
  wallet_id = t.wallet_id;
  vault_id = t.vault_id;
  vault_slug = none;
  position_id = t.position_id;
  type = t.type;
  status = t.status;
  amount = t.amount;
  tx_hash = t.tx_hash;
  chain_id = t.chain_id;
  block_number = t.block_number;
  metadata = t.metadata;
  created_at = t.created_at;
  updated_at = t.updated_at;
}

abbrev pub to_optional_record : Option Transaction → Option TransactionRecord
to_optional_record none = none
to_optional_record (some t) = some (to_record t)

unfoldable pub has_open_deposit : ℕ → ℕ → Action Bool
unfolding Repository.find_open_deposit
has_open_deposit user_id vault_id = do
  transaction ← Repository.find_open_deposit user_id vault_id
  pure (is_some transaction)

unfoldable pub has_open_withdraw : ℕ → Action Bool
unfolding Repository.find_open_withdraw
has_open_withdraw position_id = do
  transaction ← Repository.find_open_withdraw position_id
  pure (is_some transaction)

unfoldable pub create_transaction : CreateTransactionInput → Action TransactionRecord
unfolding Repository.create
create_transaction input = do transaction ← Repository.create input; pure (to_record transaction)

-- The four `mark…` methods differ in the columns that they write.
abbrev pub update_record : ℕ → StatusUpdate → Action TransactionRecord
update_record id u = do transaction ← Repository.update_status id u; pure (to_record transaction)

abbrev pub submission : ℕ → Option Metadata → StatusUpdate
submission tx_hash metadata = record {
  status = TransactionStatus.submitted;
  tx_hash = some tx_hash;
  block_number = none;
  metadata = metadata;
}

abbrev pub failure : Option Metadata → StatusUpdate
failure metadata = record {
  status = TransactionStatus.failed;
  tx_hash = none;
  block_number = none;
  metadata = metadata;
}

abbrev pub reversal : ℕ → Option Metadata → StatusUpdate
reversal block_number metadata = record {
  status = TransactionStatus.reverted;
  tx_hash = none;
  block_number = some block_number;
  metadata = metadata;
}

unfoldable pub mark_submitted : ℕ → ℕ → Option Metadata → Action TransactionRecord
unfolding Repository.update_status
mark_submitted id tx_hash metadata = update_record id (submission tx_hash metadata)

unfoldable pub mark_confirmed : ℕ → ℕ → Option Metadata → Action TransactionRecord
unfolding Repository.update_status
mark_confirmed id block_number metadata =
    update_record id (Repository.confirmation block_number metadata)

unfoldable pub mark_failed : ℕ → Option Metadata → Action TransactionRecord
unfolding Repository.update_status
mark_failed id metadata = update_record id (failure metadata)

unfoldable pub mark_reverted : ℕ → ℕ → Option Metadata → Action TransactionRecord
unfolding Repository.update_status
mark_reverted id block_number metadata = update_record id (reversal block_number metadata)

unfoldable pub confirm_submitted : ℕ → ℕ → Option Metadata → Action (Bool × TransactionRecord)
unfolding Repository.confirm_submitted
confirm_submitted id block_number metadata = do
  (applied, transaction) ← Repository.confirm_submitted id block_number metadata
  pure (applied, to_record transaction)

unfoldable pub find_pending_reconciliation : Action (List TransactionRecord)
unfolding Repository.find_pending_reconciliation
find_pending_reconciliation = do
  transactions ← Repository.find_pending_reconciliation 100
  pure (map to_record transactions)

unfoldable pub find_stale_created : ℕ → Action (List TransactionRecord)
unfolding Repository.find_stale_created
find_stale_created older_than = do
  transactions ← Repository.find_stale_created older_than 50
  pure (map to_record transactions)

unfoldable pub find_by_id : ℕ → Action (Option TransactionRecord)
unfolding Repository.find_by_id
find_by_id id = do transaction ← Repository.find_by_id id; pure (to_optional_record transaction)

unfoldable pub find_by_position_id : ℕ → Action (List TransactionRecord)
unfolding Repository.find_by_position_id
find_by_position_id position_id = do
  transactions ← Repository.find_by_position_id position_id
  pure (map to_record transactions)
