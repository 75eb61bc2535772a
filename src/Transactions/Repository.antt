-- ===== src/Transactions/Repository.antt =====
-- transactions.repository.ts: the queries on the `transactions` table.
use earn_defi_nestjs_backend.Base.{
  ℕ, suc, ltb, leb, ◌==◌, if◌then◌else◌, Bool, true, false, ◌&&◌, Option, none, some, List, [], ◌∷◌,
  ℤ, is_some, take, find_first, find_many, update_where, count_where,
}
use earn_defi_nestjs_backend.Schema.Status.{
  TransactionType, TransactionStatus, is_deposit, is_withdraw, is_created, is_submitted, is_open,
}
use earn_defi_nestjs_backend.Schema.Rows.{Db, Transaction, Metadata}
use earn_defi_nestjs_backend.Monad.{ok, err, Action, gets, record_missing}

pub record CreateTransactionInput : Type 0 where
  pub user_id : ℕ
  pub wallet_id : ℕ
  pub chain_id : ℕ
  pub type : TransactionType
  pub amount : ℤ
  pub vault_id : Option ℕ
  pub position_id : Option ℕ
  pub metadata : Option Metadata

-- The `data` of an update: a field that is left out (`undefined`) keeps the column as it is.
pub record StatusUpdate : Type 0 where
  pub status : TransactionStatus
  pub tx_hash : Option ℕ
  pub block_number : Option ℕ
  pub metadata : Option Metadata

abbrev pub has_id : ℕ → Transaction → Bool
has_id id t = t.id == id

-- `x === y` where the column may be null.
abbrev pub is_just : ℕ → Option ℕ → Bool
is_just n none = false
is_just n (some m) = m == n

abbrev pub given_or : Option ℕ → Option ℕ → Option ℕ
given_or none old = old
given_or (some n) old = some n

abbrev pub given_metadata : Option Metadata → Option Metadata → Option Metadata
given_metadata none old = old
given_metadata (some m) old = some m

abbrev pub new_row : CreateTransactionInput → Db → Transaction
new_row input db = record {
  id = db.next_id;
  user_id = input.user_id;
  wallet_id = some input.wallet_id;
  vault_id = input.vault_id;
  position_id = input.position_id;
  type = input.type;
  status = TransactionStatus.created;
  amount = input.amount;
  tx_hash = none;
  chain_id = input.chain_id;
  block_number = none;
  metadata = input.metadata;
  created_at = db.now;
  updated_at = db.now;
}

unfoldable pub create : CreateTransactionInput → Action Transaction
create input db =
    (ok row, record db { transactions = row ∷ db.transactions; next_id = suc db.next_id })
  where
    row : Transaction
    row = new_row input db

abbrev pub is_open_deposit : ℕ → ℕ → Transaction → Bool
is_open_deposit user_id vault_id t =
    t.user_id == user_id && is_just vault_id t.vault_id && is_deposit t.type && is_open t.status

unfoldable pub find_open_deposit : ℕ → ℕ → Action (Option Transaction)
find_open_deposit user_id vault_id =
    gets (λ db. find_first (is_open_deposit user_id vault_id) db.transactions)

abbrev pub is_open_withdraw : ℕ → Transaction → Bool
is_open_withdraw position_id t =
    is_just position_id t.position_id && is_withdraw t.type && is_open t.status

unfoldable pub find_open_withdraw : ℕ → Action (Option Transaction)
find_open_withdraw position_id =
    gets (λ db. find_first (is_open_withdraw position_id) db.transactions)

abbrev pub apply_update : StatusUpdate → ℕ → Transaction → Transaction
apply_update u now t = record t {
  status = u.status;
  tx_hash = given_or u.tx_hash t.tx_hash;
  block_number = given_or u.block_number t.block_number;
  metadata = given_metadata u.metadata t.metadata;
  updated_at = now;
}

abbrev pub write_rows : (Transaction → Bool) → (Transaction → Transaction) → Db → Db
write_rows p f db = record db { transactions = update_where p f db.transactions }

-- `update` throws when no row has the key.
unfoldable pub update_status : ℕ → StatusUpdate → Action Transaction
update_status id u db = elim (find_first (has_id id) db.transactions) [
  | none ↦ (err record_missing, db)
  | some t ↦ (ok (apply_update u db.now t), write_rows (has_id id) (apply_update u db.now) db)
]

unfoldable pub find_by_id : ℕ → Action (Option Transaction)
find_by_id id = gets (λ db. find_first (has_id id) db.transactions)

abbrev pub has_id_submitted : ℕ → Transaction → Bool
has_id_submitted id t = has_id id t && is_submitted t.status

abbrev pub confirmation : ℕ → Option Metadata → StatusUpdate
confirmation block_number metadata = record {
  status = TransactionStatus.confirmed;
  tx_hash = none;
  block_number = some block_number;
  metadata = metadata;
}

-- `updateMany` where the row has the id and is still SUBMITTED; `applied` tells whether one was.
unfoldable pub confirm_submitted : ℕ → ℕ → Option Metadata → Action (Bool × Transaction)
confirm_submitted id block_number metadata db =
    let count = count_where (has_id_submitted id) db.transactions in
    let db' =
      write_rows (has_id_submitted id) (apply_update (confirmation block_number metadata) db.now)
        db in
    elim (find_first (has_id id) db'.transactions) [
      | none ↦ (err record_missing, db')
      | some t ↦ (ok (ltb 0 count, t), db')
    ]

-- `orderBy: { column: 'asc' }`, which keeps rows of one time in table order.
unfoldable pub insert_asc : (Transaction → ℕ) → Transaction → List Transaction → List Transaction
insert_asc key t [] = t ∷ []
insert_asc key t (u ∷ us) =
    let rest = insert_asc key t us in if leb (key t) (key u) then t ∷ u ∷ us else u ∷ rest

unfoldable pub order_asc : (Transaction → ℕ) → List Transaction → List Transaction
unfolding insert_asc
order_asc key [] = []
order_asc key (t ∷ ts) = insert_asc key t (order_asc key ts)

abbrev pub is_pending_reconciliation : Transaction → Bool
is_pending_reconciliation t = is_submitted t.status && is_some t.tx_hash

unfoldable pub find_pending_reconciliation : ℕ → Action (List Transaction)
find_pending_reconciliation limit = gets (λ db.
    take limit
      (order_asc (λ t. t.updated_at) (find_many is_pending_reconciliation db.transactions)))

abbrev pub is_stale_created : ℕ → Transaction → Bool
is_stale_created older_than t =
    is_created t.status
    && (if is_some t.tx_hash then false else true)
    && ltb t.created_at older_than

unfoldable pub find_stale_created : ℕ → ℕ → Action (List Transaction)
find_stale_created older_than limit = gets (λ db.
    take limit
      (order_asc (λ t. t.created_at) (find_many (is_stale_created older_than) db.transactions)))

-- The table holds the newest row first, which is `orderBy: { createdAt: 'desc' }`.
unfoldable pub find_by_position_id : ℕ → Action (List Transaction)
find_by_position_id position_id =
    gets (λ db. find_many (λ t. is_just position_id t.position_id) db.transactions)
