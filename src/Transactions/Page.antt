-- ===== src/Transactions/Page.antt =====
-- `findByUserWithFilters` in transactions.repository.ts and transactions.service.ts: the pages of a
-- user's transactions.
pub mod Pages
use earn_defi_nestjs_backend.Base.{
  ℕ, zero, suc, ◌+◌, ◌-◌, ◌*◌, ◌==◌, Bool, true, false, ◌&&◌, Option, none, some, List, map, length,
  take, drop, find_first, find_many,
}
use earn_defi_nestjs_backend.Schema.Status.{TransactionType, TransactionStatus}
use earn_defi_nestjs_backend.Schema.Rows.{Db, Vault, Transaction}
use earn_defi_nestjs_backend.Monad.{Error, Action, pure, raise, gets, ◌>>=◌, external}
use earn_defi_nestjs_backend.Transactions.Repository.{is_just}
use earn_defi_nestjs_backend.Transactions.Service.{TransactionRecord, to_record}

-- A filter that is left out fits every row.
pub record Filters : Type 0 where
  pub user_id : ℕ
  pub wallet_id : Option ℕ
  pub vault_slug : Option ℕ
  pub position_id : Option ℕ
  pub type : Option TransactionType
  pub status : Option TransactionStatus

abbrev pub type_number : TransactionType → ℕ
type_number TransactionType.approval = 0
type_number TransactionType.deposit = 1
type_number TransactionType.withdraw = 2
type_number TransactionType.yield_claim = 3
type_number TransactionType.rebalance = 4

abbrev pub status_number : TransactionStatus → ℕ
status_number TransactionStatus.created = 0
status_number TransactionStatus.submitted = 1
status_number TransactionStatus.confirmed = 2
status_number TransactionStatus.failed = 3
status_number TransactionStatus.reverted = 4

abbrev pub fits_id : Option ℕ → Option ℕ → Bool
fits_id none column = true
fits_id (some n) column = is_just n column

abbrev pub fits_type : Option TransactionType → TransactionType → Bool
fits_type none type = true
fits_type (some t) type = type_number t == type_number type

abbrev pub fits_status : Option TransactionStatus → TransactionStatus → Bool
fits_status none status = true
fits_status (some s) status = status_number s == status_number status

-- `include: { vault: true }`, and the slug of the vault.
abbrev pub slug_of : List Vault → Option ℕ → Option ℕ
slug_of vaults none = none
slug_of vaults (some id) = elim (find_first (λ (v : Vault). v.id == id) vaults) [
  | none ↦ none
  | some v ↦ some v.slug
]

abbrev pub fits : Filters → List Vault → Transaction → Bool
fits f vaults t =
    t.user_id == f.user_id
    && fits_id f.wallet_id t.wallet_id
    && fits_id f.position_id t.position_id
    && fits_type f.type t.type
    && fits_status f.status t.status
    && fits_id f.vault_slug (slug_of vaults t.vault_id)

-- The rows and how many there are in all; the table holds the newest first.
unfoldable pub find_rows : Filters → ℕ → ℕ → Action (List Transaction × ℕ)
find_rows f skip limit = gets (λ db.
    let rows = find_many (fits f db.vaults) db.transactions in
    (take limit (drop skip rows), length rows))

abbrev pub with_slug : List Vault → Transaction → TransactionRecord
with_slug vaults t = record (to_record t) { vault_slug = slug_of vaults t.vault_id }

pub record Page : Type 0 where
  pub items : List TransactionRecord
  pub total : ℕ
  pub page : ℕ
  pub limit : ℕ

abbrev pub given : ℕ → Option ℕ → ℕ
given default none = default
given default (some n) = n

-- `skip = (page - 1) * limit`, which Prisma refuses below zero.
unfoldable pub find_page : Filters → ℕ → ℕ → Action Page
unfolding find_rows
find_page f zero limit = raise (external 0)
find_page f (suc before) limit = do
  (rows, total) ← find_rows f (before * limit) limit
  vaults ← gets (λ db. db.vaults)
  pure (record {
    items = map (with_slug vaults) rows;
    total = total;
    page = suc before;
    limit = limit;
  })

unfoldable pub find_by_user_with_filters : Filters → Option ℕ → Option ℕ → Action Page
unfolding find_page
find_by_user_with_filters f page limit = find_page f (given 1 page) (given 20 limit)
