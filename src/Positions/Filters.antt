-- ===== src/Positions/Filters.antt =====
-- `findByUserWithFilters` and `findByUserIdWithVaults` of positions.repository.ts and
-- positions.service.ts: a user's positions with their vaults.
use earn_defi_nestjs_backend.Base.{
  ℕ, leb, ◌==◌, if◌then◌else◌, Bool, true, ◌&&◌, Option, none, some, List, [], ◌∷◌, is_some,
  find_first, find_many,
}
use earn_defi_nestjs_backend.Schema.Status.{PositionStatus}
use earn_defi_nestjs_backend.Schema.Rows.{Position, Vault, Transaction}
use earn_defi_nestjs_backend.Monad.{Action, gets}
use earn_defi_nestjs_backend.Transactions.Repository.{is_just}

pub record PositionFilters : Type 0 where
  pub user_id : ℕ
  pub vault_slug : Option ℕ
  pub status : Option PositionStatus
  pub wallet_id : Option ℕ

abbrev pub status_number : PositionStatus → ℕ
status_number PositionStatus.active = 0
status_number PositionStatus.closed = 1
status_number PositionStatus.pending = 2
status_number PositionStatus.withdrawing = 3
status_number PositionStatus.failed = 4

abbrev pub fits_status : Option PositionStatus → PositionStatus → Bool
fits_status none status = true
fits_status (some s) status = status_number s == status_number status

abbrev pub fits_slug : Option ℕ → Vault → Bool
fits_slug none v = true
fits_slug (some slug) v = v.slug == slug

-- `transactions: { some: { walletId } }`
abbrev pub is_transaction_of : ℕ → ℕ → Transaction → Bool
is_transaction_of position_id wallet_id t =
    is_just position_id t.position_id && is_just wallet_id t.wallet_id

abbrev pub fits_wallet : Option ℕ → ℕ → List Transaction → Bool
fits_wallet none position_id transactions = true
fits_wallet (some wallet_id) position_id transactions =
    is_some (find_first (is_transaction_of position_id wallet_id) transactions)

-- `include: { vault: true }`; a position's vault is a row of the table (a foreign key).
unfoldable pub join_vaults : List Vault → List Position → List (Position × Vault)
join_vaults vaults [] = []
join_vaults vaults (p ∷ ps) =
    let rest = join_vaults vaults ps in
    elim (find_first (λ (v : Vault). v.id == p.vault_id) vaults) [
      | none ↦ rest
      | some v ↦ (p, v) ∷ rest
    ]

abbrev pub fits : PositionFilters → List Transaction → Position × Vault → Bool
fits f transactions (p, v) =
    p.user_id == f.user_id
    && fits_status f.status p.status
    && fits_slug f.vault_slug v
    && fits_wallet f.wallet_id p.id transactions

-- `orderBy: { updatedAt: 'desc' }`
unfoldable pub insert_updated : Position × Vault → List (Position × Vault) → List (Position × Vault)
insert_updated (p, v) [] = (p, v) ∷ []
insert_updated (p, v) ((q, w) ∷ rest) =
    let later = insert_updated (p, v) rest in
    if leb q.updated_at p.updated_at then (p, v) ∷ (q, w) ∷ rest else (q, w) ∷ later

unfoldable pub order_updated : List (Position × Vault) → List (Position × Vault)
unfolding insert_updated
order_updated [] = []
order_updated (row ∷ rows) = insert_updated row (order_updated rows)

unfoldable pub find_by_user_with_filters : PositionFilters → Action (List (Position × Vault))
unfolding join_vaults order_updated
find_by_user_with_filters f =
    gets (λ db.
      order_updated (find_many (fits f db.transactions) (join_vaults db.vaults db.positions)))

unfoldable pub find_by_user_id_with_vaults : ℕ → Action (List (Position × Vault))
unfolding find_by_user_with_filters
find_by_user_id_with_vaults user_id =
    find_by_user_with_filters
      (record { user_id = user_id; vault_slug = none; status = none; wallet_id = none })
