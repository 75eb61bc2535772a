-- ===== src/Transactions/Order.antt =====
-- `orderBy` in transactions.repository.ts: what holds of all rows holds of the ordered rows.
use earn_defi_nestjs_backend.Base.{ℕ, leb, List, [], ◌∷◌, All, inl, inr, Bool-cases}
use earn_defi_nestjs_backend.Schema.Rows.{Transaction}
use earn_defi_nestjs_backend.Transactions.Repository.{insert_asc, order_asc}

module _ (P : Transaction → Type 0) (key : Transaction → ℕ) where
  All-insert_asc :
      (t : Transaction) (ts : List Transaction) → P t → All P ts → All P (insert_asc key t ts)
  unfolding insert_asc
  All-insert_asc t [] p ps = (p, tt)
  All-insert_asc t (u ∷ us) p (q, qs) =
      let rest = All-insert_asc t us p qs in
      elim (Bool-cases (leb (key t) (key u))) [
        | inl before ↦ rw (before, All) (p, (q, qs))
        | inr after ↦ rw (after, All) (q, rest)
      ]

  pub All-order_asc : (ts : List Transaction) → All P ts → All P (order_asc key ts)
  unfolding order_asc
  All-order_asc [] ps = tt
  All-order_asc (t ∷ ts) (p, ps) = All-insert_asc t (order_asc key ts) p (All-order_asc ts ps)
