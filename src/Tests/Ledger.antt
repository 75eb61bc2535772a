-- ===== src/Tests/Ledger.antt =====
-- A deposit, a top-up and two withdrawals of one position, the second of more than is left.
use earn_defi_nestjs_backend.Base.{ℕ, ◌≡◌, ◌≢◌, refl, some, [], ◌∷◌, find_first}
use earn_defi_nestjs_backend.Schema.Status.{PositionStatus}
use earn_defi_nestjs_backend.Schema.Rows.{Db, Position}
use earn_defi_nestjs_backend.Monad.{ok}
use earn_defi_nestjs_backend.Positions.Repository.{has_id}
use earn_defi_nestjs_backend.Positions.Ledger.{
  added, withdrawn, requested, Account, Represents, post, post_all, move_all, move_all-refines,
}
use earn_defi_nestjs_backend.Tests.Data.{tables, position}

abbrev held : Db
held = tables (position PositionStatus.active ∷ []) []

abbrev fifty : Account
fifty = record { balance = 50; status = PositionStatus.active }

move_all-refines_example :
    let ms = added 5 ∷ requested ∷ withdrawn 30 ∷ requested ∷ withdrawn 90 ∷ [] in
    (db' : Db) × (q : Position) × (move_all 20 ms held ≡ (ok tt, db'))
    × (find_first (has_id 20) db'.positions ≡ some q)
    × Represents (post_all ms fifty) q
    × ((other : ℕ)
        → other ≢ 20
        → find_first (has_id other) db'.positions ≡ find_first (has_id other) held.positions)
unfolding find_first
move_all-refines_example =
    move_all-refines 20 (added 5 ∷ requested ∷ withdrawn 30 ∷ requested ∷ withdrawn 90 ∷ []) fifty
      held (position PositionStatus.active) refl
      (record { deposited = refl; current = refl; shares = refl; status = refl })

used_up :
    post_all (added 5 ∷ requested ∷ withdrawn 30 ∷ requested ∷ withdrawn 90 ∷ []) fifty
    ≡ record { balance = 0; status = PositionStatus.closed }
unfolding post_all post
used_up = refl
