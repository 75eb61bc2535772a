-- ===== src/Books/Operations/Positions.antt =====
-- positions.service.ts: the books before and after each operation.
use earn_defi_nestjs_backend.Base.{
  ℕ, suc, refl, ap, inl, inr, Option-cases, ◌∷◌, arith, ℤ, pos, ◌+ℤ◌, int_laws, find_first,
  All-find_first,
}
use earn_defi_nestjs_backend.Schema.Status.{PositionStatus}
use earn_defi_nestjs_backend.Schema.Rows.{Position}
use earn_defi_nestjs_backend.Monad.{ok, err, position_missing, record_missing, unique_violation}
use earn_defi_nestjs_backend.Monad.Triple.{Keeps, pure-Keeps, bind-Triple, cases-Triple}
use earn_defi_nestjs_backend.Positions.Amounts.{
  IsBacked, even_deposit, even_withdrawal, subtract_withdraw_lem, write_withdraw,
  write_withdraw-IsBacked,
}
use earn_defi_nestjs_backend.Positions.Repository.{update, set_amounts, set_status, increment}
use earn_defi_nestjs_backend.Positions.Repository as PositionRows
use earn_defi_nestjs_backend.Positions.Service as Positions
use earn_defi_nestjs_backend.Books.{Claim, Books}
use earn_defi_nestjs_backend.Books.Writes.{write_row-Books, next_id-Books}

module _ (c : Claim) where
  -- What each write of a position's columns keeps.
  update-Keeps :
      (id : ℕ) (f : ℕ → Position → Position)
      → ((now : ℕ) (p : Position) → IsBacked p → IsBacked (f now p))
      → Keeps (Books c) (update id f)
  update-Keeps id f keep = cases-Triple _ λ db b.
      elim (Option-cases (find_first (PositionRows.has_id id) db.positions)) [
        | inl missing ↦ ((err record_missing, db), ground arith, b)
        | inr (p, found) ↦ (
          (ok (f db.now p), PositionRows.write_row id (f db.now) db),
          ground arith,
          write_row-Books c id (f db.now) db (keep db.now) b,
        )
      ]

  pub create_pending-Keeps :
      (user_id vault_id : ℕ) → Keeps (Books c) (Positions.create_pending user_id vault_id)
  unfolding Positions.create_pending
  create_pending-Keeps user_id vault_id = cases-Triple _ λ db b.
      let row = PositionRows.new_row user_id vault_id PositionStatus.pending db in
      elim (Option-cases
        (find_first (PositionRows.has_user_and_vault user_id vault_id) db.positions)) [
          | inl missing ↦ (
            (
              ok (Positions.to_record row),
              record db { positions = row ∷ db.positions; next_id = suc db.next_id },
            ),
            ground arith,
            next_id-Books c db _ ((omega arith, refl, refl), b.backed) refl refl b,
          )
          | inr (p, found) ↦ ((err unique_violation, db), ground arith, b)
        ]

  pub activate-Keeps : (id n : ℕ) → Keeps (Books c) (Positions.activate id (even_deposit (pos n)))
  unfolding Positions.activate
  activate-Keeps id n =
      bind-Triple (update-Keeps id _ (λ now p h. (omega arith, refl, refl))) (λ p. pure-Keeps _)

  pub add_deposit-Keeps :
      (id n : ℕ) → Keeps (Books c) (Positions.add_deposit id (even_deposit (pos n)))
  unfolding Positions.add_deposit
  add_deposit-Keeps id n =
      bind-Triple
        (update-Keeps id _
          (λ now p h. (omega int_laws, ap (λ a. a +ℤ pos n) h.1, ap (λ a. a +ℤ pos n) h.2)))
        (λ p. pure-Keeps _)

  pub mark_withdrawing-Keeps : (id : ℕ) → Keeps (Books c) (Positions.mark_withdrawing id)
  unfolding Positions.mark_withdrawing
  mark_withdrawing-Keeps id = bind-Triple (update-Keeps id _ (λ now p h. h)) (λ p. pure-Keeps _)

  pub mark_active-Keeps : (id : ℕ) → Keeps (Books c) (Positions.mark_active id)
  unfolding Positions.mark_active
  mark_active-Keeps id = bind-Triple (update-Keeps id _ (λ now p h. h)) (λ p. pure-Keeps _)

  pub mark_failed-Keeps : (id : ℕ) → Keeps (Books c) (Positions.mark_failed id)
  unfolding Positions.mark_failed
  mark_failed-Keeps id = bind-Triple (update-Keeps id _ (λ now p h. h)) (λ p. pure-Keeps _)

  pub subtract_withdraw-Keeps :
      (id : ℕ) (n : ℤ) → Keeps (Books c) (Positions.subtract_withdraw id (even_withdrawal n))
  unfolding Positions.subtract_withdraw
  subtract_withdraw-Keeps id n = bind-Triple rows (λ p. pure-Keeps _)
    where
      rows : Keeps (Books c) (PositionRows.subtract_withdraw id (even_withdrawal n))
      rows = cases-Triple _ λ db b.
          elim (Option-cases (find_first (PositionRows.has_id id) db.positions)) [
            | inl missing ↦ ((err position_missing, db), ground arith, b)
            | inr (p, found) ↦ (
              _,
              subtract_withdraw_lem id (even_withdrawal n) db p found,
              write_row-Books c id (write_withdraw p (even_withdrawal n) db.now) db
                  (λ q h. write_withdraw-IsBacked p n db.now q (
                    All-find_first IsBacked (PositionRows.has_id id) db.positions p b.backed found))
                  b,
            )
          ]
