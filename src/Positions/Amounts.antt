-- ===== src/Positions/Amounts.antt =====
-- The three amounts of a position under deposits and withdrawals.
use earn_defi_nestjs_backend.Base.{
  ℕ, if◌then◌else◌, ◌≡◌, ◌≢◌, refl, ap, false, some, arith, inl, inr, Bool-cases, ℤ, pos, ◌+ℤ◌,
  ◌-ℤ◌, ◌≤ℤ◌, leb_ℤ, int_laws, find_first, find_first-update_self, find_first-update_other,
}
use earn_defi_nestjs_backend.Schema.Status.{PositionStatus}
use earn_defi_nestjs_backend.Schema.Rows.{Db, Position}
use earn_defi_nestjs_backend.Monad.{ok}
use earn_defi_nestjs_backend.Positions.Repository.{
  ActivatePositionInput, WithdrawPositionInput, has_id, write_row, set_amounts, increment,
  zero_amounts, remaining, subtract_withdraw, add_deposit,
}

-- Each share stands for one unit of the asset, and none is owed.
abbrev pub IsBacked : Position → Type 0
IsBacked p = (pos 0 ≤ℤ p.shares) × (p.deposited_amount ≡ p.shares) × (p.current_amount ≡ p.shares)

-- A withdrawal of one amount in assets and shares.
abbrev pub even_withdrawal : ℤ → WithdrawPositionInput
even_withdrawal n = record { withdrawn_amount = n; shares = n }

abbrev pub even_deposit : ℤ → ActivatePositionInput
even_deposit n = record { deposited_amount = n; current_amount = n; shares = n }

-- What `subtractWithdraw` writes, given the row `p` that it read.
abbrev pub write_withdraw : Position → WithdrawPositionInput → ℕ → Position → Position
write_withdraw p input now q =
    if leb_ℤ (remaining p input).shares (pos 0)
    then set_amounts PositionStatus.closed zero_amounts now q
    else set_amounts PositionStatus.active (remaining p input) now q

abbrev pub after_withdraw : Position → WithdrawPositionInput → ℕ → Position
after_withdraw p input now = write_withdraw p input now p

-- What a write to one row leaves to be found under the ids.
pub find-write_row :
    (id : ℕ) (f : Position → Position) (db : Db) (p : Position)
    → ((q : Position) → (f q).id ≡ q.id)
    → find_first (has_id id) db.positions ≡ some p
    → find_first (has_id id) (write_row id f db).positions ≡ some (f p)
find-write_row id f db p keep h =
    rw (find_first-update_self (has_id id) f db.positions (λ a e. rw (keep a) e), h)

pub find-write_row_other :
    (id other : ℕ) (f : Position → Position) (db : Db)
    → ((q : Position) → (f q).id ≡ q.id)
    → other ≢ id
    → find_first (has_id other) (write_row id f db).positions
      ≡ find_first (has_id other) db.positions
find-write_row_other id other f db keep ne =
    find_first-update_other (has_id other) (has_id id) f db.positions
      (λ a e. let miss : has_id other a ≡ false = ground arith in (miss, rw (keep a) miss))

pub subtract_withdraw_lem :
    (id : ℕ) (input : WithdrawPositionInput) (db : Db) (p : Position)
    → find_first (has_id id) db.positions ≡ some p
    → subtract_withdraw id input db
      ≡ (ok (after_withdraw p input db.now), write_row id (write_withdraw p input db.now) db)
unfolding subtract_withdraw
subtract_withdraw_lem id input db p h =
    elim (Bool-cases (leb_ℤ (remaining p input).shares (pos 0))) [
      | inl used_up ↦ ground arith
      | inr some_left ↦ ground arith
    ]

write_withdraw_id :
    (p : Position) (input : WithdrawPositionInput) (now : ℕ) (q : Position)
    → (write_withdraw p input now q).id ≡ q.id
write_withdraw_id p input now q = ground arith

-- What is written is backed, if the row that was read is.
pub write_withdraw-IsBacked :
    (p : Position) (n : ℤ) (now : ℕ) (q : Position)
    → IsBacked p
    → IsBacked (write_withdraw p (even_withdrawal n) now q)
write_withdraw-IsBacked p n now q backed = grind int_laws

after_withdraw_shares :
    (p : Position) (n : ℤ) (now : ℕ)
    → n ≤ℤ p.shares
    → (after_withdraw p (even_withdrawal n) now).shares +ℤ n ≡ p.shares
after_withdraw_shares p n now within = grind int_laws

after_withdraw_status :
    (p : Position) (n : ℤ) (now : ℕ)
    → (after_withdraw p (even_withdrawal n) now).status
      ≡ (if leb_ℤ p.shares n then PositionStatus.closed else PositionStatus.active)
after_withdraw_status p n now = grind int_laws

-- A withdrawal of at most the shares of a backed position, the same in assets and shares: the
-- position stays backed, its amounts fall by exactly that, it is closed when nothing is left and
-- active otherwise, and no other position is touched.
pub subtract_withdraw_exact :
    (id : ℕ) (n : ℤ) (db : Db) (p : Position)
    → find_first (has_id id) db.positions ≡ some p
    → IsBacked p
    → n ≤ℤ p.shares
    → let (r, db') = subtract_withdraw id (even_withdrawal n) db in
      let row = after_withdraw p (even_withdrawal n) db.now in
      (r ≡ ok row)
      × (find_first (has_id id) db'.positions ≡ some row)
      × IsBacked row
      × (row.shares +ℤ n ≡ p.shares)
      × (row.status ≡ (if leb_ℤ p.shares n then PositionStatus.closed else PositionStatus.active))
      × ((other : ℕ)
          → other ≢ id
          → find_first (has_id other) db'.positions ≡ find_first (has_id other) db.positions)
unfolding subtract_withdraw
subtract_withdraw_exact id n db p h backed within =
    let f = write_withdraw p (even_withdrawal n) db.now in
    rw (subtract_withdraw_lem id (even_withdrawal n) db p h) (
      refl,
      find-write_row id f db p (write_withdraw_id p (even_withdrawal n) db.now) h,
      write_withdraw-IsBacked p n db.now p backed,
      after_withdraw_shares p n db.now within,
      after_withdraw_status p n db.now,
      λ other ne.
          find-write_row_other id other f db (write_withdraw_id p (even_withdrawal n) db.now) ne,
    )

+ℤ-ℤ_cancel : (a : ℤ) (n : ℕ) → a +ℤ pos n -ℤ pos n ≡ a
+ℤ-ℤ_cancel a n = omega int_laws

add_deposit_lem :
    (id : ℕ) (input : ActivatePositionInput) (db : Db) (p : Position)
    → find_first (has_id id) db.positions ≡ some p
    → add_deposit id input db
      ≡ (ok (increment input db.now p), write_row id (increment input db.now) db)
unfolding add_deposit
add_deposit_lem id input db p h = ground arith

-- A deposit into a backed position that holds something and a withdrawal of the same amount, one
-- after the other, leave its amounts as they were, and leave it active.
pub deposit_withdraw_amounts :
    (id n : ℕ) (db : Db) (p : Position)
    → find_first (has_id id) db.positions ≡ some p
    → IsBacked p
    → pos 1 ≤ℤ p.shares
    → let db' = (add_deposit id (even_deposit (pos n)) db).1 in
      (row : Position) × ((subtract_withdraw id (even_withdrawal (pos n)) db').0 ≡ ok row)
      × (row.status ≡ PositionStatus.active)
      × (row.shares ≡ p.shares)
      × (row.current_amount ≡ p.current_amount)
      × (row.deposited_amount ≡ p.deposited_amount)
deposit_withdraw_amounts id n db p h backed held =
    let f = increment (even_deposit (pos n)) db.now in
    let grown = find-write_row id f db p (λ q. refl) h in
    rw (add_deposit_lem id (even_deposit (pos n)) db p h) (
      after_withdraw (f p) (even_withdrawal (pos n)) db.now,
      ap (λ r. r.0)
          (subtract_withdraw_lem id (even_withdrawal (pos n)) (write_row id f db) (f p) grown),
      rw (+ℤ-ℤ_cancel p.shares n) (ground arith),
      rw (+ℤ-ℤ_cancel p.shares n) (ground arith),
      rw (+ℤ-ℤ_cancel p.shares n, +ℤ-ℤ_cancel p.current_amount n) (ground arith),
      rw (+ℤ-ℤ_cancel p.shares n, +ℤ-ℤ_cancel p.deposited_amount n) (ground arith),
    )
