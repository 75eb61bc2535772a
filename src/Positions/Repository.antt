-- ===== src/Positions/Repository.antt =====
-- positions.repository.ts: the queries on the `positions` table.
use earn_defi_nestjs_backend.Base.{
  ℕ, suc, ◌==◌, if◌then◌else◌, Bool, ◌&&◌, Option, none, some, ◌∷◌, ℤ, pos, ◌+ℤ◌, ◌-ℤ◌, leb_ℤ,
  find_first, update_where,
}
use earn_defi_nestjs_backend.Schema.Status.{PositionStatus}
use earn_defi_nestjs_backend.Schema.Rows.{Db, Position, Vault}
use earn_defi_nestjs_backend.Monad.{
  ok, err, Action, gets, or_raise, ◌>>=◌, record_missing, unique_violation, position_missing,
}

pub record ActivatePositionInput : Type 0 where
  pub deposited_amount : ℤ
  pub current_amount : ℤ
  pub shares : ℤ

pub record WithdrawPositionInput : Type 0 where
  pub withdrawn_amount : ℤ
  pub shares : ℤ

abbrev pub has_id : ℕ → Position → Bool
has_id id p = p.id == id

-- The unique index on user and vault.
abbrev pub has_user_and_vault : ℕ → ℕ → Position → Bool
has_user_and_vault user_id vault_id p = p.user_id == user_id && p.vault_id == vault_id

unfoldable pub find_by_user_and_vault : ℕ → ℕ → Action (Option Position)
find_by_user_and_vault user_id vault_id =
    gets (λ db. find_first (has_user_and_vault user_id vault_id) db.positions)

unfoldable pub find_by_id : ℕ → Action (Option Position)
find_by_id id = gets (λ db. find_first (has_id id) db.positions)

-- `include: { vault: true }`; a position's vault is a row of the table (a foreign key).
abbrev pub with_vault : Option Position → Db → Option (Position × Vault)
with_vault none db = none
with_vault (some p) db = elim (find_first (λ v. v.id == p.vault_id) db.vaults) [
  | none ↦ none
  | some v ↦ some (p, v)
]

unfoldable pub find_by_id_with_vault : ℕ → Action (Option (Position × Vault))
find_by_id_with_vault id = gets (λ db. with_vault (find_first (has_id id) db.positions) db)

abbrev pub new_row : ℕ → ℕ → PositionStatus → Db → Position
new_row user_id vault_id status db = record {
  id = db.next_id;
  user_id = user_id;
  vault_id = vault_id;
  status = status;
  deposited_amount = pos 0;
  current_amount = pos 0;
  shares = pos 0;
  created_at = db.now;
  updated_at = db.now;
}

-- A second position of one user in one vault is refused by the unique index.
unfoldable pub create : ℕ → ℕ → PositionStatus → Action Position
create user_id vault_id status db =
    elim (find_first (has_user_and_vault user_id vault_id) db.positions) [
      | some p ↦ (err unique_violation, db)
      | none ↦ (
        ok (new_row user_id vault_id status db),
        record db {
          positions = new_row user_id vault_id status db ∷ db.positions;
          next_id = suc db.next_id;
        },
      )
    ]

abbrev pub write_row : ℕ → (Position → Position) → Db → Db
write_row id f db = record db { positions = update_where (has_id id) f db.positions }

-- `db.position.update`, which throws when no row has the id.
abbrev pub update : ℕ → (ℕ → Position → Position) → Action Position
update id f db = elim (find_first (has_id id) db.positions) [
  | none ↦ (err record_missing, db)
  | some p ↦ (ok (f db.now p), write_row id (f db.now) db)
]

abbrev pub set_status : PositionStatus → ℕ → Position → Position
set_status status now p = record p { status = status; updated_at = now }

abbrev pub set_amounts : PositionStatus → ActivatePositionInput → ℕ → Position → Position
set_amounts status input now p = record p {
  status = status;
  deposited_amount = input.deposited_amount;
  current_amount = input.current_amount;
  shares = input.shares;
  updated_at = now;
}

abbrev pub increment : ActivatePositionInput → ℕ → Position → Position
increment input now p = record p {
  status = PositionStatus.active;
  deposited_amount = p.deposited_amount +ℤ input.deposited_amount;
  current_amount = p.current_amount +ℤ input.current_amount;
  shares = p.shares +ℤ input.shares;
  updated_at = now;
}

unfoldable pub activate : ℕ → ActivatePositionInput → Action Position
activate id input = update id (set_amounts PositionStatus.active input)

unfoldable pub close : ℕ → Action Position
close id = update id (set_status PositionStatus.closed)

unfoldable pub mark_withdrawing : ℕ → Action Position
mark_withdrawing id = update id (set_status PositionStatus.withdrawing)

unfoldable pub mark_active : ℕ → Action Position
mark_active id = update id (set_status PositionStatus.active)

unfoldable pub mark_failed : ℕ → Action Position
mark_failed id = update id (set_status PositionStatus.failed)

unfoldable pub add_deposit : ℕ → ActivatePositionInput → Action Position
add_deposit id input = update id (increment input)

abbrev pub zero_amounts : ActivatePositionInput
zero_amounts = record { deposited_amount = pos 0; current_amount = pos 0; shares = pos 0 }

-- What is left of a position after a withdrawal.
abbrev pub remaining : Position → WithdrawPositionInput → ActivatePositionInput
remaining p input = record {
  deposited_amount = p.deposited_amount -ℤ input.withdrawn_amount;
  current_amount = p.current_amount -ℤ input.withdrawn_amount;
  shares = p.shares -ℤ input.shares;
}

-- The amounts that are written are computed from the row that was read before the write.
unfoldable pub subtract_withdraw : ℕ → WithdrawPositionInput → Action Position
unfolding find_by_id
subtract_withdraw id input = do
  found ← find_by_id id
  existing ← or_raise found position_missing
  if leb_ℤ (remaining existing input).shares (pos 0)
      then update id (set_amounts PositionStatus.closed zero_amounts)
      else update id (set_amounts PositionStatus.active (remaining existing input))
