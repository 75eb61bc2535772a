-- ===== src/Positions/Service.antt =====
-- positions.service.ts: the operations on positions that the other services call. A row is handed
-- out as a `PositionRecord`.
use earn_defi_nestjs_backend.Base.{ℕ, Option, none, some, ℤ}
use earn_defi_nestjs_backend.Schema.Status.{PositionStatus}
use earn_defi_nestjs_backend.Schema.Rows.{Position, Vault}
use earn_defi_nestjs_backend.Monad.{Action, pure, ◌>>=◌}
use earn_defi_nestjs_backend.Positions.Repository.{ActivatePositionInput, WithdrawPositionInput}
use earn_defi_nestjs_backend.Positions.Repository

pub record PositionRecord : Type 0 where
  pub position_id : ℕ
  pub user_id : ℕ
  pub vault_id : ℕ
  pub status : PositionStatus
  pub deposited_amount : ℤ
  pub current_amount : ℤ
  pub shares : ℤ
  pub created_at : ℕ
  pub updated_at : ℕ

abbrev pub to_record : Position → PositionRecord
to_record p = record {
  position_id = p.id;
  user_id = p.user_id;
  vault_id = p.vault_id;
  status = p.status;
  deposited_amount = p.deposited_amount;
  current_amount = p.current_amount;
  shares = p.shares;
  created_at = p.created_at;
  updated_at = p.updated_at;
}

abbrev pub to_optional_record : Option Position → Option PositionRecord
to_optional_record none = none
to_optional_record (some p) = some (to_record p)

unfoldable pub find_by_user_and_vault : ℕ → ℕ → Action (Option PositionRecord)
unfolding Repository.find_by_user_and_vault
find_by_user_and_vault user_id vault_id = do
  position ← Repository.find_by_user_and_vault user_id vault_id
  pure (to_optional_record position)

unfoldable pub find_by_id : ℕ → Action (Option PositionRecord)
unfolding Repository.find_by_id
find_by_id id = do position ← Repository.find_by_id id; pure (to_optional_record position)

unfoldable pub find_by_id_with_vault : ℕ → Action (Option (Position × Vault))
unfolding Repository.find_by_id_with_vault
find_by_id_with_vault id = Repository.find_by_id_with_vault id

unfoldable pub create_pending : ℕ → ℕ → Action PositionRecord
unfolding Repository.create
create_pending user_id vault_id = do
  position ← Repository.create user_id vault_id PositionStatus.pending
  pure (to_record position)

unfoldable pub activate : ℕ → ActivatePositionInput → Action PositionRecord
unfolding Repository.activate
activate id input = do position ← Repository.activate id input; pure (to_record position)

unfoldable pub add_deposit : ℕ → ActivatePositionInput → Action PositionRecord
unfolding Repository.add_deposit
add_deposit id input = do position ← Repository.add_deposit id input; pure (to_record position)

unfoldable pub close : ℕ → Action PositionRecord
unfolding Repository.close
close id = do position ← Repository.close id; pure (to_record position)

unfoldable pub mark_withdrawing : ℕ → Action PositionRecord
unfolding Repository.mark_withdrawing
mark_withdrawing id = do position ← Repository.mark_withdrawing id; pure (to_record position)

unfoldable pub mark_active : ℕ → Action PositionRecord
unfolding Repository.mark_active
mark_active id = do position ← Repository.mark_active id; pure (to_record position)

unfoldable pub mark_failed : ℕ → Action PositionRecord
unfolding Repository.mark_failed
mark_failed id = do position ← Repository.mark_failed id; pure (to_record position)

unfoldable pub subtract_withdraw : ℕ → WithdrawPositionInput → Action PositionRecord
unfolding Repository.subtract_withdraw
subtract_withdraw id input = do
  position ← Repository.subtract_withdraw id input
  pure (to_record position)
