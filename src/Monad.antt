-- ===== src/Monad.antt =====
-- A service method: it reads and writes the state that all requests share, and returns or throws.
-- What was written before a throw stays written; `atomic` is `prisma.$transaction`, which rolls
-- back.
pub mod Triple
pub mod Value
use earn_defi_nestjs_backend.Base.{ℕ, Bool, true, false, Option, none, some, ◌∷◌}
use earn_defi_nestjs_backend.Schema.Rows.{Db, AuditEntry, Metadata}
use earn_defi_nestjs_backend.Schema.Status.{AuditAction}

-- The exceptions that the services throw. `http` is an `HttpException` that a dependency made, by
-- its status, and `external` any other error of a dependency, a number of its own for each.
pub data Error : Type 0 where
  wallet_not_found position_not_found transaction_not_found vault_not_found : Error
  mainnet_disabled unsupported_chain rpc_not_configured chain_disabled vault_not_on_chain : Error
  wallet_chain_mismatch vault_disabled vault_deposit_disabled vault_withdraw_disabled : Error
  insufficient_balance insufficient_allowance deposit_in_progress withdraw_in_progress : Error
  insufficient_position_balance position_not_active amount_required native_needs_no_approval : Error
  rate_limit_exceeded record_missing unique_violation position_missing bad_number : Error
  key_required key_conflict key_in_progress faucet_disabled faucet_wrong_chain : Error
  http external : ℕ → Error

pub data Result (A : Type 0) : Type 0 where
  ok : A → Result A
  err : Error → Result A

abbrev pub Action : Type 0 → Type 0
Action A = Db → Result A × Db

module _ {A : Type 0} where
  abbrev pub pure : A → Action A
  pure a db = (ok a, db)

  abbrev pub raise : Error → Action A
  raise e db = (err e, db)

  abbrev pub lift : Result A → Action A
  lift r db = (r, db)

  abbrev pub gets : (Db → A) → Action A
  gets f db = (ok (f db), db)

  abbrev pub or_raise : Option A → Error → Action A
  or_raise none e db = (err e, db)
  or_raise (some a) e db = (ok a, db)

  -- `try { … } catch (error) { … }`
  abbrev pub catch : Action A → (Error → Action A) → Action A
  catch m h db = let (r, db') = m db in elim r [ ok a ↦ (ok a, db') | err e ↦ h e db' ]

  -- `prisma.$transaction(…)`
  abbrev pub atomic : Action A → Action A
  atomic m db = let (r, db') = m db in elim r [ ok a ↦ (ok a, db') | err e ↦ (err e, db) ]

infixl 5 ◌>>=◌ ◌>>◌
abbrev pub ◌>>=◌ : {A B : Type 0} → Action A → (A → Action B) → Action B
◌>>=◌ m f db = let (r, db') = m db in elim r [ ok a ↦ f a db' | err e ↦ (err e, db') ]

abbrev pub ◌>>◌ : {A B : Type 0} → Action A → Action B → Action B
m >> k = m >>= λ _. k

abbrev pub raise_if : Bool → Error → Action (Unit {0})
raise_if true e db = (err e, db)
raise_if false e db = (ok tt, db)

abbrev pub modify : (Db → Db) → Action (Unit {0})
modify f db = (ok tt, f db)

-- `AuditService.log`: a failure to write is caught, so it never throws.
unfoldable pub log_audit : ℕ → AuditAction → ℕ → Metadata → Action (Unit {0})
log_audit user_id action entity_id metadata db = (ok tt, record db { audit = entry ∷ db.audit })
  where
    entry : AuditEntry
    entry = record {
      user_id = user_id;
      action = action;
      entity_id = entity_id;
      metadata = metadata;
    }
