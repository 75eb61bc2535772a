-- ===== src/Books/Operations/Checks.antt =====
-- The checks, the look-ups and the writes of other tables: the books before and after.
use earn_defi_nestjs_backend.Base.{
  ℕ, suc, ltb, ◌≡◌, refl, inl, inr, Option-cases, Bool-cases, ◌∷◌, arith, find_first, update_where,
}
use earn_defi_nestjs_backend.Schema.Status.{AuditAction}
use earn_defi_nestjs_backend.Schema.Rows.{Db, Metadata}
use earn_defi_nestjs_backend.Schema.Chain.{Config, ProtocolVault}
use earn_defi_nestjs_backend.Monad.{Result, ok, err, Action, log_audit}
use earn_defi_nestjs_backend.Monad.Triple.{Post, Keeps, readonly-Keeps, cases-Triple}
use earn_defi_nestjs_backend.Validation.{check_deposit_vault, check_withdraw_vault, check_wallet}
use earn_defi_nestjs_backend.RateLimit.{
  counter, window_key, assert_allowed, assert_deposit_allowed, assert_withdraw_allowed,
}
use earn_defi_nestjs_backend.Vaults.{has_slug, new_vault, refresh_vault, find_or_create}
use earn_defi_nestjs_backend.Positions.Service as Positions
use earn_defi_nestjs_backend.Transactions.Service.{TransactionRecord, to_record}
use earn_defi_nestjs_backend.Transactions.Service as Transactions
use earn_defi_nestjs_backend.Books.{Claim, Books}
use earn_defi_nestjs_backend.Books.Writes.{next_id-Books}

-- A change of other tables only.
same-Books :
    (c : Claim) (db db' : Db)
    → db'.positions ≡ db.positions
    → db'.transactions ≡ db.transactions
    → db'.next_id ≡ db.next_id
    → Books c db
    → Books c db'
same-Books c db db' ps ts n b = record {
  backed = rw ps b.backed;
  recorded = rw ts b.recorded;
  fresh = rw (ts, n) b.fresh;
  agrees = rw ts b.agrees;
  given = rw n b.given;
}

module _ (c : Claim) where
  pub log_audit-Keeps :
      (user_id : ℕ) (action : AuditAction) (id : ℕ) (metadata : Metadata)
      → Keeps (Books c) (log_audit user_id action id metadata)
  unfolding log_audit
  log_audit-Keeps user_id action id metadata = record {
    apply = λ db. same-Books c db _ refl refl refl;
  }

  -- A method that leaves the two tables and the identifiers alone.
  pub untouched-Keeps :
      {A : Type 0} (m : Action A)
      → ((db : Db)
          → ((m db).1.positions ≡ db.positions)
            × ((m db).1.transactions ≡ db.transactions)
            × ((m db).1.next_id ≡ db.next_id))
      → Keeps (Books c) m
  untouched-Keeps {A} m same = record {
    apply = λ db b. let (ps, ts, n) = same db in go (m db) (same-Books c db (m db).1 ps ts n b);
  }
    where
      go : (r : Result A × Db) → Books c r.1 → Post (λ _. Books c) (Books c) r
      go (ok a, db) b = b
      go (err e, db) b = b

  assert_allowed-Keeps :
      (user_id action limit : ℕ) → Keeps (Books c) (assert_allowed user_id action limit)
  unfolding assert_allowed
  assert_allowed-Keeps user_id action limit = record {
    apply = λ db b.
        elim (Bool-cases
          (ltb limit (suc (counter (action, user_id, window_key db.now) db.counters)))) [
            | inl over ↦ rw (over, Post) (same-Books c db _ refl refl refl b)
            | inr within ↦ rw (within, Post) (same-Books c db _ refl refl refl b)
          ];
  }

  pub assert_deposit_allowed-Keeps :
      (config : Config) (user_id : ℕ) → Keeps (Books c) (assert_deposit_allowed config user_id)
  unfolding assert_deposit_allowed
  assert_deposit_allowed-Keeps config user_id = assert_allowed-Keeps user_id 0 _

  pub assert_withdraw_allowed-Keeps :
      (config : Config) (user_id : ℕ) → Keeps (Books c) (assert_withdraw_allowed config user_id)
  unfolding assert_withdraw_allowed
  assert_withdraw_allowed-Keeps config user_id = assert_allowed-Keeps user_id 1 _

  pub find_or_create-Keeps : (vault : ProtocolVault) → Keeps (Books c) (find_or_create vault)
  unfolding find_or_create
  find_or_create-Keeps vault = cases-Triple _ λ db b.
      elim (Option-cases (find_first (has_slug vault.vault_id) db.vaults)) [
        | inl missing ↦ (
          (
            ok (new_vault vault db.next_id),
            record db { vaults = new_vault vault db.next_id ∷ db.vaults; next_id = suc db.next_id },
          ),
          ground arith,
          next_id-Books c db _ b.backed refl refl b,
        )
        | inr (v, found) ↦ (
          (
            ok (refresh_vault vault v),
            record db {
              vaults = update_where (has_slug vault.vault_id) (refresh_vault vault) db.vaults;
            },
          ),
          ground arith,
          same-Books c db _ refl refl refl b,
        )
      ]

  pub check_deposit_vault-Keeps :
      (config : Config) (vault : ProtocolVault) → Keeps (Books c) (check_deposit_vault config vault)
  unfolding check_deposit_vault
  check_deposit_vault-Keeps config vault = readonly-Keeps _ (λ db. ground arith)

  pub check_withdraw_vault-Keeps :
      (config : Config) (vault : ProtocolVault)
      → Keeps (Books c) (check_withdraw_vault config vault)
  unfolding check_withdraw_vault
  check_withdraw_vault-Keeps config vault = readonly-Keeps _ (λ db. ground arith)

  pub check_wallet-Keeps :
      (user_id wallet_id : ℕ) (vault : ProtocolVault)
      → Keeps (Books c) (check_wallet user_id wallet_id vault)
  unfolding check_wallet
  check_wallet-Keeps user_id wallet_id vault = readonly-Keeps _ (λ db. ground arith)

  pub find_by_user_and_vault-Keeps :
      (user_id vault_id : ℕ) → Keeps (Books c) (Positions.find_by_user_and_vault user_id vault_id)
  unfolding Positions.find_by_user_and_vault
  find_by_user_and_vault-Keeps user_id vault_id = readonly-Keeps _ (λ db. refl)

  pub find_position-Keeps : (id : ℕ) → Keeps (Books c) (Positions.find_by_id id)
  unfolding Positions.find_by_id
  find_position-Keeps id = readonly-Keeps _ (λ db. refl)

  pub has_open_deposit-Keeps :
      (user_id vault_id : ℕ) → Keeps (Books c) (Transactions.has_open_deposit user_id vault_id)
  unfolding Transactions.has_open_deposit
  has_open_deposit-Keeps user_id vault_id = readonly-Keeps _ (λ db. refl)

  pub has_open_withdraw-Keeps : (id : ℕ) → Keeps (Books c) (Transactions.has_open_withdraw id)
  unfolding Transactions.has_open_withdraw
  has_open_withdraw-Keeps id = readonly-Keeps _ (λ db. refl)
