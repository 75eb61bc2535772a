-- ===== src/Reconciliation/Steps.antt =====
-- transaction-reconciliation.service.ts: the steps of one settlement, each of which returns.
use earn_defi_nestjs_backend.Base.{
  ℕ, ◌≡◌, refl, Bool, true, false, if◌then◌else◌, Option, none, some, ℤ, inl, inr, arith,
  Option-cases, eq_of_==, find_first, find_first-holds, find_first-update_keyed, subst, ltb,
  count_where,
}
use mathlib.Core.Path.{sym}
use earn_defi_nestjs_backend.Schema.Status.{TransactionType}
use earn_defi_nestjs_backend.Schema.Rows.{Db, Metadata, Position, MetaValue, number}
use earn_defi_nestjs_backend.Monad.{Result, ok, err, Action, atomic, log_audit}
use earn_defi_nestjs_backend.Monad.Triple.{Post, Triple, cases-Triple}
use earn_defi_nestjs_backend.Positions.Service as Positions
use earn_defi_nestjs_backend.Positions.Repository as PositionRows
use earn_defi_nestjs_backend.Transactions.Repository.{has_id, has_id_submitted}
use earn_defi_nestjs_backend.Transactions.Repository
use earn_defi_nestjs_backend.Transactions.Service.{TransactionRecord}
use earn_defi_nestjs_backend.Transactions.Service as Transactions
use earn_defi_nestjs_backend.Reconciliation.Handle.{
  credit_pending, debit_withdrawing, log_confirmed_audit, give_back,
}
use earn_defi_nestjs_backend.Reconciliation.Progress.{Tracked}

-- The method never throws, and leaves the transaction done.
abbrev pub Settles : {A : Type 0} → ℕ → Bool → Action A → Type 0
Settles {A} x b m = Triple {A = A} (Tracked x b) (λ a. Tracked x true) (λ db. ⊥) m

module _ (x : ℕ) where
  answered :
      {A : Type 0} (b : Bool) (m : Action A)
      → ((db : Db) → Tracked x b db → ((a : A) × ((m db).0 ≡ ok a)) × Tracked x true (m db).1)
      → Settles x b m
  answered b m run =
      cases-Triple m λ db t. let ((a, done), t') = run db t in ((ok a, (m db).1), ground arith, t')

  -- What moves positions alone, and returns.
  pub quiet :
      {A : Type 0} (m : Action A)
      → ((db : Db) → (a : A) × ((m db).0 ≡ ok a))
      → ((db : Db) → (m db).1.transactions ≡ db.transactions)
      → Settles x true m
  quiet m returns same =
      answered true m λ db (row, found, fits). (returns db, (row, rw (same db) found, fits))

  pub confirm_submitted-Settles :
      (block_number : ℕ) (metadata : Option Metadata)
      → Settles x false (Transactions.confirm_submitted x block_number metadata)
  unfolding Transactions.confirm_submitted Repository.confirm_submitted
  confirm_submitted-Settles block_number metadata = answered false _ λ db (row, found, fits).
      let f = Repository.apply_update (Repository.confirmation block_number metadata) db.now in
      let seen =
        find_first-update_keyed (has_id x) (has_id_submitted x) f db.transactions row (λ a. refl)
          found in
      let hit = find_first-holds (has_id x) db.transactions {a = row} found in
      let after = if has_id_submitted x row then f row else row in
      (
        (
          (ltb 0 (count_where (has_id_submitted x) db.transactions), Transactions.to_record after),
          ground arith,
        ),
        (after, ground arith, ground arith),
      )

  pub mark_reverted-Settles :
      (block_number : ℕ) (metadata : Option Metadata)
      → Settles x false (Transactions.mark_reverted x block_number metadata)
  unfolding Transactions.mark_reverted
  mark_reverted-Settles block_number metadata = answered false _ λ db (row, found, fits).
      let f = Repository.apply_update (Transactions.reversal block_number metadata) db.now in
      let seen =
        find_first-update_keyed (has_id x) (has_id x) f db.transactions row (λ a. refl) found in
      let hit = find_first-holds (has_id x) db.transactions {a = row} found in
      ((Transactions.to_record (f row), ground arith), (f row, ground arith, refl))

  -- The position that was found under an id is found again under its own.
  found_again :
      (id : ℕ) (db : Db) (p : Position)
      → find_first (PositionRows.has_id id) db.positions ≡ some p
      → find_first (PositionRows.has_id p.id) db.positions ≡ some p
  found_again id db p h =
      let same =
        eq_of_== p.id id (find_first-holds (PositionRows.has_id id) db.positions {a = p} h) in
      subst (λ k. find_first (PositionRows.has_id k) db.positions ≡ some p) (sym same) h

  pub credit_pending-Settles :
      (applied : Bool) (id : Option ℕ) (n k : ℤ) (m : MetaValue)
      → m ≡ number k
      → Settles x true (credit_pending applied id n m)
  unfolding credit_pending Positions.find_by_id Positions.activate
  credit_pending-Settles true (some id) n k m e =
      quiet _
        (λ db. elim (Option-cases (find_first (PositionRows.has_id id) db.positions)) [
          | inl missing ↦ (tt, ground arith)
          | inr (p, found) ↦ (tt, ground (arith, found_again id db p found))
        ])
        (λ db. ground arith)
  credit_pending-Settles true none n k m e = quiet _ (λ db. (tt, refl)) (λ db. refl)
  credit_pending-Settles false id n k m e = quiet _ (λ db. (tt, refl)) (λ db. refl)

  pub debit_withdrawing-Settles :
      (applied : Bool) (id : Option ℕ) (n k : ℤ) (m : MetaValue)
      → m ≡ number k
      → Settles x true (debit_withdrawing applied id n m)
  unfolding debit_withdrawing Positions.find_by_id Positions.subtract_withdraw
  debit_withdrawing-Settles true (some id) n k m e =
      quiet _
        (λ db. elim (Option-cases (find_first (PositionRows.has_id id) db.positions)) [
          | inl missing ↦ (tt, ground arith)
          | inr (p, found) ↦ (tt, ground arith)
        ])
        (λ db. ground arith)
  debit_withdrawing-Settles true none n k m e = quiet _ (λ db. (tt, refl)) (λ db. refl)
  debit_withdrawing-Settles false id n k m e = quiet _ (λ db. (tt, refl)) (λ db. refl)

  pub give_back-Settles :
      (type : TransactionType) (id : Option ℕ) → Settles x true (give_back type id)
  unfolding give_back Positions.find_by_id Positions.mark_failed Positions.mark_active
  give_back-Settles type none = quiet _ (λ db. (tt, refl)) (λ db. refl)
  give_back-Settles type (some id) =
      quiet _
        (λ db. elim (Option-cases (find_first (PositionRows.has_id id) db.positions)) [
          | inl missing ↦ (tt, ground arith)
          | inr (p, found) ↦ (tt, ground (arith, found_again id db p found))
        ])
        (λ db. ground arith)

  pub log_confirmed_audit-Settles :
      (t : TransactionRecord) (id : ℕ) (hash : Option ℕ)
      → Settles x true (log_confirmed_audit t id hash)
  unfolding log_confirmed_audit log_audit
  log_confirmed_audit-Settles t id hash = quiet _ (λ db. (tt, ground arith)) (λ db. ground arith)

  pub atomic-Settles : {A : Type 0} (m : Action A) → Settles x false m → Settles x false (atomic m)
  atomic-Settles m h = record { apply = λ db t. go db (m db) (h.apply db t) }
    where
      go :
          {A : Type 0} (db : Db) (r : Result A × Db)
          → Post {A = A} (λ a. Tracked x true) (λ db. ⊥) r
          → Post {A = A}
              (λ a. Tracked x true)
              (λ db. ⊥)
              (elim r.0 [ ok a ↦ (ok a, r.1) | err e ↦ (err e, db) ])
      go db (ok a, db') q = q
      go db (err e, db') q = q
