-- ===== src/Books.antt =====
-- The books, an invariant over the tables of positions and transactions: positions are backed one
-- share to one unit, and an open transaction records what its settlement needs.
pub mod Writes
pub mod Operations
pub mod Deposits
pub mod Plan
pub mod Withdrawals
pub mod Reconciled
pub mod Runs
use earn_defi_nestjs_backend.Base.{
  ℕ, ◌<◌, ◌≡◌, Bool, true, false, Option, none, some, List, ℤ, pos, ◌≤ℤ◌, All,
}
use earn_defi_nestjs_backend.Schema.Status.{TransactionType, is_open}
use earn_defi_nestjs_backend.Schema.Rows.{Db, Transaction, Metadata, number}
use earn_defi_nestjs_backend.Monad.{ok}
use earn_defi_nestjs_backend.Positions.Amounts.{IsBacked}
use earn_defi_nestjs_backend.Reconciliation.Handle.{SharesField, read_metadata_string}
use earn_defi_nestjs_backend.Env.{Env, Await}

-- While a deposit is open its metadata names as many shares as its amount, and so for a
-- withdrawal.
abbrev pub Records : Bool → TransactionType → Option Metadata → ℤ → Type 0
Records true TransactionType.deposit metadata amount =
    (read_metadata_string SharesField.estimated metadata ≡ number amount) × (pos 0 ≤ℤ amount)
Records true TransactionType.withdraw metadata amount =
    read_metadata_string SharesField.burned metadata ≡ number amount
Records _ _ metadata amount = Unit {0}

abbrev pub IsRecorded : Transaction → Type 0
IsRecorded t = Records (is_open t.status) t.type t.metadata t.amount

-- A transaction that a request has created and holds on to: its id, its type and its amount.
abbrev pub Claim : Type 0
Claim = Option (ℕ × TransactionType × ℤ)

abbrev pub Agrees : Claim → Transaction → Type 0
Agrees none t = Unit {0}
Agrees (some (id, type, amount)) t = t.id ≡ id → (t.type ≡ type) × (t.amount ≡ amount)

abbrev pub IsGiven : Claim → ℕ → Type 0
IsGiven none next_id = Unit {0}
IsGiven (some (id, type, amount)) next_id = id < next_id

pub record Books (c : Claim) (db : Db) : Type 0 where
  pub backed : All IsBacked db.positions
  pub recorded : All IsRecorded db.transactions
  pub fresh : All (λ t. t.id < db.next_id) db.transactions
  pub agrees : All (Agrees c) db.transactions
  pub given : IsGiven c db.next_id

-- What the other requests and the job are relied on to do between two steps of this one: they keep
-- the books, and never give a recorded transaction another type or amount.
abbrev pub OthersKeep : Env → Type 0
OthersKeep env = (point : Await) (c : Claim) (db : Db) → Books c db → Books c (env.others point db)
