-- ===== src/Transactions/Confirm.antt =====
-- transactions.repository.ts: `confirmSubmitted`, which the request handler and the reconciliation
-- job may both call for one transaction.
use earn_defi_nestjs_backend.Base.{
  ℕ, ◌==◌, if◌then◌else◌, ◌≡◌, refl, true, false, Option, none, some, List, [], ◌∷◌, arith, inl,
  inr, Bool-cases, eq_of_==, find_first, update_where, update_where-none, count_where-none,
  count_where_pos, find_first-update_within, find_first-update_gone, find_first-holds,
}
use earn_defi_nestjs_backend.Schema.Status.{TransactionStatus, is_submitted}
use earn_defi_nestjs_backend.Schema.Rows.{Db, Transaction, Metadata}
use earn_defi_nestjs_backend.Monad.{ok}
use earn_defi_nestjs_backend.Transactions.Repository.{
  has_id, has_id_submitted, given_metadata, confirm_submitted,
}

-- Identifiers are unique, as the primary key makes them.
abbrev pub Unique : List Transaction → Type 0
Unique [] = Unit {0}
Unique (t ∷ ts) = (find_first (has_id t.id) ts ≡ none) × Unique ts

-- A row without the id has no place where the guarded write fits.
submitted-none :
    (id : ℕ) (ts : List Transaction)
    → find_first (has_id id) ts ≡ none
    → find_first (has_id_submitted id) ts ≡ none
unfolding find_first
submitted-none id [] h = refl
submitted-none id (x ∷ xs) h = ground (arith, submitted-none id xs)

-- With unique ids the guarded write fits the row with the id, if that is SUBMITTED, and no other.
find-submitted :
    (id : ℕ) (ts : List Transaction) (t : Transaction)
    → Unique ts
    → find_first (has_id id) ts ≡ some t
    → find_first (has_id_submitted id) ts ≡ (if is_submitted t.status then some t else none)
unfolding find_first
find-submitted id [] t u h = cc
find-submitted id (x ∷ xs) t u h = elim (Bool-cases (x.id == id)) [
  | inl hit ↦
      let same : x ≡ t = ground arith in
      let alone : find_first (has_id_submitted id) xs ≡ none =
        submitted-none id xs (rw (← eq_of_== x.id id hit) u.0) in
      rw (hit, ← same) (ground (arith, alone))
  | inr miss ↦ rw miss (find-submitted id xs t u.1 (rw miss at h))
]

-- The row as a confirmation leaves it.
abbrev pub confirmed_row : ℕ → Option Metadata → ℕ → Transaction → Transaction
confirmed_row block_number metadata now t = record t {
  status = TransactionStatus.confirmed;
  block_number = some block_number;
  metadata = given_metadata metadata t.metadata;
  updated_at = now;
}

-- Where ids are unique and a row has the id, `confirmSubmitted` reports `applied` when its status is
-- SUBMITTED: it hands the row out as CONFIRMED, with the number of the block, the new metadata where
-- some are given, the old ones otherwise, the time of the update and all else as it was, and writes
-- that in the place of the row. In every other status it reports that nothing was applied, hands
-- the row out as it is, and changes nothing at all.
pub confirm_submitted_lem :
    (id block_number : ℕ) (metadata : Option Metadata) (db : Db) (t : Transaction)
    → Unique db.transactions
    → find_first (has_id id) db.transactions ≡ some t
    → confirm_submitted id block_number metadata db ≡ (
        if is_submitted t.status
        then (
          ok (true, confirmed_row block_number metadata db.now t),
          record db {
            transactions =
                update_where
                  (has_id_submitted id)
                  (confirmed_row block_number metadata db.now)
                  db.transactions;
          },
        )
        else (ok (false, t), db))
unfolding confirm_submitted
confirm_submitted_lem id block_number metadata db t u h =
    elim (Bool-cases (is_submitted t.status)) [
      | inl fresh ↦
          let fits : find_first (has_id_submitted id) db.transactions ≡ some t =
            rw fresh at (find-submitted id db.transactions t u h) in
          let seen =
            find_first-update_within (has_id id) (has_id_submitted id)
              (confirmed_row block_number metadata db.now) db.transactions t (λ a p. ground arith)
              h in
          ground (
            arith,
            seen,
            count_where_pos (has_id_submitted id) db.transactions t fits,
            find_first-holds (has_id id) db.transactions {a = t} h,
          )
      | inr stays ↦
          let misfit : find_first (has_id_submitted id) db.transactions ≡ none =
            rw stays at (find-submitted id db.transactions t u h) in
          let f = confirmed_row block_number metadata db.now in
          ground (
            arith,
            count_where-none (has_id_submitted id) db.transactions misfit,
            update_where-none (has_id_submitted id) f db.transactions misfit,
          )
    ]

-- After a call of `confirmSubmitted` that reported `applied`, the next one for the same
-- transaction, by the request handler or by the job, reports `false` and changes nothing.
pub confirm_submitted_once :
    (id block_number later : ℕ) (metadata metadata' : Option Metadata) (db : Db) {t : Transaction}
    {db' : Db}
    → confirm_submitted id block_number metadata db ≡ (ok (true, t), db')
    → confirm_submitted id later metadata' db' ≡ (ok (false, t), db')
unfolding confirm_submitted
confirm_submitted_once id block_number later metadata metadata' db {t} {db'} h =
    let f = confirmed_row block_number metadata db.now in
    let g = confirmed_row later metadata' db.now in
    let gone = find_first-update_gone (has_id_submitted id) f db.transactions (λ a. ground arith) in
    let after = update_where (has_id_submitted id) f db.transactions in
    ground (
      arith,
      gone,
      count_where-none (has_id_submitted id) after gone,
      update_where-none (has_id_submitted id) g after gone,
    )
