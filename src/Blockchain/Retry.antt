-- ===== src/Blockchain/Retry.antt =====
-- `getTransactionReceiptWithRetry`: the first receipt that comes, or the last error.
use earn_defi_nestjs_backend.Base.{ℕ, zero, suc, ◌+◌, ◌<◌, ◌≡◌, arith}
use native.Mathlib.Nat.{add-zero}
use earn_defi_nestjs_backend.Schema.Chain.{Receipt}
use earn_defi_nestjs_backend.Schema.Rows.{Db}
use earn_defi_nestjs_backend.Monad.{Error, Result, ok, err}
use earn_defi_nestjs_backend.Env.{Env}
use earn_defi_nestjs_backend.Blockchain.{retry_from, get_transaction_receipt_with_retry}

-- Attempt `n` throws.
abbrev pub Throws : (ℕ → Result Receipt) → ℕ → Type 0
Throws get n = (e : Error) × (get n ≡ err e)

retry_from-first :
    (get : ℕ → Result Receipt) (rounds attempt n : ℕ) (last : Error) {receipt : Receipt}
    → n < rounds
    → ((i : ℕ) → i < n → Throws get (attempt + i))
    → get (attempt + n) ≡ ok receipt
    → retry_from get rounds attempt last ≡ ok receipt
unfolding retry_from
retry_from-first get zero attempt n last bound fail hit = elim bound [ ]
retry_from-first get (suc rounds) attempt zero last {receipt} bound fail hit =
    let now : get attempt ≡ ok receipt = rw add-zero at hit in rw (now, retry_from)
retry_from-first get (suc rounds) attempt (suc n) last {receipt} bound fail hit =
    let (e, failed) = fail 0 (omega arith) in
    let failed_now : get attempt ≡ err e = rw add-zero at failed in
    rw (failed_now, retry_from)
      (retry_from-first get rounds (suc attempt) n e (omega arith)
        (λ i below. rw (shift i) (fail (suc i) (omega arith))) (rw (shift n) hit))
  where
    shift : (m : ℕ) → suc attempt + m ≡ attempt + suc m
    shift m = omega arith

-- Of the three attempts of the job to get a receipt: if some attempt n + 1 ≤ 3 gives one and all
-- before it throw, the job has that receipt; if all three throw, it throws the error of the third.
-- Nothing is changed.
pub receipt_first_or_last :
    (env : Env) (chain_id hash : ℕ) (db : Db)
    → let get = λ (attempt : ℕ). env.get_receipt attempt chain_id hash in
      ((n : ℕ) (receipt : Receipt)
        → n < 3
        → ((i : ℕ) → i < n → Throws get (1 + i))
        → get (1 + n) ≡ ok receipt
        → get_transaction_receipt_with_retry env chain_id hash db ≡ (ok receipt, db))
      × ((e : Error)
          → Throws get 1
          → Throws get 2
          → get 3 ≡ err e
          → get_transaction_receipt_with_retry env chain_id hash db ≡ (err e, db))
unfolding get_transaction_receipt_with_retry
receipt_first_or_last env chain_id hash db = (
  λ n receipt bound fail hit. rw (retry_from-first _ 3 1 n (Error.external 0) bound fail hit),
  λ e one two three. let (e', first) = one in let (e'', second) = two in ground arith,
)
