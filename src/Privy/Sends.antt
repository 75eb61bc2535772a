-- ===== src/Privy/Sends.antt =====
-- privy-wallet.service.ts: what the Privy client is handed by `sendTransaction`.
use earn_defi_nestjs_backend.Base.{
  ℕ, zero, suc, ◌+◌, ◌≤◌, ◌<◌, ◌≡◌, refl, ap, subst, ◌∙◌, ◌⊎◌, inl, inr, true, false, List, [], ◌∷◌,
  ◌++◌, length, arith, Bool-cases,
}
use mathlib.Core.Path.{sym}
use mathlib.Core.List.{append_assoc}
use earn_defi_nestjs_backend.Schema.Chain.{SendTransactionInput}
use earn_defi_nestjs_backend.Privy.{PrivyError, Attempt, returned, threw, is_retryable_privy_error}
use earn_defi_nestjs_backend.Privy.Calls.{SendRequest, Calls, PrivyAction, retry_from, execute}
use earn_defi_nestjs_backend.Privy.Client.{
  Client, PrivyConfig, get_authorization_context, assert_wallet_server_signable, send_once,
  send_transaction,
}

-- Requests for one transaction, the newest first, under keys that were drawn one after the other from
-- `lo` on and below `hi`: no two are the same.
abbrev pub Issued : SendTransactionInput → ℕ → ℕ → List SendRequest → Type 0
Issued input lo hi [] = lo ≤ hi
Issued input lo hi (q ∷ qs) =
    (q.transaction ≡ input) × (q.idempotency_key < hi) × Issued input lo q.idempotency_key qs

-- At most `n` of them were handed over between two states.
abbrev pub Handed : SendTransactionInput → ℕ → Calls → Calls → Type 0
Handed input n before after =
    (requests : List SendRequest) × (after.sent ≡ requests ++ before.sent)
    × Issued input before.next_uuid after.next_uuid requests
    × (length requests ≤ n)

pub Attempt-cases :
    {A : Type 0} (r : Attempt A) → ((a : A) × (r ≡ returned a)) ⊎ ((e : PrivyError) × (r ≡ threw e))
Attempt-cases (returned a) = inl (a, refl)
Attempt-cases (threw e) = inr (e, refl)

assert_keeps :
    (client : Client) (config : PrivyConfig) (id : ℕ) (calls : Calls)
    → let (r, calls') = assert_wallet_server_signable client config id calls in
      (calls'.sent ≡ calls.sent) × (calls'.next_uuid ≡ calls.next_uuid)
unfolding assert_wallet_server_signable
assert_keeps client config id calls = ground arith

send_once-Handed :
    (client : Client) (config : PrivyConfig) (input : SendTransactionInput) (calls : Calls)
    → Handed input 1 calls (send_once client config input calls).1
unfolding send_once
send_once-Handed client config input calls =
    let kept = assert_keeps client config input.provider_wallet_id calls in
    let checked = assert_wallet_server_signable client config input.provider_wallet_id calls in
    elim (Attempt-cases checked.0) [
      | inl (u, passed) ↦ (
        record {
          transaction = input;
          authorization_context = get_authorization_context config;
          idempotency_key = checked.1.next_uuid;
        }
            ∷ [],
        ground arith,
        ground arith,
        ground arith,
      )
      | inr (e, refused) ↦ ([], ground arith, ground arith, ground arith)
    ]

Issued-append :
    (input : SendTransactionInput) (lo mid hi : ℕ) (qs ps : List SendRequest)
    → Issued input mid hi qs
    → Issued input lo mid ps
    → Issued input lo hi (qs ++ ps)
Issued-append input lo mid hi [] [] i j = omega arith
Issued-append input lo mid hi [] (p ∷ ps) i j = (j.0, omega arith, j.2)
Issued-append input lo mid hi (q ∷ qs) ps i j =
    (i.0, i.1, Issued-append input lo mid q.idempotency_key qs ps i.2 j)

length-append : (qs ps : List SendRequest) → length (qs ++ ps) ≡ length qs + length ps
length-append [] ps = omega arith
length-append (q ∷ qs) ps = omega (arith, length-append qs ps)

Handed-trans :
    (input : SendTransactionInput) (m n : ℕ) (a b c : Calls)
    → Handed input m a b
    → Handed input n b c
    → Handed input (n + m) a c
Handed-trans input m n a b c (ps, sent, issued, few) (qs, sent', issued', few') = (
  qs ++ ps,
  sent' ∙ ap (λ l. qs ++ l) sent ∙ sym (append_assoc qs ps a.sent),
  Issued-append input a.next_uuid b.next_uuid c.next_uuid qs ps issued' issued,
  omega (arith, length-append qs ps),
)

Handed-mono :
    (input : SendTransactionInput) (m n : ℕ) (a b : Calls)
    → m ≤ n
    → Handed input m a b
    → Handed input n a b
Handed-mono input m n a b le (ps, sent, issued, few) = (ps, sent, issued, omega arith)

-- The three ways on after an attempt.
module _ {A : Type 0} (operation : PrivyAction A) (left : ℕ) (calls : Calls) where
  pub retry_from-returned :
      (a : A)
      → (operation calls).0 ≡ returned a
      → retry_from operation (suc left) calls ≡ (returned a, (operation calls).1)
  unfolding retry_from
  retry_from-returned a h = ground arith

  pub retry_from-stopped :
      (e : PrivyError)
      → (operation calls).0 ≡ threw e
      → is_retryable_privy_error e ≡ false
      → retry_from operation (suc left) calls ≡ (threw e, (operation calls).1)
  unfolding retry_from
  retry_from-stopped e h last = ground arith

  pub retry_from-again :
      (e : PrivyError)
      → (operation calls).0 ≡ threw e
      → is_retryable_privy_error e ≡ true
      → retry_from operation (suc left) calls ≡ retry_from operation left (operation calls).1
  unfolding retry_from
  retry_from-again e h again = ground arith

-- A step that hands over one request at most, retried.
retry_from-Handed :
    {A : Type 0} (input : SendTransactionInput) (operation : PrivyAction A) (left : ℕ)
    (calls : Calls)
    → ((c : Calls) → Handed input 1 c (operation c).1)
    → Handed input (suc left) calls (retry_from operation left calls).1
unfolding retry_from
retry_from-Handed input operation zero calls once = once calls
retry_from-Handed {A} input operation (suc left) calls once =
    let c = (operation calls).1 in
    let Within = λ (out : Attempt A × Calls). Handed input (suc (suc left)) calls out.1 in
    let stop = Handed-mono input 1 (suc (suc left)) calls c (omega arith) (once calls) in
    let rest = retry_from operation left c in
    elim (Attempt-cases (operation calls).0) [
      | inl (a, done) ↦ subst Within (sym (retry_from-returned operation left calls a done)) stop
      | inr (e, failed) ↦ elim (Bool-cases (is_retryable_privy_error e)) [
        | inl again ↦ subst Within (sym (retry_from-again operation left calls e failed again)) (
            Handed-mono input (suc left + 1) (suc (suc left)) calls rest.1 (omega arith) (
              Handed-trans input 1 (suc left) calls c rest.1 (once calls)
                (retry_from-Handed input operation left c once)))
        | inr last ↦ subst Within (sym (retry_from-stopped operation left calls e failed last)) stop
      ]
    ]

-- Whatever the client answers, `sendTransaction` hands it at most three requests, all for the
-- transaction it was given, no two under the same idempotency key, and none under a key that was
-- drawn before.
pub send_transaction-Handed :
    (client : Client) (config : PrivyConfig) (input : SendTransactionInput) (calls : Calls)
    → Handed input 3 calls (send_transaction client config input calls).1
unfolding send_transaction execute
send_transaction-Handed client config input calls =
    retry_from-Handed input (send_once client config input) 2 calls
      (send_once-Handed client config input)
