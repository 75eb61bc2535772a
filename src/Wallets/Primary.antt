-- ===== src/Wallets/Primary.antt =====
-- wallets/wallets.service.ts: which wallet of a user is the primary one.
use earn_defi_nestjs_backend.Base.{
  ℕ, ◌+◌, ◌≤◌, ◌==◌, ◌≡◌, ◌≢◌, refl, eq_of_==, Bool, true, false, ◌&&◌, if◌then◌else◌, Option, none,
  some, inl, inr, Bool-cases, Option-cases, find_first, suc, List, [], ◌∷◌, arith, ==_refl,
  update_where, count_where,
}
use earn_defi_nestjs_backend.Schema.Rows.{Db, Wallet, Metadata}
use earn_defi_nestjs_backend.Schema.Status.{AuditAction}
use earn_defi_nestjs_backend.Monad.{
  Result, ok, err, Error, Action, pure, lift, modify, log_audit, unique_violation,
}
use earn_defi_nestjs_backend.Monad.Triple.{
  Post, cases-Triple, Triple, Keeps, pure-Keeps, lift-Keeps, bind-Triple, then-Triple,
  readonly-Keeps, Triple-mono,
}
use earn_defi_nestjs_backend.Wallets.{
  Provider, CreateWalletDto, is_primary_of, set_secondary, clear_primary_wallet, resolve_primary,
  insert_wallet, provision_wallet, create_wallet, given_chain, new_wallet, has_address, WalletAwait,
  at_clear, at_privy_user, at_wallet, Others,
}

abbrev pub primaries : ℕ → Db → ℕ
primaries user_id db = count_where (is_primary_of user_id) db.wallets

pub cleared :
    (u : ℕ) (ws : List Wallet)
    → count_where (is_primary_of u) (update_where (is_primary_of u) set_secondary ws) ≡ 0
unfolding count_where update_where
cleared u [] = refl
cleared u (w ∷ ws) = let rest = cleared u ws in ground arith

cleared_other :
    (u v : ℕ) (ws : List Wallet)
    → u ≢ v
    → count_where (is_primary_of v) (update_where (is_primary_of u) set_secondary ws)
      ≡ count_where (is_primary_of v) ws
unfolding count_where update_where
cleared_other u v [] ne = refl
cleared_other u v (w ∷ ws) ne = let rest = cleared_other u v ws ne in ground arith

pub inserted :
    (v user_id : ℕ) (made : ℕ × ℕ × ℕ) (b : Bool) (db : Db)
    → count_where (is_primary_of v) (new_wallet user_id made b db ∷ db.wallets)
      ≡ (if user_id == v && b then 1 else 0) + primaries v db
unfolding count_where
inserted v user_id (address, chain_id, provider_id) b db = ground arith

-- The wallets before the new row: those of a user who takes a new primary wallet are cleared.
abbrev pub readied : ℕ → Bool → Db → Db
readied user_id b db =
    if b
    then record db { wallets = update_where (is_primary_of user_id) set_secondary db.wallets }
    else db

primaries-readied :
    (v user_id : ℕ) (b : Bool) (db : Db)
    → primaries v (readied user_id b db) ≡ (if user_id == v && b then 0 else primaries v db)
primaries-readied v user_id false db = ground arith
primaries-readied v user_id true db = elim (Bool-cases (user_id == v)) [
  | inl same ↦
      let e = eq_of_== user_id v same in rw (← e, ==_refl user_id) (cleared user_id db.wallets)
  | inr other ↦ rw other (cleared_other user_id v db.wallets (λ e. ground (arith, ==_refl v)))
]

-- Room for the new wallet, if it is a primary one of this user.
abbrev HasRoom : ℕ → ℕ → Bool → Db → Type 0
HasRoom v user_id b db = (if user_id == v && b then 1 else 0) + primaries v db ≤ 1

abbrev HasOne : ℕ → Db → Type 0
HasOne v db = primaries v db ≤ 1

clear_if-HasRoom :
    (v user_id : ℕ) (b : Bool)
    → Triple
        (HasOne v)
        (λ u. HasRoom v user_id b)
        (HasOne v)
        (if b then clear_primary_wallet user_id else pure tt)
unfolding clear_primary_wallet
clear_if-HasRoom v user_id true = record {
  apply = λ db few. let n = primaries-readied v user_id true db in ground arith;
}
clear_if-HasRoom v user_id false = record { apply = λ db few. ground arith }

-- Other requests make no wallet of the user a primary one.
abbrev pub OthersMakeNone : ℕ → Others → Type 0
OthersMakeNone v others =
    (point : WalletAwait) (db : Db) → primaries v (others point db) ≤ primaries v db

insert_wallet-HasOne :
    (v user_id : ℕ) (made : ℕ × ℕ × ℕ) (b : Bool)
    → Triple (HasRoom v user_id b) (λ w. HasOne v) (HasOne v) (insert_wallet user_id made b)
unfolding insert_wallet
insert_wallet-HasOne v user_id made b = cases-Triple (insert_wallet user_id made b) λ db room.
    elim (Option-cases (find_first (has_address made) db.wallets)) [
      | inr (w, taken) ↦ ((err unique_violation, db), ground arith, omega arith)
      | inl free ↦
          let row = new_wallet user_id made b db in
          let n = inserted v user_id made b db in
          (
            (ok row, record db { wallets = row ∷ db.wallets; next_id = suc db.next_id }),
            ground arith,
            rw n room,
          )
    ]

provision_wallet-HasOne :
    (provider : Provider) (others : Others) (v user_id chain_id : ℕ) (b : Bool)
    → OthersMakeNone v others
    → Triple
        (HasRoom v user_id b)
        (λ w. HasOne v)
        (HasOne v)
        (provision_wallet provider others user_id chain_id b)
unfolding provision_wallet
provision_wallet-HasOne provider others v user_id chain_id b none_made =
    then-Triple (meanwhile at_privy_user) (
      bind-Triple (weak (lift-Keeps (provider.ensure_privy_user_id user_id))) λ privy_user_id.
        then-Triple (meanwhile at_wallet) (
          bind-Triple (weak (lift-Keeps (provider.create_wallet user_id chain_id privy_user_id)))
            λ made. insert_wallet-HasOne v user_id made b))
  where
    weak :
        {A : Type 0} {m : Action A}
        → Keeps (HasRoom v user_id b) m
        → Triple (HasRoom v user_id b) (λ a. HasRoom v user_id b) (HasOne v) m
    weak h = Triple-mono h (λ a db room. room) (λ db room. omega arith)

    meanwhile :
        (point : WalletAwait)
        → Triple {A = Unit {0}}
            (HasRoom v user_id b)
            (λ u. HasRoom v user_id b)
            (HasOne v)
            (modify (others point))
    meanwhile point = record { apply = λ db room. let fewer = none_made point db in omega arith }

resolve_primary-HasOne :
    (v user_id : ℕ) (asked : Option Bool) → Keeps (HasOne v) (resolve_primary user_id asked)
unfolding resolve_primary
resolve_primary-HasOne v user_id none = readonly-Keeps _ (λ db. refl)
resolve_primary-HasOne v user_id (some b) = pure-Keeps b

log_audit-HasOne :
    (v user_id : ℕ) (action : AuditAction) (id : ℕ) (metadata : Metadata)
    → Keeps (HasOne v) (log_audit user_id action id metadata)
unfolding log_audit
log_audit-HasOne v user_id action id metadata = record { apply = λ db h. h }

-- Whether a new wallet is made or the creation throws, and whichever wallet is asked for, a user who
-- has at most one primary wallet has at most one after `createWallet`, and so has every other user,
-- provided the requests that run at its awaits make none of that user's wallets a primary one.
pub create_wallet-HasOne :
    (provider : Provider) (others : Others) (default_chain_id user_id : ℕ) (dto : CreateWalletDto)
    (v : ℕ)
    → OthersMakeNone v others
    → Keeps (λ db. primaries v db ≤ 1) (create_wallet provider others default_chain_id user_id dto)
unfolding create_wallet
create_wallet-HasOne provider others default_chain_id user_id dto v none_made =
    bind-Triple (resolve_primary-HasOne v user_id dto.is_primary) λ b.
      then-Triple (before_clear b) (
        then-Triple (clear_if-HasRoom v user_id b) (
          bind-Triple
            (provision_wallet-HasOne provider others v user_id
              (given_chain dto.chain_id default_chain_id) b none_made)
            λ w.
              then-Triple (log_audit-HasOne v user_id AuditAction.wallet_created w.id _)
                (pure-Keeps w)))
  where
    before_clear : (b : Bool) → Keeps (HasOne v) (modify (others at_clear))
    before_clear b = record { apply = λ db few. let fewer = none_made at_clear db in omega arith }

abbrev HasNone : ℕ → Db → Type 0
HasNone v db = primaries v db ≡ 0

fails-Triple :
    {A : Type 0} {P : Db → Type 0} (r : Result A) (e : Error)
    → r ≡ err e
    → Triple {A = A} P (λ a db. ⊥) P (lift r)
fails-Triple r e failed = record { apply = λ db p. rw failed p }

provision_fails :
    (provider : Provider) (others : Others) (user_id chain_id : ℕ) (b : Bool) (failure : Error)
    → OthersMakeNone user_id others
    → ((user chain privy : ℕ) → provider.create_wallet user chain privy ≡ err failure)
    → Keeps (HasNone user_id) (provision_wallet provider others user_id chain_id b)
unfolding provision_wallet
provision_fails provider others user_id chain_id b failure none_made fails =
    then-Triple (meanwhile at_privy_user) (
      bind-Triple (lift-Keeps (provider.ensure_privy_user_id user_id)) λ privy.
        then-Triple (meanwhile at_wallet) (
          bind-Triple {f = λ made. insert_wallet user_id made b}
            (fails-Triple _ failure (fails user_id chain_id privy))
            λ made. record { apply = λ db no. absurd no }))
  where
    meanwhile : (point : WalletAwait) → Keeps (HasNone user_id) (modify (others point))
    meanwhile point = record { apply = λ db gone. let fewer = none_made point db in omega arith }

resolved :
    (user_id : ℕ) (o : Option Bool)
    → o ≡ some true
    → Triple {A = Bool}
        (λ db. Unit {0})
        (λ b db. b ≡ true)
        (HasNone user_id)
        (resolve_primary user_id o)
unfolding resolve_primary
resolved user_id (some b) e = record { apply = λ db u. ground arith }
resolved user_id none e = absurd (ground arith)

clear_point :
    (user_id : ℕ) (others : Others) (b : Bool)
    → Triple {A = Unit {0}}
        (λ db. b ≡ true)
        (λ u db. b ≡ true)
        (HasNone user_id)
        (modify (others at_clear))
clear_point user_id others b = record { apply = λ db e. e }

clears :
    (user_id : ℕ) (b : Bool)
    → Triple {A = Unit {0}}
        (λ db. b ≡ true)
        (λ u. HasNone user_id)
        (HasNone user_id)
        (if b then clear_primary_wallet user_id else pure tt)
unfolding clear_primary_wallet
clears user_id true = record { apply = λ db e. cleared user_id db.wallets }
clears user_id false = record { apply = λ db e. absurd (ground arith) }

log_audit-HasNone :
    (user_id : ℕ) (action : AuditAction) (id : ℕ) (metadata : Metadata)
    → Keeps (HasNone user_id) (log_audit user_id action id metadata)
unfolding log_audit
log_audit-HasNone user_id action id metadata = record { apply = λ db gone. gone }

leaves_none :
    (provider : Provider) (others : Others) (default_chain_id user_id : ℕ) (dto : CreateWalletDto)
    (failure : Error)
    → OthersMakeNone user_id others
    → dto.is_primary ≡ some true
    → ((user chain privy : ℕ) → provider.create_wallet user chain privy ≡ err failure)
    → Triple {A = Wallet}
        (λ db. Unit {0})
        (λ w. HasNone user_id)
        (HasNone user_id)
        (create_wallet provider others default_chain_id user_id dto)
unfolding create_wallet
leaves_none provider others default_chain_id user_id dto failure none_made asked fails =
    bind-Triple (resolved user_id dto.is_primary asked) λ b.
      then-Triple (clear_point user_id others b) (
        then-Triple (clears user_id b) (
          bind-Triple
            (provision_fails provider others user_id (given_chain dto.chain_id default_chain_id) b
              failure none_made fails)
            λ w.
              then-Triple (log_audit-HasNone user_id AuditAction.wallet_created w.id _)
                (pure-Keeps w)))

after_any :
    {A : Type 0} (user_id : ℕ) (r : Result A × Db)
    → Post {A = A} (λ _. HasNone user_id) (HasNone user_id) r
    → HasNone user_id r.1
after_any user_id (ok a, db') gone = gone
after_any user_id (err e, db') gone = gone

-- Where a primary wallet is asked for and the provider fails to make one, the user is left without
-- a primary wallet, whichever wallet was primary before, provided the requests that run at the awaits
-- make none of the user's wallets a primary one.
pub create_wallet_none_left :
    (provider : Provider) (others : Others) (default_chain_id user_id : ℕ) (dto : CreateWalletDto)
    (failure : Error) (db : Db)
    → OthersMakeNone user_id others
    → dto.is_primary ≡ some true
    → ((user chain privy : ℕ) → provider.create_wallet user chain privy ≡ err failure)
    → primaries user_id (create_wallet provider others default_chain_id user_id dto db).1 ≡ 0
create_wallet_none_left provider others default_chain_id user_id dto failure db none_made asked
      fails =
    after_any user_id (create_wallet provider others default_chain_id user_id dto db) (
      (leaves_none provider others default_chain_id user_id dto failure none_made asked fails).apply
        db tt)
