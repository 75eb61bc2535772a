-- ===== src/RateLimit/Window.antt =====
-- earn-mutation-rate-limit.service.ts: the counters over a sequence of requests of any users.
use Prim.Native.Nat.{min}
use earn_defi_nestjs_backend.Base.{
  ℕ, suc, ◌-◌, ltb, if◌then◌else◌, ◌≡◌, refl, Bool, true, false, ◌&&◌, List, [], ◌∷◌, arith, inl,
  inr, Bool-cases,
}
use earn_defi_nestjs_backend.Schema.Rows.{Db}
use earn_defi_nestjs_backend.Monad.{Result, ok, err}
use earn_defi_nestjs_backend.RateLimit.{
  CounterKey, same_key, counter, set_counter, window_key, assert_allowed,
}

-- A request: the user, the action, and the time at which it is made.
pub record Attempt : Type 0 where
  pub user_id : ℕ
  pub action : ℕ
  pub at : ℕ

abbrev key_of : Attempt → CounterKey
key_of a = (a.action, a.user_id, window_key a.at)

abbrev pub is_ok : {A : Type 0} → Result A → Bool
is_ok (ok a) = true
is_ok (err e) = false

-- The attempts that fall under a key, and how many of them are let through.
unfoldable pub attempts : CounterKey → List Attempt → ℕ
attempts k [] = 0
attempts k (a ∷ as') = let rest = attempts k as' in if same_key (key_of a) k then suc rest else rest

unfoldable pub allowed : CounterKey → (ℕ → ℕ) → List Attempt → Db → ℕ
allowed k limit [] db = 0
allowed k limit (a ∷ as') db =
    let (r, db') = assert_allowed a.user_id a.action (limit a.action) (record db { now = a.at }) in
    let rest = allowed k limit as' db' in
    if same_key (key_of a) k && is_ok r then suc rest else rest

counter-set_counter :
    (j k : CounterKey) (n : ℕ) (cs : List (CounterKey × ℕ))
    → counter k (set_counter j n cs) ≡ (if same_key j k then n else counter k cs)
counter-set_counter j k n [] = ground arith
counter-set_counter j k n ((i, m) ∷ cs) = ground (arith, counter-set_counter j k n cs)

-- One request: it is let through while the counter is below the limit, and counted.
assert_allowed-counter :
    (k : CounterKey) (a : Attempt) (limit : ℕ) (db : Db)
    → let (r, db') = assert_allowed a.user_id a.action limit (record db { now = a.at }) in
      (is_ok r ≡ ltb (counter (key_of a) db.counters) limit)
      × (counter k db'.counters ≡ (
          if same_key (key_of a) k
          then suc (counter (key_of a) db.counters)
          else counter k db.counters))
unfolding assert_allowed
assert_allowed-counter k a limit db =
    ground
      (arith, counter-set_counter (key_of a) k (suc (counter (key_of a) db.counters)) db.counters)

same_key_sound :
    (a b u v w x : ℕ) → same_key (a, u, w) (b, v, x) ≡ true → (a ≡ b) × (u ≡ v) × (w ≡ x)
same_key_sound a b u v w x h = ground arith

-- Of the requests of one user for one action in one minute, whatever else is requested in
-- between, exactly the first ones up to the limit are let through, counting those before.
pub allowed-min :
    (action user_id minute : ℕ) (limit : ℕ → ℕ) (as' : List Attempt) (db : Db)
    → let k : CounterKey = (action, user_id, minute) in
      allowed k limit as' db ≡ min (limit action - counter k db.counters) (attempts k as')
unfolding allowed attempts
allowed-min action user_id minute limit [] db = omega arith
allowed-min action user_id minute limit (a ∷ as') db =
    let k : CounterKey = (action, user_id, minute) in
    let step = assert_allowed-counter k a (limit a.action) db in
    let db' = (assert_allowed a.user_id a.action (limit a.action) (record db { now = a.at })).1 in
    let rest = allowed-min action user_id minute limit as' db' in
    elim (Bool-cases (same_key (key_of a) k)) [
      | inl mine ↦
          let same =
            same_key_sound a.action action a.user_id user_id (window_key a.at) minute mine in
          let key : key_of a ≡ k = λ i. (same.0 i, same.1 i, same.2 i) in
          rw (mine, rest, step.1, step.0, mine, key, same.0) (ground arith)
      | inr other ↦ rw (other, rest, step.1, other) refl
    ]
