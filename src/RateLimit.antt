-- ===== src/RateLimit.antt =====
-- earn/services/earn-mutation-rate-limit.service.ts: a counter in Redis for each action, user and
-- minute.
pub mod Window
use earn_defi_nestjs_backend.Base.{
  ℕ, suc, ◌/◌, ltb, ◌==◌, if◌then◌else◌, Bool, true, false, ◌&&◌, Option, none, some, List, [], ◌∷◌,
}
use earn_defi_nestjs_backend.Schema.Rows.{Db}
use earn_defi_nestjs_backend.Schema.Chain.{Config}
use earn_defi_nestjs_backend.Monad.{Result, ok, err, Action, rate_limit_exceeded}

-- `earn:${action}:${userId}:${windowKey}`
abbrev pub CounterKey : Type 0
CounterKey = ℕ × ℕ × ℕ

abbrev pub same_key : CounterKey → CounterKey → Bool
same_key (a, u, w) (b, v, x) = a == b && u == v && w == x

abbrev pub counter : CounterKey → List (CounterKey × ℕ) → ℕ
counter k [] = 0
counter k ((j, n) ∷ rest) = if same_key j k then n else counter k rest

-- `INCR`, which counts from 0 where the key is missing.
abbrev pub set_counter : CounterKey → ℕ → List (CounterKey × ℕ) → List (CounterKey × ℕ)
set_counter k n [] = (k, n) ∷ []
set_counter k n ((j, m) ∷ rest) =
    if same_key j k then (j, n) ∷ rest else (j, m) ∷ set_counter k n rest

abbrev pub window_key : ℕ → ℕ
window_key now = now / 60000

-- The key names its minute, so that it expires (60 seconds after its first use, when the minute is
-- over) does not change what is counted in it.
unfoldable pub assert_allowed : ℕ → ℕ → ℕ → Action (Unit {0})
assert_allowed user_id action limit db =
    let key : CounterKey = (action, user_id, window_key db.now) in
    let count = suc (counter key db.counters) in
    let db' = record db { counters = set_counter key count db.counters } in
    if ltb limit count then (err rate_limit_exceeded, db') else (ok tt, db')

unfoldable pub assert_deposit_allowed : Config → ℕ → Action (Unit {0})
unfolding assert_allowed
assert_deposit_allowed config user_id = assert_allowed user_id 0 config.max_deposits_per_minute

unfoldable pub assert_withdraw_allowed : Config → ℕ → Action (Unit {0})
unfolding assert_allowed
assert_withdraw_allowed config user_id = assert_allowed user_id 1 config.max_withdrawals_per_minute
