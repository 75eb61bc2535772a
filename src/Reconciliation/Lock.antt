-- ===== src/Reconciliation/Lock.antt =====
-- reconciliation-lock.service.ts: one key in Redis, taken with NX and a time to live.
use earn_defi_nestjs_backend.Base.{
  ℕ, ◌+◌, ◌*◌, ◌<◌, leb, ◌==◌, if◌then◌else◌, ◌≡◌, ◌≢◌, Bool, true, false, Option, none, some,
  arith, inl, inr, Option-cases,
}
use earn_defi_nestjs_backend.Schema.Rows.{Db}
use earn_defi_nestjs_backend.Monad.{ok, Action}

abbrev pub lock_ttl_seconds : ℕ
lock_ttl_seconds = 25

-- The value of the key: an expired key is gone.
abbrev pub holder : Option (ℕ × ℕ) → ℕ → Option ℕ
holder none now = none
holder (some (job, expires_at)) now = if leb expires_at now then none else some job

-- `SET key job NX EX 25`
unfoldable pub acquire : ℕ → Action Bool
acquire job db = elim (holder db.lock db.now) [
  | none ↦ (ok true, record db { lock = some (job, db.now + lock_ttl_seconds * 1000) })
  | some other ↦ (ok false, db)
]

-- `GET` and then `DEL`; others may run in between, which the model leaves out.
unfoldable pub release : ℕ → Action (Unit {0})
release job db = elim (holder db.lock db.now) [
  | none ↦ (ok tt, db)
  | some current ↦ if current == job then (ok tt, record db { lock = none }) else (ok tt, db)
]

-- Once a job has the lock, no job gets it at any later time short of 25 seconds unless the holder
-- releases it: a release by any other job changes nothing.
pub lock_exclusive :
    (job other : ℕ) (db : Db) {db' : Db} (later : ℕ)
    → acquire job db ≡ (ok true, db')
    → later < db.now + 25000
    → let waiting = record db' { now = later } in
      (acquire other waiting ≡ (ok false, waiting))
      × (other ≢ job → release other waiting ≡ (ok tt, waiting))
unfolding acquire release
lock_exclusive job other db {db'} later h soon = elim (Option-cases (holder db.lock db.now)) [
  | inl vacant ↦ ground arith
  | inr (current, e) ↦ ground arith
]
