-- ===== src/Idempotency.antt =====
-- idempotency/: a mutation carries a key, and a repeated request is answered from the first
-- response.
pub mod Service
pub mod Intercept
pub mod Replay
pub mod Hash
