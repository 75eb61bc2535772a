-- ===== src/Reconciliation.antt =====
-- reconciliation/: the job that settles the transactions which the request handlers left open.
pub mod Lock
pub mod Handle
pub mod Run
pub mod Settled
pub mod Accounting
pub mod Stale
pub mod Progress
pub mod Steps
pub mod Live
pub mod Arrival
