-- ===== src/Positions.antt =====
-- earn/persistence/positions: one position per user and vault, and its three amounts.
pub mod Repository
pub mod Service
pub mod Amounts
pub mod Ledger
pub mod Filters
