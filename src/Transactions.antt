-- ===== src/Transactions.antt =====
-- earn/persistence/transactions: the rows of on-chain transactions and their status.
pub mod Repository
pub mod Service
pub mod Confirm
pub mod Order
pub mod Page
