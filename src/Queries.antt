-- ===== src/Queries.antt =====
-- The read-only services of src/earn/services: vaults, positions and transactions as a client sees
-- them.
pub mod Value
pub mod Vaults
pub mod Transactions
pub mod Positions
pub mod Listed
pub mod Worth
