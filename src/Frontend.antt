-- ===== src/Frontend.antt =====
-- frontend/src: the amounts that the user types, the page of a deposit and the wallets.
pub mod Amounts
pub mod DepositFlow
pub mod Wallets
