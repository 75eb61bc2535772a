-- ===== src/Protocols.antt =====
-- src/protocols: the Aave provider, by which the services see the vaults.
pub mod Reads
pub mod Viem
pub mod Aave
pub mod Listing
