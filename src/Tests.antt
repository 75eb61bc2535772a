-- ===== src/Tests.antt =====
-- Runs of the services on small tables, and the theorems at them.
mod Data
mod Books
mod Approvals
mod Rows
mod Jobs
mod Provider
mod Ledger
mod Login
mod Sends
mod Protocols
mod Queries
mod Hash
mod Live
mod Page
mod Loading
mod Amounts
