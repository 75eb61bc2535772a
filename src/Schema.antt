-- ===== src/Schema.antt =====
-- The data model of prisma/schema.prisma and the values that the services exchange. Identifiers,
-- addresses, hashes and slugs are only compared, so they are numbers; a `Decimal` column and a
-- `bigint` are integers.
pub mod Status
pub mod Rows
pub mod Chain
