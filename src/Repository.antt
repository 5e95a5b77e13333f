-- ===== src/Repository.antt =====
-- The repositories of backend/src/database. A `findUnique` is the first row that passes, an
-- `updateMany` changes every row that passes and returns their number, a `create` draws a fresh
-- identifier and fails on a taken unique key, as Prisma documents.
pub mod Outbox
pub mod Auctions
pub mod Products
pub mod Orders
pub mod Carts
pub mod Disputes
