-- ===== src/Tests.antt =====
-- Concrete tables, on which the theorems are applied.
mod Worlds
mod Bidding
mod Orders
mod Sales
mod Fulfilment
mod Cancelling
mod Catalogue
mod Aftermath
