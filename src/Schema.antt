-- ===== src/Schema.antt =====
-- The data that the service keeps or exchanges, a module per owner.
pub mod Ledger
pub mod Subsidy
pub mod Catalog
pub mod Remote
