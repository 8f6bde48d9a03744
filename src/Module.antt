-- ===== src/Module.antt =====
-- module/: versions of a module, and the ledger read from the provenance module.
pub mod Composition
pub mod Installed
pub mod Ledger
mod Tests
