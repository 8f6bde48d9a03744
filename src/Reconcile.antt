-- ===== src/Reconcile.antt =====
-- reconcile/: bringing two histories of one brain together.
pub mod Merge
pub mod Ancestry
pub mod Ancestor
mod Tests
