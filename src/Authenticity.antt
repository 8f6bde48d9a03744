-- ===== src/Authenticity.antt =====
-- authenticity/: who signed a brain, and how that is read.
pub mod Wire
pub mod Chain
pub mod TrustRoot
