-- ===== src/Merkle.antt =====
-- merkle/: the commitment over a module's composition.
pub mod Tree
pub mod Proof
pub mod Powers
pub mod Shape
pub mod Climb
pub mod Span
pub mod Cache
pub mod Binding
pub mod Soundness
pub mod Reference
pub mod Positions
pub mod Commitment
pub mod Diff
pub mod Tests
