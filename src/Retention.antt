-- ===== src/Retention.antt =====
-- retention/: what a drop takes with it, and what a policy permits.
pub mod Cascade
pub mod Plan
pub mod Policy
pub mod Reachability
mod Tests
