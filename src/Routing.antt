-- ===== src/Routing.antt =====
-- The routing policy of src/routing-policy.ts and its application to a Task.
pub mod Tiers
pub mod Points
pub mod Starts
pub mod Ranking
pub mod Chains
pub mod Judgment
pub mod Route
pub mod Scanned
pub mod Admitted
pub mod Guarantee
pub mod Ranked
mod Tests
