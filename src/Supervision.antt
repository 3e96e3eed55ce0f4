-- ===== src/Supervision.antt =====
-- The supervision of a launched agent: src/supervision.
pub mod Json
pub mod Protocol
pub mod Identity
pub mod Target
pub mod Continuity
pub mod Coherence
pub mod Events
pub mod SelfClose
mod Tests
