-- ===== src/Coordination.antt =====
-- Coordinated work: internal/coordination.
pub mod Model
pub mod Scopes
pub mod Overlap
pub mod Lifecycle
pub mod Commands
pub mod Conflicts
pub mod Exclusion
pub mod Start
pub mod Status
pub mod Attach
pub mod Handoff
pub mod Service
