-- ===== src/Governance.antt =====
-- Promotion governance: validation runs, human approvals and their life cycle.
pub mod Types
pub mod Factories
pub mod Promotion
pub mod Samples
