-- ===== src/Backlog.antt =====
-- The export of stories to an external backlog, of packages/domain/src/backlog.
pub mod Types
pub mod Mapping
pub mod Staleness
