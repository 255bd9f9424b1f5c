-- ===== src/Stories.antt =====
-- Stories of a baseline, their dependencies and the order in which they are implemented.
pub mod Types
pub mod Create
pub mod Order
pub mod Cycles
pub mod CycleSearch
pub mod Graph
pub mod Coverage
pub mod Readiness
pub mod Created
