-- ===== src/Requirements.antt =====
-- Requirements authority: revisions, baselines, findings, decisions and policy constraints.
pub mod Types
pub mod Revision
pub mod Policy
pub mod Source
pub mod Baseline
pub mod Finding
pub mod Decision
pub mod Authority
mod Samples
