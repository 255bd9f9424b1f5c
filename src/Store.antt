-- ===== src/Store.antt =====
-- The governance part of the file repository of apps/orchestrator.
pub mod Schema
pub mod Approvals
pub mod Listing
mod Active
pub mod Laws
pub mod Replacing
pub mod History
pub mod Recreate
pub mod RoundTrip
mod Samples
