-- ===== src/Tests.antt =====
-- Concrete runs, and each theorem's hypotheses met on one of them.
pub mod Scenario
mod Pipeline
mod Leases
pub mod Workers
mod Audio
mod Texts
mod Correction
mod Terms
mod Views
mod Files
