-- ===== src/Run.antt =====
-- The lifecycle of a training run, web/convex/core/runLifecyclePlan.ts: its types, the planning
-- functions, and theorems about the plans and about the run documents that they are applied to.
pub mod Types
pub mod Timing
pub mod Plan
pub mod Ingestion
pub mod Artifacts
pub mod Command
pub mod Terminal
pub mod Document
pub mod Reports
pub mod Deletion
pub mod Commits
pub mod Merge
mod Examples
