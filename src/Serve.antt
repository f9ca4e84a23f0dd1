-- ===== src/Serve.antt =====
-- The lifecycle of a served model, web/convex/core/serveLifecyclePlan.ts: its types, the planning
-- functions, and theorems about the plans and about sequences of operations.
pub mod Types
pub mod Plan
pub mod Ingestion
pub mod Command
pub mod Transitions
pub mod Terminal
pub mod Progress
mod Examples
