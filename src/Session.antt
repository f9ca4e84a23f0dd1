-- ===== src/Session.antt =====
-- The lifecycle of a compute session, web/convex/core/computeSessionLifecyclePlan.ts: its types, the
-- planning functions and timeouts, and theorems about them and about sequences of operations.
pub mod Types
pub mod Timeouts
pub mod Plan
pub mod Command
pub mod Clock
pub mod Endings
pub mod Document
mod Examples
