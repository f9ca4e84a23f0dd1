-- ===== src/Queue.antt =====
-- The job table behind the durable queue, web/convex/convexJobQueue.ts: the rows, the upsert by
-- idempotency key, the ends of a job, and the functions that enqueue the jobs of a plan.
pub mod Types
pub mod Table
pub mod Enqueue
pub mod Rows
pub mod Repeats
mod Examples
