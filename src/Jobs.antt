-- ===== src/Jobs.antt =====
-- The durable jobs of the control plane, web/convex/core/jobQueue.ts: the job types, the functions
-- that create a job with its idempotency key, and the conversion to a record of the job table.
pub mod Types
pub mod Create
pub mod Record
pub mod Keys
pub mod Normal
mod Examples
