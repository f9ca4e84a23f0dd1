-- ===== src/Run/Plan.antt =====
-- The planning functions of web/convex/core/runLifecyclePlan.ts, all but the ingestion of a status
-- and of artifacts. `nowMs`, grace periods and attempts that the source only passes on or prints are
-- natural numbers.
pub mod Creation
pub mod Stop
pub mod Startup
pub mod Ending
pub use tahuna_oss.Run.Plan.Creation.{revoked}
pub use tahuna_oss.Run.Plan.Stop.{termination_unless_session}
unfoldable pub use tahuna_oss.Run.Plan.Stop.{
  plan_run_cancellation, plan_forced_machine_termination, plan_run_deletion, plan_run_rename_event,
}
pub use tahuna_oss.Run.Plan.Startup.{StartupTimeout, startup_timeout_jobs, cancelled_plan}
unfoldable pub use tahuna_oss.Run.Plan.Startup.{
  plan_machine_provisioned, plan_provisioning_started, plan_machine_running,
}
pub use tahuna_oss.Run.Plan.Ending.{RetryArgs, is_provisioning}
unfoldable pub use tahuna_oss.Run.Plan.Ending.{
  plan_run_failure, plan_cancellation_termination_completed, plan_cancellation_termination_failed,
  plan_termination_retry,
}
