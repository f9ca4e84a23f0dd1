-- ===== src/Serve/Plan.antt =====
-- The planning functions of web/convex/core/serveLifecyclePlan.ts, all but the ingestion of a
-- status. Attempts that the source only prints are natural numbers.
pub mod Stop
pub mod Startup
pub mod Ending
pub use tahuna_oss.Serve.Plan.Stop.{
  revoked, forced_termination, termination_unless_session, is_stopping,
}
unfoldable pub use tahuna_oss.Serve.Plan.Stop.{
  compact_metadata, plan_forced_serve_machine_termination, plan_serve_stop,
  plan_serve_compute_session_stop,
}
pub use tahuna_oss.Serve.Plan.Startup.{StartupTimeout}
unfoldable pub use tahuna_oss.Serve.Plan.Startup.{
  plan_mark_provisioning, plan_serve_machine_provisioned,
}
pub use tahuna_oss.Serve.Plan.Ending.{RetryArgs}
unfoldable pub use tahuna_oss.Serve.Plan.Ending.{
  plan_serve_failure, plan_serve_stopped_after_termination, plan_serve_stop_termination_failed,
  plan_serve_compute_session_billing_failure, plan_serve_compute_session_termination_failed,
  plan_serve_termination_retry,
}
