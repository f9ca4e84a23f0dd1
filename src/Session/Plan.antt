-- ===== src/Session/Plan.antt =====
-- The planning functions of web/convex/core/computeSessionLifecyclePlan.ts.
pub mod Creation
pub mod Progress
pub mod Stop
pub use tahuna_oss.Session.Plan.Creation.{revoked}
unfoldable pub use tahuna_oss.Session.Plan.Creation.{plan_compute_session_failure}
pub use tahuna_oss.Session.Plan.Progress.{MachineArgs, is_idle, is_terminating}
unfoldable pub use tahuna_oss.Session.Plan.Progress.{
  plan_compute_session_machine_provisioned, plan_compute_session_heartbeat,
  plan_compute_session_serving, plan_compute_session_idle, plan_compute_session_run_assigned,
}
unfoldable pub use tahuna_oss.Session.Plan.Stop.{
  plan_compute_session_stop, plan_compute_session_terminated,
}
