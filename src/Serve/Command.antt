-- ===== src/Serve/Command.antt =====
-- The operations on a serve, one constructor for each planning function that an operation of
-- web/convex/serves.ts or web/convex/servesLifecycle.ts applies to a serve document, and one for
-- `markProvisioning`, which writes a status of its own.
use tahuna_oss.Common.{Bool, true, false, ◌≡◌, Option, none, some, any, Change, keep, unset, put}
use tahuna_oss.Js.Text.{Text}
use tahuna_oss.Js.Json.{Json}
use tahuna_oss.Serve.Types.{
  ServeStatus, is_terminal_serve_status, ServeState, ServePatch, ServePlan,
}
use tahuna_oss.Serve.Plan.{
  StartupTimeout, RetryArgs, revoked, plan_serve_stop, plan_serve_compute_session_stop,
  plan_serve_machine_provisioned, plan_serve_failure, plan_serve_stopped_after_termination,
  plan_serve_stop_termination_failed, plan_serve_compute_session_billing_failure,
  plan_serve_compute_session_termination_failed, plan_serve_termination_retry,
  plan_mark_provisioning,
}
use tahuna_oss.Serve.Ingestion.{IngestionArgs, plan_serve_runtime_status_ingestion}

pub data ServeCommand : Type 0 where
  stop : (force : Bool) → ServeCommand
  stop_session : (session : Text) (force : Bool) → ServeCommand
  machine_provisioned : Text → Option Json → Option StartupTimeout → ServeCommand
  fail : Text → Option Json → ServeCommand
  stopped_after_termination : (force : Bool) → ServeCommand
  stop_termination_failed : Text → ServeCommand
  billing_failure : (session : Text) → ServeCommand
  session_termination_failed : (session error : Text) → ServeCommand
  retry_termination : RetryArgs → ServeCommand
  ingest : IngestionArgs → ServeCommand
  mark_provisioning : Option Json → ServeCommand

unfoldable pub serve_command : ServeState → ServeCommand → ServePlan
serve_command serve (stop force) = (plan_serve_stop serve force).plan
serve_command serve (stop_session session force) =
    (plan_serve_compute_session_stop serve session force).plan
serve_command serve (machine_provisioned machine metadata startup) =
    plan_serve_machine_provisioned serve machine metadata startup
serve_command serve (fail error payload) = plan_serve_failure serve error payload
serve_command serve (stopped_after_termination force) =
    plan_serve_stopped_after_termination serve force
serve_command serve (stop_termination_failed error) = plan_serve_stop_termination_failed serve error
serve_command serve (billing_failure session) =
    plan_serve_compute_session_billing_failure serve session
serve_command serve (session_termination_failed session error) =
    plan_serve_compute_session_termination_failed serve session error
serve_command serve (retry_termination args) = plan_serve_termination_retry serve args
serve_command serve (ingest args) = (plan_serve_runtime_status_ingestion serve args).plan
serve_command serve (mark_provisioning payload) = plan_mark_provisioning serve payload

abbrev pub is_retry : ServeCommand → Bool
is_retry (retry_termination args) = true
is_retry _ = false

abbrev pub is_mark : ServeCommand → Bool
is_mark (mark_provisioning payload) = true
is_mark _ = false

-- The usage of a serve is settled where an event of the plan asks for it.
unfoldable pub settles_usage : ServePlan → Bool
settles_usage plan = any (λ e. e.include_terminal_timing) plan.events

abbrev pub ends_status : Change ServeStatus → Bool
ends_status keep = false
ends_status unset = false
ends_status (put status) = is_terminal_serve_status status

abbrev pub ends_serve_patch : Option ServePatch → Bool
ends_serve_patch none = false
ends_serve_patch (some p) = ends_status p.status

-- The plan writes a terminal status.
abbrev pub ends_serve : ServePlan → Bool
ends_serve plan = ends_serve_patch plan.patch

abbrev pub RevokesPatch : Option ServePatch → Type 0
RevokesPatch none = ⊥
RevokesPatch (some p) = p.runtime_token_hash ≡ put revoked

-- The plan makes the runtime token invalid.
abbrev pub Revokes : ServePlan → Type 0
Revokes plan = RevokesPatch plan.patch
