-- ===== src/Serve/Plan/Startup.antt =====
-- The start of a serve's machine: web/convex/core/serveLifecyclePlan.ts, lines 249-304, and the
-- mark that its provisioning has begun, `markProvisioning` of web/convex/serves.ts.
use tahuna_oss.Common.{
  Bool, false, not, ◌||◌, Option, none, some, List, [], ◌∷◌, if◌then◌else◌, put,
}
use tahuna_oss.Js.Text.{Text, lit, or_else, text_eq}
use tahuna_oss.Js.Number.{Number}
use tahuna_oss.Js.Json.{Json, Metadata}
use tahuna_oss.Jobs.Types.{ServeLifecycleJob}
use tahuna_oss.Jobs.Create.{create_check_serve_startup_timeout_job}
use tahuna_oss.Serve.Types.{
  ServeStatus, provisioning, is_terminal_serve_status, ServeState, no_change, ServePlan, no_plan,
  serve_event,
}
use tahuna_oss.Serve.Plan.Stop.{is_stopping, is_provisioning}

pub record StartupTimeout : Type 0 where
  pub delay_ms : Number
  pub startup_timeout_seconds : Number

abbrev pub startup_timeout_jobs : Text → Text → Option StartupTimeout → List ServeLifecycleJob
startup_timeout_jobs serve_id machine none = []
startup_timeout_jobs serve_id machine (some t) =
    ServeLifecycleJob.check_serve_startup_timeout
      (create_check_serve_startup_timeout_job serve_id t.delay_ms machine t.startup_timeout_seconds)
    ∷ []

unfoldable pub plan_serve_machine_provisioned :
    ServeState → Text → Option Json → Option StartupTimeout → ServePlan
plan_serve_machine_provisioned serve machine provider_metadata startup =
    if is_stopping serve.status || is_terminal_serve_status serve.status then no_plan else record {
      patch = some (record no_change { provider_machine_id = put machine });
      events =
          serve_event provisioning (lit "gpu machine provisioned") (
            some (
              ("provider_machine_id", some (Json.str machine))
              ∷ ("provider_metadata", provider_metadata)
              ∷ []))
          ∷ [];
      jobs = startup_timeout_jobs serve.serve_id machine startup;
    }

abbrev pub provisioning_metadata : Option Json → Option Metadata
provisioning_metadata none = none
provisioning_metadata (some payload) = some (
    ("provisioning_payload", some payload)
    ∷ (
      "fetch_strategy",
      some (
          Json.str (
            lit
              "serve runtime fetches pinned code/data manifests and the pinned model snapshot into /workspace")),
    )
    ∷ [])

-- What `markProvisioning` writes to the serve, and the event that it inserts.
unfoldable pub plan_mark_provisioning : ServeState → Option Json → ServePlan
plan_mark_provisioning serve payload =
    if is_stopping serve.status || is_terminal_serve_status serve.status then no_plan else record {
      patch = some (record no_change { status = put provisioning });
      events =
          serve_event provisioning (lit "serve provisioning started")
            (provisioning_metadata payload)
          ∷ [];
      jobs = [];
    }

pub record StartupTimeoutState : Type 0 where
  pub status : ServeStatus
  pub provider_machine_id : Option Text

unfoldable pub should_enforce_serve_startup_timeout : Option StartupTimeoutState → Text → Bool
should_enforce_serve_startup_timeout none machine = false
should_enforce_serve_startup_timeout (some s) machine =
    if is_terminal_serve_status s.status
    then false
    else if not (is_provisioning s.status)
    then false
    else text_eq (or_else s.provider_machine_id []) machine
