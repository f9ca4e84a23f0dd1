-- ===== src/Serve/Plan/Stop.antt =====
-- The provisioning jobs and the stop of a serve: web/convex/core/serveLifecyclePlan.ts, lines 87-247.
use tahuna_oss.Common.{
  Bool, true, false, Option, none, some, List, [], ◌∷◌, ◌++◌, if◌then◌else◌, put, of_option,
}
use tahuna_oss.Js.Text.{Text, lit, is_empty, truthy}
use tahuna_oss.Js.Json.{Json, Metadata}
use tahuna_oss.Jobs.Types.{ServeLifecycleJob}
use tahuna_oss.Jobs.Create.{create_provision_serve_job, create_terminate_serve_machine_job}
use tahuna_oss.Serve.Types.{
  ServeStatus, provisioning, stopping, stopped, is_terminal_serve_status, ServeState, no_change,
  ServePlan, no_plan, serve_event, terminal_serve_event, normalize_machine_id,
}

-- The token hash that marks a runtime token as no longer valid.
abbrev pub revoked : Text
revoked = lit "revoked"

unfoldable pub compact_metadata : Metadata → Metadata
compact_metadata [] = []
compact_metadata ((k, none) ∷ m) = compact_metadata m
compact_metadata ((k, some v) ∷ m) = (k, some v) ∷ compact_metadata m

abbrev pub nonempty_metadata : Metadata → Option Metadata
nonempty_metadata [] = none
nonempty_metadata (f ∷ m) = some (f ∷ m)

unfoldable pub optional_compact_metadata : Metadata → Option Metadata
unfolding compact_metadata
optional_compact_metadata m = nonempty_metadata (compact_metadata m)

unfoldable pub plan_serve_provisioning_jobs : Text → Bool → List ServeLifecycleJob
plan_serve_provisioning_jobs serve_id enqueue =
    if enqueue
    then ServeLifecycleJob.provision_serve (create_provision_serve_job serve_id none) ∷ []
    else []

-- The immediate and forced termination of a machine.
abbrev pub forced_termination : Text → Text → ServeLifecycleJob
forced_termination serve_id machine =
    ServeLifecycleJob.terminate_serve_machine
      (create_terminate_serve_machine_job serve_id none machine true none)

unfoldable pub plan_forced_serve_machine_termination : Text → Option Text → List ServeLifecycleJob
plan_forced_serve_machine_termination serve_id machine =
    if is_empty (normalize_machine_id machine)
    then []
    else forced_termination serve_id (normalize_machine_id machine) ∷ []

-- The forced termination that a plan asks for, unless a compute session owns the machine.
abbrev pub termination_unless_session : ServeState → List ServeLifecycleJob
termination_unless_session serve =
    if truthy serve.compute_session_id
    then []
    else plan_forced_serve_machine_termination serve.serve_id serve.provider_machine_id

-- `status === SERVE_LIFECYCLE_STATUS.STOPPING`
abbrev pub is_stopping : ServeStatus → Bool
is_stopping stopping = true
is_stopping _ = false

abbrev pub is_provisioning : ServeStatus → Bool
is_provisioning provisioning = true
is_provisioning _ = false

-- A plan with the `resultStatus` that the caller answers.
pub record ServeStopPlan : Type 0 where
  pub plan : ServePlan
  pub result_status : ServeStatus

abbrev pub stop_metadata : Bool → Metadata
stop_metadata force =
    ("source", some (Json.str (lit "control-plane"))) ∷ ("forced", some (Json.bool force)) ∷ []

abbrev pub stop_message : Bool → Text
stop_message force = if force then lit "force stop requested" else lit "stop requested"

-- The stop of a serve that has a machine, and of one that has none.
abbrev pub stop_with_machine : ServeState → Bool → ServeStopPlan
stop_with_machine serve force = record {
  plan = record {
    patch = some (record no_change {
      status = put stopping;
      runtime_token_hash = of_option serve.runtime_token_hash;
    });
    events = serve_event stopping (stop_message force) (some (stop_metadata force)) ∷ [];
    jobs = forced_termination serve.serve_id (normalize_machine_id serve.provider_machine_id) ∷ [];
  };
  result_status = stopping;
}

abbrev pub stop_without_machine : Bool → ServeStopPlan
stop_without_machine force = record {
  plan = record {
    patch = some (record no_change { status = put stopped; runtime_token_hash = put revoked });
    events =
        terminal_serve_event stopped (lit "serve stopped before runtime start")
          (some (stop_metadata force))
        ∷ [];
    jobs = [];
  };
  result_status = stopped;
}

unfoldable pub plan_serve_stop : ServeState → Bool → ServeStopPlan
plan_serve_stop serve force =
    if is_stopping serve.status
    then record { plan = no_plan; result_status = stopping }
    else if is_terminal_serve_status serve.status
    then record { plan = no_plan; result_status = serve.status }
    else if is_empty (normalize_machine_id serve.provider_machine_id)
    then stop_without_machine force
    else stop_with_machine serve force

unfoldable pub plan_serve_compute_session_stop : ServeState → Text → Bool → ServeStopPlan
plan_serve_compute_session_stop serve session force =
    if is_stopping serve.status
    then record { plan = no_plan; result_status = stopping }
    else if is_terminal_serve_status serve.status
    then record { plan = no_plan; result_status = serve.status }
    else record {
      plan = record no_plan {
        patch = some (record no_change {
          status = put stopping;
          runtime_token_hash = of_option serve.runtime_token_hash;
        });
        events =
            serve_event stopping (stop_message force)
              (some (stop_metadata force ++ ("compute_session_id", some (Json.str session)) ∷ []))
            ∷ [];
      };
      result_status = stopping;
    }
