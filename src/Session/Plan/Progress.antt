-- ===== src/Session/Plan/Progress.antt =====
-- The machine, the heartbeat, the serving and the idling of a session, and the assignment of a run:
-- web/convex/core/computeSessionLifecyclePlan.ts, lines 167-278.
use tahuna_oss.Common.{
  ℕ, Bool, true, false, not, Option, none, some, [], ◌∷◌, ◌++◌, if◌then◌else◌, put, unset, put_some,
  get_or,
}
use tahuna_oss.Js.Text.{Text, lit, is_empty, truthy, trim}
use tahuna_oss.Js.Number.{Number, of_ℕ, truthy_number}
use tahuna_oss.Js.Json.{Json}
use tahuna_oss.Session.Types.{
  SessionStatus, provisioning, idle, running, terminating, session_status_text,
  is_terminal_session_status, SessionState, no_change, SessionPlan, no_plan, session_event,
  normalize_machine_id, normalize_timestamp,
}
use tahuna_oss.Session.Plan.Creation.{plan_compute_session_failure}

pub record MachineArgs : Type 0 where
  pub provider_machine_id : Text
  pub provider_creation_time : Option Number
  pub runtime_token_hash : Text
  pub now_ms : ℕ

-- `session.computeStartedAt ?? normalizeTimestamp(providerCreationTime) ?? nowMs`
abbrev pub provisioned_start : SessionState → MachineArgs → Number
provisioned_start session a =
    get_or session.compute_started_at
      (of_ℕ (get_or (normalize_timestamp a.provider_creation_time) a.now_ms))

unfoldable pub plan_compute_session_machine_provisioned : SessionState → MachineArgs → SessionPlan
unfolding plan_compute_session_failure
plan_compute_session_machine_provisioned session a =
    if is_terminal_session_status session.status
    then no_plan
    else if is_empty (normalize_machine_id (some a.provider_machine_id))
    then plan_compute_session_failure session (lit "provider machine id is required") a.now_ms
    else record {
      patch = some (record no_change {
        provider_machine_id = put (normalize_machine_id (some a.provider_machine_id));
        runtime_token_hash = put a.runtime_token_hash;
        provider_creation_time =
            put_some
              (if truthy_number a.provider_creation_time then a.provider_creation_time else none);
        compute_started_at = put (provisioned_start session a);
      });
      events =
          session_event provisioning (lit "compute session machine provisioned") (
            some (
              (
                "provider_machine_id",
                some (Json.str (normalize_machine_id (some a.provider_machine_id))),
              )
              ∷ []))
          ∷ [];
    }

unfoldable pub plan_compute_session_heartbeat : SessionState → ℕ → SessionPlan
plan_compute_session_heartbeat session now_ms =
    if is_terminal_session_status session.status
    then no_plan
    else record no_plan { patch = some (record no_change { last_heartbeat_at = put now_ms }) }

-- `status === COMPUTE_SESSION_STATUS.PROVISIONING || status === COMPUTE_SESSION_STATUS.IDLE`
abbrev pub can_serve : SessionStatus → Bool
can_serve provisioning = true
can_serve idle = true
can_serve _ = false

unfoldable pub plan_compute_session_serving : SessionState → SessionPlan
plan_compute_session_serving session = if not (can_serve session.status) then no_plan else record {
  patch = some (record no_change { status = put running });
  events = session_event running (lit "compute session serving") none ∷ [];
}

unfoldable pub plan_compute_session_idle : SessionState → ℕ → SessionPlan
plan_compute_session_idle session now_ms =
    if is_terminal_session_status session.status then no_plan else record {
      patch = some (record no_change {
        status = put idle;
        active_run_id = unset;
        last_idle_at = put now_ms;
      });
      events = session_event idle (lit "compute session idle") none ∷ [];
    }

-- `status === COMPUTE_SESSION_STATUS.IDLE`
abbrev pub is_idle : SessionStatus → Bool
is_idle idle = true
is_idle _ = false

abbrev pub is_terminating : SessionStatus → Bool
is_terminating terminating = true
is_terminating _ = false

-- A plan with the `error` that some functions return instead of one.
pub record SessionPlanResult : Type 0 where
  pub plan : SessionPlan
  pub error : Option Text

abbrev pub refuse : Text → SessionPlanResult
refuse message = record { plan = no_plan; error = some message }

unfoldable pub plan_compute_session_run_assigned : SessionState → Text → SessionPlanResult
plan_compute_session_run_assigned session run_id =
    if not (is_idle session.status)
    then refuse (lit "compute session must be idle, got " ++ session_status_text session.status)
    else if truthy session.active_run_id
    then refuse (lit "compute session already has an active run")
    else if is_empty (trim run_id)
    then refuse (lit "run id is required")
    else record {
      plan = record {
        patch = some (record no_change { status = put running; active_run_id = put (trim run_id) });
        events =
            session_event running (lit "compute session run assigned")
              (some (("run_id", some (Json.str (trim run_id))) ∷ []))
            ∷ [];
      };
      error = none;
    }
