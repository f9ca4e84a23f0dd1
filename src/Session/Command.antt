-- ===== src/Session/Command.antt =====
-- The operations on a compute session, one constructor for each planning function that an operation
-- of web/convex/computeSessions.ts or web/convex/computeSessionAssignment.ts applies to a document.
use tahuna_oss.Common.{ℕ, Bool, false, Option, none, some, Change, keep, unset, put}
use tahuna_oss.Js.Text.{Text}
use tahuna_oss.Session.Types.{
  SessionStatus, is_terminal_session_status, SessionState, SessionPatch, SessionPlan,
}
use tahuna_oss.Session.Plan.{
  MachineArgs, plan_compute_session_failure, plan_compute_session_machine_provisioned,
  plan_compute_session_heartbeat, plan_compute_session_serving, plan_compute_session_idle,
  plan_compute_session_run_assigned, plan_compute_session_stop, plan_compute_session_terminated,
}

pub data SessionCommand : Type 0 where
  machine_provisioned : MachineArgs → SessionCommand
  heartbeat : (now_ms : ℕ) → SessionCommand
  serving : SessionCommand
  idle : (now_ms : ℕ) → SessionCommand
  assign : (run_id : Text) → SessionCommand
  stop : (force : Bool) (reason : Option Text) (now_ms : ℕ) → SessionCommand
  terminated : (now_ms : ℕ) → SessionCommand
  fail : (error : Text) (now_ms : ℕ) → SessionCommand

unfoldable pub session_command : SessionState → SessionCommand → SessionPlan
session_command session (machine_provisioned args) =
    plan_compute_session_machine_provisioned session args
session_command session (heartbeat now_ms) = plan_compute_session_heartbeat session now_ms
session_command session serving = plan_compute_session_serving session
session_command session (idle now_ms) = plan_compute_session_idle session now_ms
session_command session (assign run_id) = (plan_compute_session_run_assigned session run_id).plan
session_command session (stop force reason now_ms) =
    (plan_compute_session_stop session force reason now_ms).plan
session_command session (terminated now_ms) = plan_compute_session_terminated session now_ms
session_command session (fail error now_ms) = plan_compute_session_failure session error now_ms

abbrev pub ends_status : Change SessionStatus → Bool
ends_status keep = false
ends_status unset = false
ends_status (put status) = is_terminal_session_status status

abbrev pub ends_session_patch : Option SessionPatch → Bool
ends_session_patch none = false
ends_session_patch (some p) = ends_status p.status

-- The plan writes a terminal status.
abbrev pub ends_session : SessionPlan → Bool
ends_session plan = ends_session_patch plan.patch
