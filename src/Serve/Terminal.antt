-- ===== src/Serve/Terminal.antt =====
-- What the plans do to a serve that has ended, and what a plan that ends a serve does besides.
use tahuna_oss.Common.{◌≡◌, ◌≢◌, ◌⊎◌, Bool, true, false, not, none, [], ◌∷◌, arith}
use tahuna_oss.Js.Text.{truthy, is_empty}
use tahuna_oss.Serve.Types.{is_terminal_serve_status, ServeState, no_plan, normalize_machine_id}
use tahuna_oss.Serve.Plan.{
  forced_termination, plan_forced_serve_machine_termination, plan_serve_stop,
  plan_serve_compute_session_stop, plan_serve_machine_provisioned, plan_serve_failure,
  plan_serve_stopped_after_termination, plan_serve_stop_termination_failed,
  plan_serve_compute_session_billing_failure, plan_serve_compute_session_termination_failed,
  plan_serve_termination_retry, plan_mark_provisioning,
}
use tahuna_oss.Serve.Ingestion.{plan_serve_runtime_status_ingestion}
use tahuna_oss.Serve.Command.{
  ServeCommand, stop, stop_session, machine_provisioned, fail, stopped_after_termination,
  stop_termination_failed, billing_failure, session_termination_failed, retry_termination, ingest,
  mark_provisioning, serve_command, is_retry, settles_usage, ends_serve, Revokes,
}

-- On a serve that has ended, every operation but the retry of a termination does nothing at all, and
-- the retry writes nothing to the serve.
pub serve_command_of_terminal :
    (serve : ServeState) (c : ServeCommand)
    → is_terminal_serve_status serve.status ≡ true
    → ((serve_command serve c).patch ≡ none)
      × ((is_retry c ≡ true) ⊎ (serve_command serve c ≡ no_plan))
unfolding serve_command
serve_command_of_terminal serve (stop f) h = unfold plan_serve_stop in ground arith
serve_command_of_terminal serve (stop_session t f) h =
    unfold plan_serve_compute_session_stop in ground arith
serve_command_of_terminal serve (machine_provisioned m d t) h =
    unfold plan_serve_machine_provisioned in ground arith
serve_command_of_terminal serve (fail e p) h = unfold plan_serve_failure in ground arith
serve_command_of_terminal serve (stopped_after_termination f) h =
    unfold plan_serve_stopped_after_termination in ground arith
serve_command_of_terminal serve (stop_termination_failed e) h =
    unfold plan_serve_stop_termination_failed in ground arith
serve_command_of_terminal serve (billing_failure t) h =
    unfold plan_serve_compute_session_billing_failure in ground arith
serve_command_of_terminal serve (session_termination_failed t e) h =
    unfold plan_serve_compute_session_termination_failed in ground arith
serve_command_of_terminal serve (retry_termination r) h =
    unfold plan_serve_termination_retry in ground arith
serve_command_of_terminal serve (ingest a) h =
    unfold plan_serve_runtime_status_ingestion in ground arith
serve_command_of_terminal serve (mark_provisioning p) h =
    unfold plan_mark_provisioning in ground arith

-- A plan settles the usage exactly when it ends the serve, and then it revokes the runtime token.
pub serve_command_settles :
    (serve : ServeState) (c : ServeCommand)
    → (settles_usage (serve_command serve c) ≡ ends_serve (serve_command serve c))
      × ((ends_serve (serve_command serve c) ≡ false) ⊎ Revokes (serve_command serve c))
unfolding serve_command settles_usage
serve_command_settles serve (stop f) = unfold plan_serve_stop in ground arith
serve_command_settles serve (stop_session t f) =
    unfold plan_serve_compute_session_stop in ground arith
serve_command_settles serve (machine_provisioned m d t) =
    unfold plan_serve_machine_provisioned in ground arith
serve_command_settles serve (fail e p) = unfold plan_serve_failure in ground arith
serve_command_settles serve (stopped_after_termination f) =
    unfold plan_serve_stopped_after_termination in ground arith
serve_command_settles serve (stop_termination_failed e) =
    unfold plan_serve_stop_termination_failed in ground arith
serve_command_settles serve (billing_failure t) =
    unfold plan_serve_compute_session_billing_failure in ground arith
serve_command_settles serve (session_termination_failed t e) =
    unfold plan_serve_compute_session_termination_failed in ground arith
serve_command_settles serve (retry_termination r) =
    unfold plan_serve_termination_retry in ground arith
serve_command_settles serve (ingest a) = unfold plan_serve_runtime_status_ingestion in ground arith
serve_command_settles serve (mark_provisioning p) = unfold plan_mark_provisioning in ground arith

-- The operations that end a serve of their own accord, and a stop, which does not wait for the
-- runtime; the others follow a termination that was tried, or belong to a compute session.
abbrev pub must_terminate : ServeCommand → Bool
must_terminate (stop f) = true
must_terminate (fail e p) = true
must_terminate (ingest a) = true
must_terminate _ = false

abbrev pub is_stop : ServeCommand → Bool
is_stop (stop f) = true
is_stop _ = false

abbrev pub has_machine : ServeState → Bool
has_machine serve = not (is_empty (normalize_machine_id serve.provider_machine_id))

-- No machine is left behind: where a serve has a machine that no compute session owns, each stop,
-- failure or report that writes a status of the end, or `stopping` for a stop, asks for exactly one
-- job, the forced termination of that machine.
pub serve_command_terminates :
    (serve : ServeState) (c : ServeCommand)
    → has_machine serve ≡ true
    → truthy serve.compute_session_id ≡ false
    → must_terminate c ≡ true
    → (ends_serve (serve_command serve c) ≡ true)
      ⊎ ((is_stop c ≡ true) × ((serve_command serve c) ≢ no_plan))
    → (serve_command serve c).jobs
      ≡ forced_termination serve.serve_id (normalize_machine_id serve.provider_machine_id) ∷ []
unfolding serve_command plan_forced_serve_machine_termination
serve_command_terminates serve (stop f) m o s h = unfold plan_serve_stop in ground arith
serve_command_terminates serve (fail e p) m o s h = unfold plan_serve_failure in ground arith
serve_command_terminates serve (ingest a) m o s h =
    unfold plan_serve_runtime_status_ingestion in ground arith
serve_command_terminates serve c m o s h = cc
