-- ===== src/Session/Examples.antt =====
-- Tests of the plans of a compute session, and the theorems at concrete sessions.
use tahuna_oss.Common.{◌≡◌, refl, true, false, none, some, List, [], ◌∷◌, change, change_required}
use tahuna_oss.Js.Text.{lit, trim}
use tahuna_oss.Js.Number.{of_ℕ}
use tahuna_oss.Session.Types.{SessionStatus, terminating, failed, SessionState, no_plan}
use tahuna_oss.Session.Timeouts.{HeartbeatArgs}
use tahuna_oss.Session.Command.{SessionCommand, heartbeat, idle, assign, stop, session_command}
use tahuna_oss.Session.Endings.{session_command_of_terminal}
use tahuna_oss.Session.Document.{
  HoldsWell, is_closing, SessionStore, step, run_trace, run_trace-HoldsWell, run_trace_closing,
  idle_reopens,
}

abbrev waiting : SessionState
waiting = record {
  compute_session_id = lit "session_1";
  status = SessionStatus.idle;
  provider_machine_id = some (lit "machine_1");
  provider_creation_time = some (of_ℕ 900);
  compute_started_at = some (of_ℕ 1000);
  compute_ended_at = none;
  terminating_since = none;
  runtime_token_hash = some (lit "hash");
  active_run_id = none;
}

abbrev closing : SessionState
closing = record waiting {
  status = terminating;
  active_run_id = some (lit "run_1");
  terminating_since = some 5000;
}

abbrev broken : SessionState
broken = record waiting { status = failed }

abbrev documents : SessionStore
documents = record {
  patch = λ p s. record s {
    status = change_required p.status s.status;
    active_run_id = change p.active_run_id s.active_run_id;
  };
  status_law = λ p s. refl;
  active_run_law = λ p s. refl;
}

abbrev beats : HeartbeatArgs
beats = record {
  last_heartbeat_at = some (of_ℕ 10000);
  provider_creation_time = none;
  created_at = some (of_ℕ 1);
  heartbeat_timeout_seconds = 30;
  startup_timeout_seconds = 600;
}

session_command_of_terminal_example : session_command broken (idle 7000) ≡ no_plan
session_command_of_terminal_example = session_command_of_terminal broken (idle 7000) refl

abbrev history : List SessionCommand
history = assign (lit "run_2") ∷ heartbeat 6000 ∷ stop false none 8000 ∷ []

run_trace-HoldsWell_example : HoldsWell (run_trace documents waiting history)
run_trace-HoldsWell_example = run_trace-HoldsWell documents waiting history refl

run_trace_closing_example : is_closing (run_trace documents closing history).status ≡ true
run_trace_closing_example =
    run_trace_closing documents closing history (refl, (refl, (refl, tt))) refl

idle_reopens_example :
    ((step documents closing (idle 9000)).status ≡ SessionStatus.idle)
    × ((step documents (step documents closing (idle 9000)) (assign (lit "run_2"))).active_run_id
        ≡ some (trim (lit "run_2")))
unfolding trim lit
idle_reopens_example = idle_reopens documents closing 9000 (lit "run_2") refl refl
