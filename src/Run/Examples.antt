-- ===== src/Run/Examples.antt =====
-- Tests of the plans of a run, and the theorems at concrete runs.
mod Artifacts
mod Timing
use tahuna_oss.Common.{
  String, ◌≤◌, ◌<◌, ◌≡◌, refl, ◌⊎◌, true, false, ◌&&◌, ◌||◌, not, none, some, List, [], ◌∷◌, arith,
  length, All, change, change_required, is_some, if◌then◌else◌, ltb,
}
use tahuna_oss.Js.Text.{Text, lit, trim, mem_text, text_eq, starts_with, decimal}
use tahuna_oss.Js.Number.{of_ℕ}
use tahuna_oss.Js.Json.{Json, Metadata}
use tahuna_oss.Run.Types.{
  RunStatus, running, cancelling, completed, failed, cancelled, is_terminal_run_status, RunState,
  RunEvent, no_plan, is_set, normalize_machine_id, run_event,
}
use tahuna_oss.Run.Plan.{
  cancelled_plan, plan_run_cancellation, plan_run_deletion, termination_unless_session,
  plan_run_failure,
}
use tahuna_oss.Run.Ingestion.{
  IngestionArgs, effective_status, ingestion_error_text, plan_runtime_status_ingestion,
}
use tahuna_oss.Run.Artifacts.{
  is_run_artifact_key, RuntimeArtifact, artifact_step, plan_runtime_artifact_commit,
  metadata_or_empty, merge_run_event_metadata,
}
use tahuna_oss.Run.Command.{
  RunCommand, cancel, provisioning_started, machine_running, fail, termination_failed, ingest,
  delete, run_command, is_bootstrap_report, is_rename, settles_usage, ends_run,
}
use tahuna_oss.Run.Terminal.{
  plan_after_end, run_command_of_terminal, run_command_settles, Revokes, run_command-Revokes,
  forced_termination, run_command_terminates, terminations, run_command_spares_session,
}
use tahuna_oss.Run.Document.{
  RunStore, RunInv, is_pending, step, run_trace, run_trace-RunInv, run_trace_cancelled,
  run_trace_ended, run_trace_start,
}
use tahuna_oss.Run.Reports.{written_status, plan_runtime_status_ingestion-result}
use tahuna_oss.Run.Deletion.{plan_run_deletion_cases}
use tahuna_oss.Run.Commits.{
  below_output, HasNoRepeats, added_keys, plan_runtime_artifact_commit_lem,
}
use tahuna_oss.Run.Timing.{
  TimedRun, settled, resolve_terminal_run_timing, resolve_run_uptime_ms,
  resolve_terminal_run_timing_again, resolve_run_uptime_ms-settled,
}
use tahuna_oss.Run.Merge.{field_of, has_field, merge_run_event_metadata_lem}

abbrev machine : Text
machine = lit "machine_1"

-- A run that runs on a machine of its own.
abbrev live : RunState
live = record {
  run_id = lit "run_1";
  status = running;
  compute_session_id = none;
  cancellation_requested = some false;
  provider_machine_id = some machine;
  compute_started_at = some (of_ℕ 1000);
  compute_ended_at = none;
  runtime_token_hash = some (lit "hash");
  artifact_keys = none;
  output = none;
}

-- A run that failed after its cancellation was requested.
abbrev failed_cancel : RunState
failed_cancel = record live { status = failed; cancellation_requested = some true }

abbrev finished : RunState
finished = record live { status = completed }

abbrev leased : RunState
leased = record live { compute_session_id = some (lit "session_1") }

abbrev stopping : RunState
stopping = record live { status = cancelling; cancellation_requested = some true }

-- A store that writes the fields of a patch.
abbrev documents : RunStore
documents = record {
  patch = λ p s. record s {
    status = change_required p.status s.status;
    cancellation_requested = change p.cancellation_requested s.cancellation_requested;
    compute_started_at = change p.compute_started_at s.compute_started_at;
    provider_machine_id = change p.provider_machine_id s.provider_machine_id;
    runtime_token_hash = change p.runtime_token_hash s.runtime_token_hash;
  };
  status_law = λ p s. refl;
  cancellation_law = λ p s. refl;
  started_law = λ p s. refl;
}

abbrev report : RunStatus → IngestionArgs
report status = record {
  status = status;
  message = some (lit " done ");
  error = none;
  now_ms = 2000;
  terminate_machine = some true;
}

run_command_of_terminal_example :
    run_command failed_cancel (provisioning_started none)
    ≡ plan_after_end failed_cancel (provisioning_started none)
run_command_of_terminal_example =
    run_command_of_terminal failed_cancel (provisioning_started none) refl

run_command_settles_example :
    (((is_set live.cancellation_requested && is_bootstrap_report (ingest (report completed)))
        ≡ true)
      × (run_command live (ingest (report completed)) ≡ cancelled_plan))
    ⊎ ((settles_usage (run_command live (ingest (report completed)))
          ≡ ends_run (run_command live (ingest (report completed))))
        × All
            (λ e.
              e.include_terminal_timing
              ≡ (is_terminal_run_status e.status && not (is_rename (ingest (report completed)))))
            (run_command live (ingest (report completed))).events)
run_command_settles_example = run_command_settles live (ingest (report completed))

run_command-Revokes_example :
    ((is_set live.cancellation_requested && is_bootstrap_report (fail (lit "oom") none)) ≡ true)
    ⊎ Revokes (run_command live (fail (lit "oom") none))
unfolding normalize_machine_id run_command plan_run_failure trim lit
run_command-Revokes_example = run_command-Revokes live (fail (lit "oom") none) refl refl

run_command_terminates_example :
    (run_command live (fail (lit "oom") none)).jobs ≡ forced_termination live ∷ []
unfolding normalize_machine_id run_command plan_run_failure trim lit
run_command_terminates_example =
    run_command_terminates live (fail (lit "oom") none) refl refl refl refl

run_command_spares_session_example : terminations (run_command leased (delete true true)).jobs ≡ 0
unfolding lit
run_command_spares_session_example = run_command_spares_session leased (delete true true) refl refl

abbrev history : List RunCommand
history = machine_running none 5000 ∷ cancel false 30000 ∷ termination_failed (lit "gone") ∷ []

run_trace-RunInv_example : RunInv (run_trace documents live history)
run_trace-RunInv_example =
    run_trace-RunInv documents live history (tt, (tt, (tt, tt))) (ground arith)

run_trace_cancelled_example :
    (is_set (run_trace documents stopping history).cancellation_requested ≡ true)
    × (is_pending (run_trace documents stopping history).status ≡ false)
run_trace_cancelled_example =
    run_trace_cancelled documents stopping history (tt, (tt, (tt, tt))) refl refl

run_trace_ended_example :
    is_terminal_run_status (run_trace documents failed_cancel history).status ≡ true
run_trace_ended_example = run_trace_ended documents failed_cancel history (tt, (tt, (tt, tt))) refl

run_trace_start_example :
    (run_trace documents live history).compute_started_at ≡ live.compute_started_at
run_trace_start_example = run_trace_start documents live history (tt, (tt, (tt, tt))) refl

-- A cancellation with the grace period of 30 seconds.
cancel_message :
    (plan_run_cancellation live false 30000).plan.events
    ≡ run_event cancelling (lit "cancellation requested (grace period 30s before termination)") none
      ∷ []
unfolding plan_run_cancellation normalize_machine_id trim lit decimal
cancel_message = refl
