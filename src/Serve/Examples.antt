-- ===== src/Serve/Examples.antt =====
-- Tests of the plans of a serve, and the theorems at concrete serves.
use tahuna_oss.Common.{
  ◌+◌, ◌*◌, ◌≤◌, ◌≡◌, refl, ◌⊎◌, inl, ◌||◌, true, false, none, some, List, [], ◌∷◌, change_required,
}
use tahuna_oss.Js.Text.{lit, trim}
use tahuna_oss.Js.Number.{of_ℕ}
use tahuna_oss.Serve.Types.{
  ServeStatus, queued, provisioning, starting, serving, stopping, stopped, failed, ServeState,
  no_plan, normalize_machine_id, is_terminal_serve_status, can_transition_serve_status,
}
use tahuna_oss.Serve.Plan.{
  forced_termination, is_stopping, plan_serve_failure, plan_serve_stop, plan_mark_provisioning,
}
use tahuna_oss.Serve.Ingestion.{IngestionArgs, next_status, plan_serve_runtime_status_ingestion}
use tahuna_oss.Serve.Command.{
  ServeCommand, stop, fail, stopped_after_termination, ingest, mark_provisioning, serve_command,
  is_retry, settles_usage, ends_serve, Revokes,
}
use tahuna_oss.Serve.Transitions.{◌⟶◌, written_status, plan_serve_runtime_status_ingestion-⟶}
use tahuna_oss.Serve.Terminal.{
  serve_command_of_terminal, serve_command_settles, serve_command_terminates,
}
use tahuna_oss.Serve.Progress.{
  ServeStore, step, apply_serve_plan, rank, marks, run_trace, run_trace-stopping, status_changes,
  status_changes_bound, stop_completes,
}

-- A serve that serves on a machine of its own.
abbrev live : ServeState
live = record {
  serve_id = lit "serve_1";
  status = serving;
  provider_machine_id = some (lit " machine_1 ");
  compute_session_id = none;
  runtime_token_hash = some (lit "hash");
  compute_started_at = some (of_ℕ 1000);
  compute_ended_at = none;
  error = none;
}

abbrev halting : ServeState
halting = record live { status = stopping }

abbrev fresh : ServeState
fresh = record live { status = queued }

abbrev over : ServeState
over = record live { status = stopped }

abbrev documents : ServeStore
documents = record {
  patch = λ p s. record s { status = change_required p.status s.status };
  status_law = λ p s. refl;
}

abbrev report : ServeStatus → IngestionArgs
report status = record { status = status; message = none; error = none; now_ms = 2000 }

abbrev marked : List ServeCommand
marked = mark_provisioning none ∷ ingest (report starting) ∷ []

abbrev history : List ServeCommand
history =
    ingest (report provisioning)
    ∷ ingest (report starting)
    ∷ ingest (report provisioning)
    ∷ stop false
    ∷ ingest (report failed)
    ∷ []

plan_serve_runtime_status_ingestion-⟶_example :
    let r = plan_serve_runtime_status_ingestion live (report starting) in
    (serving ⟶ written_status r.plan.patch serving)
    × (r.result_status ≡ written_status r.plan.patch serving)
    × ((r.error ≡ none) ⊎ ((¬ (serving ⟶ next_status serving starting)) × (r.plan ≡ no_plan)))
plan_serve_runtime_status_ingestion-⟶_example =
    plan_serve_runtime_status_ingestion-⟶ live (report starting)

serve_command_of_terminal_example :
    ((serve_command over (fail (lit "late") none)).patch ≡ none)
    × ((is_retry (fail (lit "late") none) ≡ true)
        ⊎ (serve_command over (fail (lit "late") none) ≡ no_plan))
serve_command_of_terminal_example = serve_command_of_terminal over (fail (lit "late") none) refl

serve_command_settles_example :
    (settles_usage (serve_command live (fail (lit "oom") none))
      ≡ ends_serve (serve_command live (fail (lit "oom") none)))
    × ((ends_serve (serve_command live (fail (lit "oom") none)) ≡ false)
        ⊎ Revokes (serve_command live (fail (lit "oom") none)))
serve_command_settles_example = serve_command_settles live (fail (lit "oom") none)

serve_command_terminates_example :
    (serve_command live (fail (lit "oom") none)).jobs
    ≡ forced_termination (lit "serve_1") (normalize_machine_id (some (lit " machine_1 "))) ∷ []
unfolding normalize_machine_id serve_command plan_serve_failure trim lit
serve_command_terminates_example =
    serve_command_terminates live (fail (lit "oom") none) refl refl refl (inl refl)

status_changes_bound_example :
    (rank serving ≤ rank (run_trace documents live marked).status + 2 * marks marked)
    × (status_changes documents live marked + rank serving ≤ 5 + 3 * marks marked)
status_changes_bound_example = status_changes_bound documents live marked

-- A mark takes a serve that serves back to provisioning.
marked_again : (step documents live (mark_provisioning none)).status ≡ provisioning
unfolding step apply_serve_plan serve_command plan_mark_provisioning
marked_again = refl

-- The report that goes backward is refused, and a failure while stopping is a stop.
history_changes :
    (status_changes documents fresh history ≡ 4)
    × ((run_trace documents fresh history).status ≡ stopped)
unfolding status_changes run_trace step apply_serve_plan serve_command plan_serve_stop
    plan_serve_runtime_status_ingestion next_status can_transition_serve_status normalize_machine_id
    trim lit
history_changes = (refl, refl)

stop_completes_example :
    (run_trace documents live (stop false ∷ stopped_after_termination false ∷ [])).status ≡ stopped
stop_completes_example = stop_completes documents live false false refl

run_trace-stopping_example :
    (is_stopping (run_trace documents halting marked).status
      || is_terminal_serve_status (run_trace documents halting marked).status)
    ≡ true
run_trace-stopping_example = run_trace-stopping documents halting marked refl
