-- ===== src/Run/Reports.antt =====
-- The ingestion of a reported status: what the endpoint answers and which status is written.
use tahuna_oss.Common.{◌≡◌, Option, none, some, arith, change_required, if◌then◌else◌}
use tahuna_oss.Run.Types.{RunStatus, is_terminal_run_status, RunState, RunPatch}
use tahuna_oss.Run.Ingestion.{effective_status, IngestionArgs, plan_runtime_status_ingestion}

abbrev pub written_status : Option RunPatch → RunStatus → RunStatus
written_status none old = old
written_status (some p) old = change_required p.status old

-- The endpoint answers the status that the run has afterwards: its own where it had ended, and else
-- the reported one after the two corrections.
pub plan_runtime_status_ingestion-result :
    (run : RunState) (a : IngestionArgs)
    → let r = plan_runtime_status_ingestion run a in
      (r.result_status ≡ written_status r.plan.patch run.status)
      × (r.result_status ≡ (
          if is_terminal_run_status run.status then run.status else effective_status run a.status))
unfolding plan_runtime_status_ingestion
plan_runtime_status_ingestion-result run a = ground arith
