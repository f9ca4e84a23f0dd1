-- ===== src/Run/Deletion.antt =====
-- The deletion of a run, `planRunDeletion` of web/convex/core/runLifecyclePlan.ts.
use tahuna_oss.Common.{◌≡◌, ◌⊎◌, Bool, true, false, ◌&&◌, ◌||◌, not, none, arith, is_some}
use tahuna_oss.Run.Types.{is_active_run_status, RunState, no_plan}
use tahuna_oss.Run.Plan.{plan_run_deletion, termination_unless_session}

-- The data of a run are deleted exactly when the run is not active, or when its cancellation is
-- allowed and forced; then the plan asks for the termination of a machine of the run's own, and
-- otherwise it changes nothing, and says either that the run is active or that it must be cancelled
-- first.
pub plan_run_deletion_cases :
    (run : RunState) (cancel_active force : Bool)
    → let d = plan_run_deletion run cancel_active force in
      (d.delete_run_data ≡ (not (is_active_run_status run.status) || cancel_active && force))
      × (((d.delete_run_data ≡ true)
            × (d.plan.jobs ≡ termination_unless_session run)
            × (d.error ≡ none)
            × (d.cancel_before_delete ≡ false))
          ⊎ ((d.delete_run_data ≡ false)
              × (d.plan ≡ no_plan)
              × (is_some d.error ≡ not d.cancel_before_delete)))
unfolding plan_run_deletion
plan_run_deletion_cases run cancel_active force = ground arith
