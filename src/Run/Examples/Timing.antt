-- ===== src/Run/Examples/Timing.antt =====
-- Tests of the run times, after web/convex/core/runTiming.test.ts, and the theorems at a concrete
-- run.
use tahuna_oss.Common.{Bool, ◌≡◌, refl, none, some}
use tahuna_oss.Js.Text.{Text, lit, text_eq}
use tahuna_oss.Js.Number.{of_ℕ, finite}
use tahuna_oss.Run.Timing.{
  TimedRun, settled, resolve_terminal_run_timing, resolve_run_uptime_ms,
  resolve_run_uptime_ms-settled,
}

abbrev timed : TimedRun
timed = record {
  provider_creation_time = none;
  compute_started_at = some (finite 10009 9);
  compute_ended_at = none;
  status = some (lit "completed");
}

abbrev is_completed_text : Text → Bool
is_completed_text t = text_eq t (lit "completed")

timed_run :
    ((resolve_terminal_run_timing timed (of_ℕ 5000)).duration_ms ≡ 4000)
    × (resolve_run_uptime_ms timed is_completed_text (of_ℕ 5000) ≡ 0)
unfolding resolve_terminal_run_timing resolve_run_uptime_ms text_eq lit
timed_run = (refl, refl)

resolve_run_uptime_ms-settled_example :
    resolve_run_uptime_ms (settled timed (of_ℕ 5000)) is_completed_text (of_ℕ 9000)
    ≡ (resolve_terminal_run_timing timed (of_ℕ 5000)).duration_ms
resolve_run_uptime_ms-settled_example =
    resolve_run_uptime_ms-settled timed (of_ℕ 5000) (of_ℕ 9000) is_completed_text refl
