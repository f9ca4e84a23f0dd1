-- ===== src/Run/Timing.antt =====
-- The run times of web/convex/core/runTiming.ts. The results of `Math.floor` and `Math.max` are whole
-- numbers that are not negative, so the differences of the source are those of natural numbers.
use tahuna_oss.Common.{
  ℕ, ◌-◌, max, ◌≡◌, refl, Bool, true, false, ◌&&◌, Option, none, some, [], ap, ◌∙◌, arith,
  if◌then◌else◌, get_or,
}
use tahuna_oss.Js.Text.{Text, truthy, or_else}
use tahuna_oss.Js.Number.{Number, of_ℕ, is_finite, floor_finite}

abbrev pub to_unix_millis : Number → ℕ
to_unix_millis value = floor_finite value

abbrev pub to_optional_unix_millis : Option Number → Option ℕ
to_optional_unix_millis none = none
to_optional_unix_millis (some value) = if is_finite value then some (floor_finite value) else none

-- The fields of a run that the two functions read.
pub record TimedRun : Type 0 where
  pub provider_creation_time : Option Number
  pub compute_started_at : Option Number
  pub compute_ended_at : Option Number
  pub status : Option Text

pub record TerminalTiming : Type 0 where
  pub compute_ended_at : Option ℕ
  pub duration_ms : ℕ

-- `first ?? second`
abbrev pub or_number : Option Number → Option Number → Option Number
or_number none second = second
or_number (some first) second = some first

abbrev uptime_from : Option ℕ → Option ℕ → Bool → ℕ → ℕ
uptime_from none ended is_over now_ms = 0
uptime_from (some started) none true now_ms = 0
uptime_from (some started) none false now_ms = max started now_ms - started
uptime_from (some started) (some ended) is_over now_ms = ended - started

unfoldable pub resolve_run_uptime_ms : TimedRun → (Text → Bool) → Number → ℕ
resolve_run_uptime_ms run is_terminal now_ms =
    uptime_from (to_optional_unix_millis run.compute_started_at)
      (to_optional_unix_millis run.compute_ended_at)
      (truthy run.status && is_terminal (or_else run.status [])) (to_unix_millis now_ms)

abbrev timing_from : Option ℕ → Option ℕ → ℕ → TerminalTiming
timing_from none ended now_ms = record { compute_ended_at = ended; duration_ms = 0 }
timing_from (some started) ended now_ms =
    let ended_at = get_or ended (max started now_ms) in
    record { compute_ended_at = some ended_at; duration_ms = ended_at - started }

unfoldable pub resolve_terminal_run_timing : TimedRun → Number → TerminalTiming
resolve_terminal_run_timing run now_ms =
    timing_from
      (to_optional_unix_millis (or_number run.provider_creation_time run.compute_started_at))
      (to_optional_unix_millis run.compute_ended_at) (to_unix_millis now_ms)

abbrev number_of : Option ℕ → Option Number
number_of none = none
number_of (some n) = some (of_ℕ n)

-- The run after the end of its timing is written to it.
abbrev pub settled : TimedRun → Number → TimedRun
settled run now_ms = record run {
  compute_ended_at = number_of (resolve_terminal_run_timing run now_ms).compute_ended_at;
}

millis_of_number : (o : Option ℕ) → to_optional_unix_millis (number_of o) ≡ o
millis_of_number none = refl
millis_of_number (some n) = ap some (omega arith)

timing_again :
    (started ended : Option ℕ) (now later : ℕ)
    → timing_from started (timing_from started ended now).compute_ended_at later
      ≡ timing_from started ended now
timing_again none ended now later = refl
timing_again (some s) ended now later = refl

uptime_again :
    (started ended : Option ℕ) (now later : ℕ) (is_over : Bool)
    → uptime_from started (timing_from started ended now).compute_ended_at is_over later
      ≡ (timing_from started ended now).duration_ms
uptime_again none ended now later is_over = refl
uptime_again (some s) ended now later is_over = refl

-- Once the end of a run's timing is written, the timing is settled: computed again at any other
-- time, it is the same.
pub resolve_terminal_run_timing_again :
    (run : TimedRun) (now later : Number)
    → resolve_terminal_run_timing (settled run now) later ≡ resolve_terminal_run_timing run now
unfolding resolve_terminal_run_timing
resolve_terminal_run_timing_again run now later =
    let started =
      to_optional_unix_millis (or_number run.provider_creation_time run.compute_started_at) in
    let ended = to_optional_unix_millis run.compute_ended_at in
    ap (λ o. timing_from started o (to_unix_millis later))
      (millis_of_number (timing_from started ended (to_unix_millis now)).compute_ended_at)
    ∙ timing_again started ended (to_unix_millis now) (to_unix_millis later)

-- The duration that a run is settled for is the uptime that is shown for it from then on, at any
-- time and with any status, where the provider gave no creation time.
pub resolve_run_uptime_ms-settled :
    (run : TimedRun) (now later : Number) (is_terminal : Text → Bool)
    → run.provider_creation_time ≡ none
    → resolve_run_uptime_ms (settled run now) is_terminal later
      ≡ (resolve_terminal_run_timing run now).duration_ms
unfolding resolve_terminal_run_timing resolve_run_uptime_ms
resolve_run_uptime_ms-settled run now later is_terminal h =
    let started = to_optional_unix_millis run.compute_started_at in
    let ended = to_optional_unix_millis run.compute_ended_at in
    let is_over = truthy run.status && is_terminal (or_else run.status []) in
    rw h (
      ap (λ o. uptime_from started o is_over (to_unix_millis later))
        (millis_of_number (timing_from started ended (to_unix_millis now)).compute_ended_at)
      ∙ uptime_again started ended (to_unix_millis now) (to_unix_millis later) is_over)
