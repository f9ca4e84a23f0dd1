-- ===== src/Session/Endings.antt =====
-- What the plans do to a session that has ended, and what a plan that ends a session writes.
use tahuna_oss.Common.{
  ℕ, ◌≤◌, ◌≡◌, ◌⊎◌, inl, inr, Bool, true, false, ◌&&◌, ◌||◌, not, Option, none, some, arith,
  is_some, get_or, unset, put, put_some, if◌then◌else◌, max, change,
}
use tahuna_oss.Js.Text.{Text, truthy, is_empty, trim}
use tahuna_oss.Js.Number.{of_ℕ}
use tahuna_oss.Session.Types.{
  running, is_terminal_session_status, SessionState, SessionPatch, no_plan, normalize_timestamp,
  terminal_compute_ended_at, normalize_machine_id,
}
use tahuna_oss.Session.Plan.{
  revoked, is_idle, is_terminating, plan_compute_session_failure,
  plan_compute_session_machine_provisioned, plan_compute_session_heartbeat,
  plan_compute_session_serving, plan_compute_session_idle, plan_compute_session_run_assigned,
  plan_compute_session_stop, plan_compute_session_terminated,
}
use tahuna_oss.Session.Command.{
  SessionCommand, machine_provisioned, heartbeat, serving, idle, assign, stop, terminated, fail,
  session_command, ends_session,
}

-- On a session that has ended, every operation does nothing at all.
pub session_command_of_terminal :
    (session : SessionState) (c : SessionCommand)
    → is_terminal_session_status session.status ≡ true
    → session_command session c ≡ no_plan
unfolding session_command
session_command_of_terminal s (machine_provisioned a) h =
    unfold plan_compute_session_machine_provisioned in ground arith
session_command_of_terminal s (heartbeat n) h =
    unfold plan_compute_session_heartbeat in ground arith
session_command_of_terminal s serving h = unfold plan_compute_session_serving in ground arith
session_command_of_terminal s (idle n) h = unfold plan_compute_session_idle in ground arith
session_command_of_terminal s (assign r) h =
    unfold plan_compute_session_run_assigned in ground arith
session_command_of_terminal s (stop f r n) h = unfold plan_compute_session_stop in ground arith
session_command_of_terminal s (terminated n) h =
    unfold plan_compute_session_terminated in ground arith
session_command_of_terminal s (fail e n) h = unfold plan_compute_session_failure in ground arith

-- The current time of an operation that may end a session.
abbrev pub time_of : SessionCommand → ℕ
time_of (machine_provisioned a) = a.now_ms
time_of (stop f r n) = n
time_of (terminated n) = n
time_of (fail e n) = n
time_of _ = 0

-- What is written when a session ends.
abbrev pub ClosesPatch : SessionState → ℕ → Option SessionPatch → Type 0
ClosesPatch session now_ms none = ⊥
ClosesPatch session now_ms (some p) =
    (p.runtime_token_hash ≡ put revoked)
    × (p.active_run_id ≡ unset)
    × (p.terminated_at ≡ put now_ms)
    × (p.compute_ended_at ≡ put_some (terminal_compute_ended_at session now_ms))

-- Every plan that ends a session revokes its token, lets go of its active run, and writes the time of
-- the end and, where the session used compute, the end of that.
pub session_command_closes :
    (session : SessionState) (c : SessionCommand)
    → ends_session (session_command session c) ≡ true
    → ClosesPatch session (time_of c) (session_command session c).patch
unfolding session_command
session_command_closes s (machine_provisioned a) h =
    unfold plan_compute_session_machine_provisioned in ground arith
session_command_closes s (heartbeat n) h = unfold plan_compute_session_heartbeat in ground arith
session_command_closes s serving h = unfold plan_compute_session_serving in ground arith
session_command_closes s (idle n) h = unfold plan_compute_session_idle in ground arith
session_command_closes s (assign r) h = unfold plan_compute_session_run_assigned in ground arith
session_command_closes s (stop f r n) h = unfold plan_compute_session_stop in ground arith
session_command_closes s (terminated n) h = unfold plan_compute_session_terminated in ground arith
session_command_closes s (fail e n) h = unfold plan_compute_session_failure in ground arith

ended_at_cases :
    (session : SessionState) (now_ms : ℕ)
    → let e = terminal_compute_ended_at session now_ms in
      let used =
        is_some (normalize_timestamp session.compute_started_at)
        || truthy session.provider_machine_id in
      ((used ≡ false) × (e ≡ none))
      ⊎ ((used ≡ true) × (is_some session.compute_ended_at ≡ true) × (e ≡ session.compute_ended_at))
      ⊎ ((used ≡ true)
          × (session.compute_ended_at ≡ none)
          × (e
              ≡ some
                  (of_ℕ (max (get_or (normalize_timestamp session.compute_started_at) 0) now_ms))))
unfolding terminal_compute_ended_at
ended_at_cases session now_ms = ground arith

-- The interval that a session is billed for: an end is written exactly when the session has a
-- start or a machine; an end that was recorded before stays; and a new one is a whole time that is
-- not before the start and not before now.
pub terminal_compute_ended_at_lem :
    (session : SessionState) (now_ms : ℕ)
    → let e = terminal_compute_ended_at session now_ms in
      let used =
        is_some (normalize_timestamp session.compute_started_at)
        || truthy session.provider_machine_id in
      ((used ≡ false) × (e ≡ none))
      ⊎ ((used ≡ true) × (is_some session.compute_ended_at ≡ true) × (e ≡ session.compute_ended_at))
      ⊎ ((used ≡ true)
          × (session.compute_ended_at ≡ none)
          × ((t : ℕ) × (e ≡ some (of_ℕ t))
              × (now_ms ≤ t)
              × (get_or (normalize_timestamp session.compute_started_at) 0 ≤ t)))
terminal_compute_ended_at_lem session now_ms = elim (ended_at_cases session now_ms) [
  | inl h ↦ inl h
  | inr (inl h) ↦ inr (inl h)
  | inr (inr (u, n, e)) ↦ inr (
      inr (
        u,
        n,
        (
          max (get_or (normalize_timestamp session.compute_started_at) 0) now_ms,
          e,
          omega arith,
          omega arith,
        ),
      ))
]

-- The patch that makes a session run the run of this id.
abbrev pub Assigns : Text → Option SessionPatch → Type 0
Assigns run_id none = ⊥
Assigns run_id (some p) = (p.status ≡ put running) × (p.active_run_id ≡ put run_id)

abbrev pub since_after : Option SessionPatch → SessionState → Option ℕ
since_after none session = session.terminating_since
since_after (some p) session = change p.terminating_since session.terminating_since

-- A run is assigned exactly when the session is idle, has no active run and is given an id that is
-- not blank; then the session is running with the trimmed id, and else nothing is planned and the
-- plan says why.
pub plan_compute_session_run_assigned_cases :
    (session : SessionState) (run_id : Text)
    → let r = plan_compute_session_run_assigned session run_id in
      let fits =
        is_idle session.status
        && not (truthy session.active_run_id)
        && not (is_empty (trim run_id)) in
      ((fits ≡ true) × (r.error ≡ none) × Assigns (trim run_id) r.plan.patch)
      ⊎ ((fits ≡ false) × (is_some r.error ≡ true) × (r.plan ≡ no_plan))
unfolding plan_compute_session_run_assigned
plan_compute_session_run_assigned_cases session run_id = ground arith

-- A stop is refused exactly where the session has ended. One of a live session that has a machine
-- writes the time since when it is terminating only the first time, so a repeated stop does not put
-- off the termination timeout; and exactly one of a live session without a machine ends it at once.
pub plan_compute_session_stop_cases :
    (session : SessionState) (force : Bool) (reason : Option Text) (now_ms : ℕ)
    → let r = plan_compute_session_stop session force reason now_ms in
      (is_some r.error ≡ is_terminal_session_status session.status)
      × (ends_session r.plan ≡ (
          not (is_terminal_session_status session.status)
          && is_empty (normalize_machine_id session.provider_machine_id)))
      × (since_after r.plan.patch session ≡ (
          if not (is_terminal_session_status session.status)
            && not (is_empty (normalize_machine_id session.provider_machine_id))
            && not (is_terminating session.status)
          then some now_ms
          else session.terminating_since))
unfolding plan_compute_session_stop
plan_compute_session_stop_cases session force reason now_ms = ground arith
