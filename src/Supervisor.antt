-- ===== src/Supervisor.antt =====
-- python/packages/jumpstarter-cli/jumpstarter_cli/run.py: the process that starts an exporter in a
-- child, waits for it and starts it again. `fork`, signals and clocks are the system's, so what
-- becomes of each child is a parameter; times are in milliseconds. The log is not modelled.
pub mod Restarts
pub mod Exits
use jumpstarter.Common.{
  ℕ, ◌+◌, ◌*◌, ◌%◌, Bool, true, false, Option, none, some, List, [], ◌∷◌, ◌==◌, ltb, leb,
  if◌then◌else◌,
}

-- The wait status of a child: it exited with a code, was killed by a signal, is neither, or was
-- reaped elsewhere with no status kept.
pub data WaitStatus : Type 0 where
  exited signaled : ℕ → WaitStatus
  neither unknown : WaitStatus

-- `_handle_parent`, once the child has been waited for: `none` asks for another child
unfoldable pub handle_parent : WaitStatus → Option ℕ
handle_parent (exited code) = if code == 0 then none else some code
handle_parent (signaled n) = some (128 + n)
handle_parent neither = some 128
handle_parent unknown = none

-- The exit code of the child, by `received_signal` (0 for none) and the exporter's exit code.
unfoldable pub child_exit_code : ℕ → Option ℕ → ℕ
child_exit_code received_signal none = if received_signal == 0 then 0 else 128 + received_signal
child_exit_code received_signal (some code) =
    if received_signal == 0 then code else 128 + received_signal

-- `sys.exit` of a number leaves its low byte as the status.
abbrev pub exit_status : ℕ → WaitStatus
exit_status code = exited (code % 256)

-- FailureDetectionConfigV1Alpha1; the window in seconds
pub record FailureDetection : Type 0 where
  pub max_rapid_failures : ℕ
  pub rapid_failure_window : ℕ

-- A child: what became of it, and after how long.
pub record Child : Type 0 where
  pub status : WaitStatus
  pub elapsed : ℕ

abbrev pub is_rapid : FailureDetection → Child → Bool
is_rapid config child = ltb child.elapsed (config.rapid_failure_window * 1000)

-- The loop of `_serve_with_exc_handling` over its children, with `count` rapid failures so far:
-- the exit code, or `none` while the last child of the list has been followed by another.
unfoldable pub serve_from : FailureDetection → Bool → ℕ → List Child → Option ℕ
unfolding handle_parent
serve_from config exit_on_lease_end count [] = none
serve_from config exit_on_lease_end count (child ∷ rest) =
    let after_rapid = serve_from config exit_on_lease_end (count + 1) rest in
    let after_long = serve_from config exit_on_lease_end 0 rest in
    elim (handle_parent child.status) [
      | some code ↦ some code
      | none ↦
          if exit_on_lease_end
          then some 0
          else if is_rapid config child
          then (if leb config.max_rapid_failures (count + 1) then some 1 else after_rapid)
          else after_long
    ]

unfoldable pub serve_with_exc_handling : FailureDetection → Bool → List Child → Option ℕ
unfolding serve_from
serve_with_exc_handling config exit_on_lease_end children =
    serve_from config exit_on_lease_end 0 children
