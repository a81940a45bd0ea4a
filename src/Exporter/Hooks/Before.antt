-- ===== src/Exporter/Hooks/Before.antt =====
-- exporter/hooks.py: `run_before_lease_hook`, and what it leaves behind on each of its paths.
pub mod Opens
pub mod Outcome
use jumpstarter.Exporter.Events.{
  Steady, Grows, Grows-trans, await-Grows, GrowsAt-refl, request_lease_release-Grows, GrowsAt-trans,
  report_status-Grows,
}
use Prim.Native.String.{◌++◌}
use jumpstarter.Common.{
  ℕ, Bool, true, false, Option, none, some, String, if◌then◌else◌, arith, ◌≡◌, suc,
}
use jumpstarter.Status.{
  offline, before_lease_hook, lease_ready, before_lease_hook_failed, ExporterStatus,
}
use jumpstarter.Exporter.{Exporter, World, OnFailure, HookInstance, HookConfig, await, stop}
use jumpstarter.Exporter.Reports.{report_status}
use jumpstarter.Exporter.Release.{request_lease_release}
use jumpstarter.Exporter.Hooks.{
  HookResult, completed, hook_error, unexpected, before_lease, Processes, execute_hook,
  should_shutdown_exporter, skip_after, open_drivers, wait_for_lease_ready, ready_polls,
  hook_warning_prefix,
}

abbrev pub ready_message : Option String → String
ready_message none = "Ready for commands"
ready_message (some warning) = hook_warning_prefix ++ "beforeLease hook warning: " ++ warning

-- The `finally` block: the drivers are opened, and the lease is released where the failure ends it.
abbrev pub finish_before : World → ℕ → Bool → Exporter → Exporter
finish_before w i should_release s =
    let s = open_drivers i s in if should_release then request_lease_release w (await w s) else s

-- The `except HookExecutionError` block.
abbrev pub before_failed : World → ℕ → String → OnFailure → Exporter → Exporter
before_failed w i e on_failure s =
    let s = skip_after i s in
    if should_shutdown_exporter on_failure
    then (let s =
          report_status w before_lease_hook_failed
            ("beforeLease hook failed (on_failure=exit, shutting down): " ++ e) s in
        let s =
          report_status w offline "Exporter shutting down due to beforeLease hook failure" s in
        finish_before w i false (stop true true (some 1) s))
    else finish_before w i true (
        report_status w before_lease_hook_failed
          ("beforeLease hook failed (on_failure=endLease): " ++ e) s)

-- What follows the hook, by its result.
abbrev pub after_before_hook : World → ℕ → HookResult → Exporter → Exporter
after_before_hook w i (completed warning) s =
    if (s.leases i).lease_ended
    then finish_before w i false s
    else finish_before w i false (report_status w lease_ready (ready_message warning) s)
after_before_hook w i (hook_error e on_failure) s = before_failed w i e on_failure s
after_before_hook w i (unexpected e) s =
    finish_before w i false
      (report_status w before_lease_hook_failed ("beforeLease hook failed: " ++ e) s)

-- From the wait for the session on; the hook runs while the other tasks do.
abbrev pub run_before_configured : World → Processes → ℕ → Option HookInstance → Exporter → Exporter
run_before_configured w processes i none s =
    finish_before w i false (report_status w lease_ready "Ready for commands" s)
run_before_configured w processes i (some hook) s =
    if (s.leases i).lease_ended
    then finish_before w i false (skip_after i s)
    else (let s = report_status w before_lease_hook "Running beforeLease hook" s in
        after_before_hook w i (execute_hook processes before_lease hook i s) (await w s))

unfoldable pub run_before_lease_hook : World → Processes → HookConfig → ℕ → Exporter → Exporter
run_before_lease_hook w processes config i s =
    let (s, ready) = wait_for_lease_ready w i ready_polls s in
    if ready
    then run_before_configured w processes i config.before_lease s
    else finish_before w i false s
