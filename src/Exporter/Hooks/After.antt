-- ===== src/Exporter/Hooks/After.antt =====
-- exporter/hooks.py: `run_after_lease_hook`, and what it leaves behind on each of its paths.
pub mod Outcome
use Prim.Native.String.{◌++◌}
use jumpstarter.Common.{ℕ, Bool, true, false, Option, none, some, String, if◌then◌else◌}
use jumpstarter.Status.{offline, available, after_lease_hook, after_lease_hook_failed}
use jumpstarter.Lease.{is_ready}
use jumpstarter.Exporter.{Exporter, World, OnFailure, HookInstance, HookConfig, await, stop}
use jumpstarter.Exporter.Reports.{report_status}
use jumpstarter.Exporter.Release.{request_lease_release}
use jumpstarter.Exporter.Hooks.{
  HookResult, completed, hook_error, unexpected, after_lease, Processes, execute_hook,
  should_shutdown_exporter, hook_warning_prefix,
}

abbrev pub available_message : Option String → String
available_message none = "Available for new lease"
available_message (some warning) = hook_warning_prefix ++ "afterLease hook warning: " ++ warning

-- The `finally` block: after a second the lease is released, unless the exporter shuts down.
abbrev pub finish_after : World → Bool → Exporter → Exporter
finish_after w shutdown_called s =
    let s = await w s in if shutdown_called then s else request_lease_release w s

-- The `except HookExecutionError` block.
abbrev pub after_failed : World → String → OnFailure → Exporter → Exporter
after_failed w e on_failure s =
    if should_shutdown_exporter on_failure
    then (let s =
          report_status w after_lease_hook_failed
            ("afterLease hook failed (on_failure=exit, shutting down): " ++ e) s in
        let s = report_status w offline "Exporter shutting down due to afterLease hook failure" s in
        finish_after w true (stop true true (some 1) s))
    else finish_after w false (
        report_status w after_lease_hook_failed
          ("afterLease hook failed (on_failure=endLease): " ++ e) s)

abbrev pub after_after_hook : World → HookResult → Exporter → Exporter
after_after_hook w (completed warning) s =
    finish_after w false (report_status w available (available_message warning) s)
after_after_hook w (hook_error e on_failure) s = after_failed w e on_failure s
after_after_hook w (unexpected e) s =
    finish_after w false
      (report_status w after_lease_hook_failed ("afterLease hook failed: " ++ e) s)

abbrev pub run_after_configured : World → Processes → ℕ → Option HookInstance → Exporter → Exporter
run_after_configured w processes i none s =
    finish_after w false (report_status w available "Available for new lease" s)
run_after_configured w processes i (some hook) s =
    let s = report_status w after_lease_hook "Running afterLease hooks" s in
    after_after_hook w (execute_hook processes after_lease hook i s) (await w s)

unfoldable pub run_after_lease_hook : World → Processes → HookConfig → ℕ → Exporter → Exporter
run_after_lease_hook w processes config i s =
    if is_ready (s.leases i)
    then run_after_configured w processes i config.after_lease s
    else finish_after w false (report_status w available "Available for new lease" s)
