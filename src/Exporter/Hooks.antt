-- ===== src/Exporter/Hooks.antt =====
-- exporter/hooks.py: what an exporter does around the beforeLease and the afterLease hook. The
-- hook's process is a parameter; the messages are the source's, the motd file is not modelled.
pub mod Before
pub mod After
use Prim.Native.Char.{code}
use Prim.Native.String
use jumpstarter.Common.{
  ℕ, zero, suc, Bool, true, false, not, ◌&&◌, ◌||◌, Option, none, some, ◌==◌, leb, str_eq, String,
  if◌then◌else◌, is_some, is_space,
}
use jumpstarter.Status.{
  ExporterStatus, offline, available, before_lease_hook, lease_ready, after_lease_hook,
  before_lease_hook_failed, after_lease_hook_failed,
}
use jumpstarter.Lease.{LeaseContext, is_ready}
use jumpstarter.Exporter.{
  Exporter, World, OnFailure, warn, end_lease, exit_exporter, HookInstance, HookConfig,
  change_lease, await, stop,
}
use jumpstarter.Exporter.Reports.{report_status}
use jumpstarter.Exporter.Release.{request_lease_release}

-- HOOK_WARNING_PREFIX
abbrev pub hook_warning_prefix : String
hook_warning_prefix = "[HOOK_WARNING] "

pub data HookType : Type 0 where
  before_lease after_lease : HookType

-- What the process of a hook comes to: it exits with 0; it fails or times out, with the message
-- that the executor makes of it; or the PTY cannot be opened, which is raised.
pub data ProcessOutcome : Type 0 where
  clean : ProcessOutcome
  failed : String → ProcessOutcome
  no_pty : String → ProcessOutcome

-- The return of `_execute_hook` with its warning, a `HookExecutionError`, or another exception.
pub data HookResult : Type 0 where
  completed : Option String → HookResult
  hook_error : String → OnFailure → HookResult
  unexpected : String → HookResult

-- `HookExecutionError.should_shutdown_exporter`
unfoldable pub should_shutdown_exporter : OnFailure → Bool
should_shutdown_exporter exit_exporter = true
should_shutdown_exporter _ = false

-- `_handle_hook_failure`
unfoldable pub handle_hook_failure : String → OnFailure → HookResult
handle_hook_failure error_msg warn = completed (some error_msg)
handle_hook_failure error_msg end_lease = hook_error error_msg end_lease
handle_hook_failure error_msg exit_exporter = hook_error error_msg exit_exporter

-- `not command or not command.strip()`
is_blank : String → Bool
is_blank String.[] = true
is_blank (String.◌∷◌ c s) = is_space (code c) && is_blank s

abbrev pub process_result : ProcessOutcome → OnFailure → HookResult
unfolding handle_hook_failure
process_result clean on_failure = completed none
process_result (failed error_msg) on_failure = handle_hook_failure error_msg on_failure
process_result (no_pty e) on_failure = unexpected e

abbrev pub session_result : Bool → HookResult → HookResult
session_result true result = result
session_result false result = unexpected "Cannot execute hook: lease_scope.session is None"

-- The hooks' processes: what one comes to when it is started in a state.
abbrev pub Processes : Type 0
Processes = HookType → HookInstance → Exporter → ProcessOutcome

-- The result of `_execute_hook` started in a state, for the lease at `i`.
unfoldable pub execute_hook : Processes → HookType → HookInstance → ℕ → Exporter → HookResult
unfolding is_blank handle_hook_failure
execute_hook processes type hook i s =
    if is_blank hook.script
    then completed none
    else session_result (is_some (s.leases i).session)
        (process_result (processes type hook s) hook.on_failure)

abbrev pub skip_after : ℕ → Exporter → Exporter
skip_after i = change_lease i (λ l. record l { skip_after_lease_hook = true })

abbrev pub open_drivers : ℕ → Exporter → Exporter
open_drivers i = change_lease i (λ l. record l { before_lease_hook = true })

-- `_wait_for_lease_ready`, polled every 0.1 s: `elapsed`, a float that grows by 0.1, is at least 30
-- after 300 polls.
abbrev pub ready_polls : ℕ
ready_polls = 300

unfoldable pub wait_for_lease_ready : World → ℕ → ℕ → Exporter → Exporter × Bool
wait_for_lease_ready w i zero s =
    if is_ready (s.leases i)
    then (s, true)
    else if (s.leases i).lease_ended
    then (skip_after i s, false)
    else (
      open_drivers i (
          report_status w before_lease_hook_failed "Timeout waiting for lease scope to be ready" s),
      false,
    )
wait_for_lease_ready w i (suc left) s =
    let rest = wait_for_lease_ready w i left (await w s) in
    if is_ready (s.leases i)
    then (s, true)
    else if (s.leases i).lease_ended
    then (skip_after i s, false)
    else rest
