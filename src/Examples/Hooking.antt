-- ===== src/Examples/Hooking.antt =====
-- The hooks and the end of a lease at concrete inputs.
use jumpstarter.Exporter.Hooks.After.{run_after_lease_hook}
use jumpstarter.Exporter.Hooks.Before.Outcome.{BeforeOutcome, run_before_lease_hook-result}
use jumpstarter.Exporter.Hooks.After.Outcome.{AfterOutcome, exits, run_after_lease_hook-result}
use jumpstarter.Status.{after_lease_hook, before_lease_hook}
use jumpstarter.Session.{new_session}
use jumpstarter.Rpc.{success}
use jumpstarter.Exporter.Ending.{cleanup_after_lease}
use jumpstarter.Lease.{LeaseContext, new_lease_context, is_ready}
use jumpstarter.Exporter.Keeps.{Keeps, Kept-refl, draining, draining-Keeps}
use jumpstarter.Exporter.Hooks.Before.Opens.{Opened, run_before_lease_hook-opens}
use jumpstarter.Common.{List, true, ◌≡◌, refl, ◌≤◌, some, false, ◌∷◌, [], ◌++◌}
use jumpstarter.Exporter.Reports.{report_status, send_report_status_rpc}
use jumpstarter.Exporter.{HookConfig, World, Exporter, HookInstance, exit_exporter, await, serving}
use jumpstarter.Exporter.Hooks.{Processes, failed, execute_hook, after_lease, before_lease}
use jumpstarter.Exporter.Events.{Steady, GrowsAt-refl}
use jumpstarter.Exporter.Ending.Claims.{AllKeep, claims, Turn, claims-le-one, other, cleanup}
use jumpstarter.Exporter.Hooks.Before.{run_before_lease_hook}
use jumpstarter.Exporter.Ending.Claims.{end_session}
use jumpstarter.Lease.{update_status}
use jumpstarter.Supervisor.{FailureDetection, Child, exited, serve_with_exc_handling}
use jumpstarter.Supervisor.{child_exit_code}
use jumpstarter.Exporter.{stop, call}
use jumpstarter.Exporter.Hooks.{should_shutdown_exporter}
use jumpstarter.Exporter.Handling.{Course, opens, handle_lease}
use jumpstarter.Exporter.Handling.Ends.{handle_lease-hands_back}
use jumpstarter.Exporter.{lease_finished}
use jumpstarter.Exporter.Ending.{skip_stale_lease, decide_cleanup}
use jumpstarter.Exporter.Handling.{serve_connections}
use jumpstarter.Lease.{has_client}
use jumpstarter.Supervisor.Exits.{hook_failure-exits}

-- A controller that answers, and other tasks that do nothing.
abbrev quiet : World
quiet = record { answer = λ n rpc. success; others = λ n s. s }

quiet-Steady : Steady quiet
quiet-Steady n s j = GrowsAt-refl (s.leases j)

quiet-Keeps : Keeps quiet
quiet-Keeps n s = Kept-refl s

-- The same, with the task that sends the statuses at work in each wait.
abbrev reporting : World
unfolding draining
reporting = draining quiet

reporting-Keeps : Keeps reporting
unfolding reporting draining
reporting-Keeps = draining-Keeps quiet quiet-Keeps

abbrev hook : HookInstance
hook = record { script = "false"; timeout = 120; on_failure = exit_exporter }

abbrev hooks : HookConfig
hooks = record { before_lease = some hook; after_lease = some hook }

-- Every process fails, or none does.
abbrev failing : Processes
failing type instance_ s = failed "exit code 1"

abbrev lease_a : LeaseContext
lease_a = record (new_lease_context "a") {
  session = some new_session;
  socket_path = "/tmp/socket";
  client_name = "client";
}

abbrev hosting : Exporter
hosting = record (serving false (some hooks)) {
  started = true;
  lease_context = some 0;
  leases = λ _. lease_a;
  next_lease = 1;
}

run_before_lease_hook-opens_example :
    Opened 0 hosting (run_before_lease_hook quiet failing hooks 0 hosting)
run_before_lease_hook-opens_example =
    run_before_lease_hook-opens quiet quiet-Steady 0 failing hooks hosting

run_before_lease_hook-result_example :
    let u = report_status quiet before_lease_hook "Running beforeLease hook" hosting in
    (u.status ≡ before_lease_hook)
    × BeforeOutcome 0
        (execute_hook failing before_lease hook 0 u)
        (await quiet u)
        (run_before_lease_hook quiet failing hooks 0 hosting)
unfolding report_status await is_ready update_status
run_before_lease_hook-result_example =
    run_before_lease_hook-result quiet quiet-Steady 0 failing hooks hook hosting refl refl refl refl
      refl refl refl

run_after_lease_hook-result_example :
    let u = report_status reporting after_lease_hook "Running afterLease hooks" hosting in
    AfterOutcome reporting 0
      (exits (execute_hook failing after_lease hook 0 u))
      (await reporting u)
      (run_after_lease_hook reporting failing hooks 0 hosting)
unfolding report_status await is_ready update_status reporting send_report_status_rpc call
run_after_lease_hook-result_example =
    run_after_lease_hook-result reporting reporting-Keeps 0 failing hooks hook hosting refl refl
      refl refl refl refl refl

-- The EndSession handler, a client that is shown, and the cleanup.
abbrev turns : List Turn
turns = end_session ∷ other (λ s. s) ∷ cleanup ∷ []

turns-AllKeep : AllKeep turns
turns-AllKeep = (record {}, (λ s j. GrowsAt-refl (s.leases j), (record {}, record {})))

claims-le-one_example : claims 0 turns hosting ≤ 1
claims-le-one_example = claims-le-one 0 turns hosting turns-AllKeep

-- A lease that is served until its connections end by an exception.
abbrev course : Course
course = record {
  cancelled = false;
  session = opens "/tmp/main" "/tmp/hook";
  reaches_ready = true;
  group_raises = true;
}

handle_lease-hands_back_example :
    let t = (handle_lease quiet failing course 0 hosting).0 in
    (t.lease_context ≡ some 0)
    × (t.inbox ≡ lease_finished 0 ∷ [])
    × ((t.leases 0).before_lease_hook ≡ true)
    × ((t.leases 0).after_lease_hook_done ≡ true)
unfolding handle_lease skip_stale_lease await cleanup_after_lease decide_cleanup serve_connections
    has_client run_after_lease_hook is_ready execute_hook report_status update_status
    should_shutdown_exporter stop
handle_lease-hands_back_example =
    handle_lease-hands_back quiet (λ n s. refl) failing course 0 hosting refl

abbrev detection : FailureDetection
detection = record { max_rapid_failures = 5; rapid_failure_window = 60 }

-- Two children that ended with 0, and the one whose hook fails.
abbrev children : List Child
children =
    record { status = exited 0; elapsed = 90000 }
    ∷ record { status = exited 0; elapsed = 1000 }
    ∷ []

abbrev last_child : Child
last_child = record { status = exited 1; elapsed = 2000 }

hook_failure-exits_example :
    serve_with_exc_handling detection false (children ++ last_child ∷ []) ≡ some 1
unfolding report_status await is_ready update_status execute_hook child_exit_code
    run_after_lease_hook should_shutdown_exporter stop serve_with_exc_handling reporting
    send_report_status_rpc call
hook_failure-exits_example =
    hook_failure-exits reporting reporting-Keeps 0 failing hooks hook hosting refl refl refl refl
      refl refl refl refl detection false children [] last_child refl refl
