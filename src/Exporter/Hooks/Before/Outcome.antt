-- ===== src/Exporter/Hooks/Before/Outcome.antt =====
-- What `run_before_lease_hook` reports and decides, by the result of the hook.
use jumpstarter.Status.{lease_ready, offline, before_lease_hook_failed, before_lease_hook}
use jumpstarter.Exporter.Events.{Steady, GrowsAt-refl}
use jumpstarter.Exporter.Hooks.{
  HookResult, completed, hook_error, unexpected, wait_for_lease_ready, should_shutdown_exporter,
  Processes, skip_after, execute_hook, ready_polls, before_lease,
}
use jumpstarter.Lease.{is_ready}
use jumpstarter.Exporter.Hooks.Before.Opens.{reported-Opened}
use jumpstarter.Exporter.{
  exit_exporter, stop, HookConfig, HookInstance, await, World, Exporter, warn,
}
use Prim.Native.String.{◌++◌, String}
use jumpstarter.Lease
use jumpstarter.Common.{ℕ, ◌≡◌, true, false, some, arith, suc, zero, if_false, if◌then◌else◌}
use jumpstarter.Exporter.{end_lease}
use jumpstarter.Exporter.Reports.{request_for, report_status}
use jumpstarter.Exporter.Hooks.Before.{
  run_before_lease_hook, ready_message, finish_before, after_before_hook,
}

-- From the state `v` in which a hook with a result ended to the state `t`.
abbrev pub BeforeOutcome : ℕ → HookResult → Exporter → Exporter → Type 0
BeforeOutcome i (completed warning) v t =
    (t.status ≡ (if (v.leases i).lease_ended then v.status else lease_ready))
    × (t.pending_status_request ≡ (
        if (v.leases i).lease_ended
        then v.pending_status_request
        else some (request_for lease_ready (ready_message warning))))
    × ((t.leases i).skip_after_lease_hook ≡ (v.leases i).skip_after_lease_hook)
    × (t.rpcs ≡ v.rpcs)
BeforeOutcome i (hook_error e exit_exporter) v t =
    (t.status ≡ offline)
    × ((t.leases i).skip_after_lease_hook ≡ true)
    × (t.stop_requested ≡ true)
    × (t.exit_code ≡ some 1)
    × (t.cancelled ≡ v.cancelled)
    × (t.rpcs ≡ v.rpcs)
BeforeOutcome i (hook_error e mode) v t = (t.leases i).skip_after_lease_hook ≡ true
BeforeOutcome i (unexpected e) v t =
    (t.status ≡ before_lease_hook_failed)
    × ((t.leases i).skip_after_lease_hook ≡ (v.leases i).skip_after_lease_hook)
    × (t.stop_requested ≡ v.stop_requested)
    × (t.rpcs ≡ v.rpcs)

wait_ready :
    (w : World) (i left : ℕ) (s : Exporter)
    → is_ready (s.leases i) ≡ true
    → wait_for_lease_ready w i left s ≡ (s, true)
unfolding wait_for_lease_ready
wait_ready w i zero s h = rw h
wait_ready w i (suc left) s h = rw h

run_before_ran :
    (w : World) (i : ℕ) (processes : Processes) (config : HookConfig) (hook : HookInstance)
    (s : Exporter)
    → is_ready (s.leases i) ≡ true
    → config.before_lease ≡ some hook
    → (s.leases i).lease_ended ≡ false
    → run_before_lease_hook w processes config i s ≡ (
        let u = report_status w before_lease_hook "Running beforeLease hook" s in
        after_before_hook w i (execute_hook processes before_lease hook i u) (await w u))
unfolding run_before_lease_hook
run_before_ran w i processes config hook s ready hooked live =
    rw (wait_ready w i ready_polls s ready, hooked) (if_false _ _ live)

module _ (w : World) (steady : Steady w) (i : ℕ) where
  ended_skips :
      (e : String) (v : Exporter)
      → ((finish_before w i true (
            report_status w before_lease_hook_failed
              ("beforeLease hook failed (on_failure=endLease): " ++ e)
              (skip_after i v))).leases
          i).skip_after_lease_hook
        ≡ true
  ended_skips e v =
      ((reported-Opened w steady i true before_lease_hook_failed
            ("beforeLease hook failed (on_failure=endLease): " ++ e) (skip_after i v)
            (skip_after i v) (λ j. GrowsAt-refl ((skip_after i v).leases j))).grows
          i).skipped
        (ground arith)

  after_before_hook_lem :
      (r : HookResult) (v : Exporter)
      → v.started ≡ true
      → v.standalone ≡ false
      → v.status_drain_active ≡ true
      → BeforeOutcome i r v (after_before_hook w i r v)
  unfolding report_status Lease.update_status stop should_shutdown_exporter
  after_before_hook_lem (completed warning) v begun alone drain = ground arith
  after_before_hook_lem (hook_error e exit_exporter) v begun alone drain = ground arith
  after_before_hook_lem (hook_error e end_lease) v begun alone drain = ended_skips e v
  after_before_hook_lem (hook_error e warn) v begun alone drain = ended_skips e v
  after_before_hook_lem (unexpected e) v begun alone drain = ground arith

  -- When the session is there, a beforeLease hook is configured, the lease has not ended and
  -- statuses are drained in the background: the hook runs under the status BEFORE_LEASE_HOOK.
  -- If it ends with a lease begun, and statuses still drained to a controller, then by its result:
  -- with no failure LEASE_READY is reported, unless the lease has ended meanwhile;
  -- a failure that exits skips the afterLease hook, reports OFFLINE, and leaves the exporter
  -- marked for a stop with exit code 1, nothing cancelled yet;
  -- a failure that ends the lease skips the afterLease hook;
  -- any other exception reports BEFORE_LEASE_HOOK_FAILED and stops nothing.
  -- But for the failure that ends the lease, no call is made of the controller.
  pub run_before_lease_hook-result :
      (processes : Processes) (config : HookConfig) (hook : HookInstance) (s : Exporter)
      → let u = report_status w before_lease_hook "Running beforeLease hook" s in
        is_ready (s.leases i) ≡ true
        → config.before_lease ≡ some hook
        → (s.leases i).lease_ended ≡ false
        → s.status_drain_active ≡ true
        → (await w u).started ≡ true
        → (await w u).standalone ≡ false
        → (await w u).status_drain_active ≡ true
        → (u.status ≡ before_lease_hook)
          × BeforeOutcome i
              (execute_hook processes before_lease hook i u)
              (await w u)
              (run_before_lease_hook w processes config i s)
  run_before_lease_hook-result processes config hook s ready hooked live drains begun alone drain =
      let u = report_status w before_lease_hook "Running beforeLease hook" s in
      (
        unfold report_status in ground arith,
        rw (run_before_ran w i processes config hook s ready hooked live) (
            after_before_hook_lem (execute_hook processes before_lease hook i u) (await w u) begun
              alone drain),
      )
