-- ===== src/Exporter/Hooks/After/Outcome.antt =====
-- What `run_after_lease_hook` reports and decides, by the result of the hook.
use jumpstarter.Lease.{is_ready}
use jumpstarter.Exporter.Keeps.{Keeps, await-Kept}
use jumpstarter.Exporter.Release.Outcome.{request_lease_release-ended}
use jumpstarter.Exporter.Hooks.After.{
  after_after_hook, finish_after, available_message, run_after_lease_hook,
}
use jumpstarter.Status.{
  ExporterStatus, available, offline, after_lease_hook_failed, after_lease_hook,
}
use jumpstarter.Exporter.{
  World, Exporter, stop, exit_exporter, end_lease, await, warn, HookConfig, HookInstance,
  StatusRequest,
}
use jumpstarter.Exporter.Hooks.{
  HookResult, hook_error, should_shutdown_exporter, completed, unexpected, Processes, execute_hook,
  after_lease,
}
use Prim.Native.String.{◌++◌}
use jumpstarter.Common.{
  refl, ℕ, ◌≡◌, Bool, true, false, some, arith, str_eq, Bool-cases, inl, ◌∙◌, inr, ap,
}
use jumpstarter.Lease
use jumpstarter.Exporter.Reports.{report_status}

-- The failure of the hook that shuts the exporter down.
abbrev pub exits : HookResult → Bool
exits (hook_error e exit_exporter) = true
exits _ = false

-- The state in which the `finally` block is entered, by the result of the hook.
abbrev pub concluded_status : HookResult → ExporterStatus
concluded_status (completed warning) = available
concluded_status (hook_error e exit_exporter) = offline
concluded_status _ = after_lease_hook_failed

-- The last report of an exporter that a hook shuts down.
abbrev pub offline_request : StatusRequest
offline_request = record {
  status = offline;
  message = "Exporter shutting down due to afterLease hook failure";
  release_lease = false;
}

module _ (w : World) where
  -- The state that is left for the `finally` block.
  abbrev reported : HookResult → Exporter → Exporter
  reported (completed warning) v = report_status w available (available_message warning) v
  reported (hook_error e exit_exporter) v = stop true true (some 1) (
      report_status w offline "Exporter shutting down due to afterLease hook failure" (
        report_status w after_lease_hook_failed
          ("afterLease hook failed (on_failure=exit, shutting down): " ++ e) v))
  reported (hook_error e mode) v =
      report_status w after_lease_hook_failed
        ("afterLease hook failed (on_failure=endLease): " ++ e) v
  reported (unexpected e) v =
      report_status w after_lease_hook_failed ("afterLease hook failed: " ++ e) v

  after_after_hook-reported :
      (r : HookResult) (v : Exporter)
      → after_after_hook w r v ≡ finish_after w (exits r) (reported r v)
  unfolding should_shutdown_exporter
  after_after_hook-reported (completed warning) v = refl
  after_after_hook-reported (hook_error e exit_exporter) v = refl
  after_after_hook-reported (hook_error e end_lease) v = refl
  after_after_hook-reported (hook_error e warn) v = refl
  after_after_hook-reported (unexpected e) v = refl

  -- What the state for the `finally` block shows of the state in which the hook ended.
  record Reported (r : HookResult) (v u : Exporter) : Type 0 where
    status : u.status ≡ concluded_status r
    calls : u.rpcs ≡ v.rpcs
    slot : u.lease_context ≡ v.lease_context
    alone : u.standalone ≡ v.standalone
    drain : u.status_drain_active ≡ v.status_drain_active
    support : u.release_lease_unsupported ≡ v.release_lease_unsupported
    names : (j : ℕ) → (u.leases j).lease_name ≡ (v.leases j).lease_name
    stops : exits r ≡ true → (u.exit_code ≡ some 1) × (v.started ≡ true → u.stop_requested ≡ true)
    told :
        exits r ≡ true
        → (u.pending_status_request ≡ some offline_request) × (u.status_rpc_event ≡ true)

  reported_lem :
      (r : HookResult) (v : Exporter)
      → v.standalone ≡ false
      → v.status_drain_active ≡ true
      → Reported r v (reported r v)
  unfolding report_status Lease.update_status stop
  reported_lem (completed warning) v alone drain = ground arith
  reported_lem (hook_error e exit_exporter) v alone drain = ground arith
  reported_lem (hook_error e end_lease) v alone drain = ground arith
  reported_lem (hook_error e warn) v alone drain = ground arith
  reported_lem (unexpected e) v alone drain = ground arith

-- From the state `v` in which the hook ended to the state `t`, by whether it shuts the exporter down.
-- With no release, the method is over after one more wait, up to which no call is made.
abbrev pub AfterOutcome : World → ℕ → Bool → Exporter → Exporter → Type 0
AfterOutcome w i true v t =
    (u : Exporter) × (t ≡ await w u)
    × (u.rpcs ≡ v.rpcs)
    × (u.pending_status_request ≡ some offline_request)
    × (u.status_rpc_event ≡ true)
    × (t.exit_code ≡ some 1)
    × (t.stop_requested ≡ true)
AfterOutcome w i false v t = (t.lease_context ≡ some i) × ((t.leases i).lease_ended ≡ true)

module _ (w : World) (k : Keeps w) (i : ℕ) where
  finished_lem :
      (r : HookResult) (v u : Exporter)
      → Reported w r v u
      → v.started ≡ true
      → v.standalone ≡ false
      → v.status_drain_active ≡ true
      → v.lease_context ≡ some i
      → str_eq (v.leases i).lease_name "" ≡ false
      → AfterOutcome w i (exits r) v (finish_after w (exits r) u)
  finished_lem r v u d begun alone drain slot named =
      let a = await-Kept w k u in
      elim (Bool-cases (exits r)) [
        | inl out ↦ rw out (
          u,
          refl,
          d.calls,
          (d.told out).0,
          (d.told out).1,
          a.exit ∙ (d.stops out).0,
          a.stopping ((d.stops out).1 begun),
        )
        | inr stays ↦ rw stays (
            request_lease_release-ended w k (await w u) i (a.slot ∙ d.slot ∙ slot)
              (ap (λ n. str_eq n "") (a.names i ∙ d.names i) ∙ named) (a.alone ∙ d.alone ∙ alone)
              (a.drain ∙ d.drain ∙ drain))
      ]

  run_after_ran :
      (processes : Processes) (config : HookConfig) (hook : HookInstance) (s : Exporter)
      → is_ready (s.leases i) ≡ true
      → config.after_lease ≡ some hook
      → run_after_lease_hook w processes config i s ≡ (
          let u = report_status w after_lease_hook "Running afterLease hooks" s in
          after_after_hook w (execute_hook processes after_lease hook i u) (await w u))
  unfolding run_after_lease_hook
  run_after_ran processes config hook s ready hooked = rw (ready, hooked)

  -- When the session is there and an afterLease hook is configured, the hook runs, and by its
  -- result, in the state in which it ended (with the lease, which has a name, in the slot of an
  -- exporter that drains its statuses to a controller, and with other tasks that leave the slot,
  -- the serving of statuses, the names, the exit code and a requested stop as they are, and may make
  -- calls): after a failure that exits, the method makes no call and asks for no release, the report
  -- of OFFLINE is left to be sent in its one last wait, and the exporter is marked for a stop with
  -- exit code 1; after any other result the lease has ended and is still in the slot.
  pub run_after_lease_hook-result :
      (processes : Processes) (config : HookConfig) (hook : HookInstance) (s : Exporter)
      → let u = report_status w after_lease_hook "Running afterLease hooks" s in
        let v = await w u in
        is_ready (s.leases i) ≡ true
        → config.after_lease ≡ some hook
        → v.started ≡ true
        → v.standalone ≡ false
        → v.status_drain_active ≡ true
        → v.lease_context ≡ some i
        → str_eq (v.leases i).lease_name "" ≡ false
        → AfterOutcome w i
            (exits (execute_hook processes after_lease hook i u))
            v
            (run_after_lease_hook w processes config i s)
  run_after_lease_hook-result processes config hook s ready hooked begun alone drain slot named =
      let u = report_status w after_lease_hook "Running afterLease hooks" s in
      let v = await w u in
      let r = execute_hook processes after_lease hook i u in
      rw (run_after_ran processes config hook s ready hooked, after_after_hook-reported w r v)
        (finished_lem r v (reported w r v) (reported_lem w r v alone drain) begun alone drain slot
          named)
