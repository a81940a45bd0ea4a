-- ===== src/Exporter/Hooks/Before/Opens.antt =====
-- Every path of `run_before_lease_hook` opens the drivers.
use jumpstarter.Exporter.Release.{request_lease_release}
use jumpstarter.Status.{ExporterStatus, before_lease_hook_failed, lease_ready, offline}
use jumpstarter.Exporter.Reports.{report_status}
use jumpstarter.Exporter.Hooks.{
  wait_for_lease_ready, HookResult, should_shutdown_exporter, Processes, open_drivers, skip_after,
  ready_polls, completed, hook_error, unexpected, execute_hook,
}
use jumpstarter.Exporter.{
  end_lease, exit_exporter, warn, World, Exporter, HookConfig, OnFailure, HookInstance, await, stop,
}
use jumpstarter.Exporter.Events.{
  stop-Grows, Steady, Grows, Grows-trans, report_status-Grows, GrowsAt-refl, GrowsAt-trans,
  await-Grows, request_lease_release-Grows,
}
use jumpstarter.Common.{zero, suc, ℕ, Bool, Option, arith, false, some, true, ◌≡◌, none, if_both}
use jumpstarter.Exporter.Hooks.Before.{
  run_before_lease_hook, after_before_hook, finish_before, before_failed, run_before_configured,
  ready_message, before_lease_hook, before_lease,
}
use Prim.Native.String.{◌++◌, String}

-- The lease's drivers are open, and no event of the lease has been cleared since `s`.
pub record Opened (i : ℕ) (s t : Exporter) : Type 0 where
  pub grows : Grows s t
  pub drivers : (t.leases i).before_lease_hook ≡ true

module _ (w : World) (steady : Steady w) (i : ℕ) where
  skip_after-Grows : (s : Exporter) → Grows s (skip_after i s)
  skip_after-Grows s j = ground arith

  open_drivers-Grows : (s : Exporter) → Grows s (open_drivers i s)
  open_drivers-Grows s j = ground arith

  wait-Grows : (left : ℕ) (s : Exporter) → Grows s (wait_for_lease_ready w i left s).0
  unfolding wait_for_lease_ready
  wait-Grows zero s j =
      let late =
        report_status w before_lease_hook_failed "Timeout waiting for lease scope to be ready" s in
      ground (
        arith,
        GrowsAt-refl (s.leases j),
        skip_after-Grows s j,
        GrowsAt-trans
            (report_status-Grows w steady before_lease_hook_failed
              "Timeout waiting for lease scope to be ready" s j)
            (open_drivers-Grows late j),
      )
  wait-Grows (suc left) s j = ground (
    arith,
    GrowsAt-refl (s.leases j),
    skip_after-Grows s j,
    GrowsAt-trans (await-Grows w steady s j) (wait-Grows left (await w s) j),
  )

  finish_before-Opened :
      (release : Bool) (s u : Exporter) → Grows u s → Opened i u (finish_before w i release s)
  finish_before-Opened false s u g = record {
    grows = Grows-trans u s (open_drivers i s) g (open_drivers-Grows s);
    drivers = ground arith;
  }
  finish_before-Opened true s u g =
      let o = open_drivers i s in
      let after =
        Grows-trans o (await w o) (request_lease_release w (await w o)) (await-Grows w steady o)
          (request_lease_release-Grows w steady (await w o)) in
      record {
        grows =
            Grows-trans u o (request_lease_release w (await w o))
              (Grows-trans u s o g (open_drivers-Grows s)) after;
        drivers = (after i).before (ground arith);
      }

  pub reported-Opened :
      (release : Bool) (status : ExporterStatus) (message : String) (s u : Exporter)
      → Grows u s
      → Opened i u (finish_before w i release (report_status w status message s))
  reported-Opened release status message s u g =
      let r = report_status w status message s in
      finish_before-Opened release r u
        (Grows-trans u s r g (report_status-Grows w steady status message s))

  before_failed-Opened :
      (e : String) (on_failure : OnFailure) (s u : Exporter)
      → Grows u s
      → Opened i u (before_failed w i e on_failure s)
  unfolding should_shutdown_exporter
  before_failed-Opened e exit_exporter s u g =
      let a = skip_after i s in
      let b =
        report_status w before_lease_hook_failed
          ("beforeLease hook failed (on_failure=exit, shutting down): " ++ e) a in
      let c = report_status w offline "Exporter shutting down due to beforeLease hook failure" b in
      let d = stop true true (some 1) c in
      finish_before-Opened false d u (
        Grows-trans u s d g (
          Grows-trans s a d (skip_after-Grows s) (
            Grows-trans a b d (report_status-Grows w steady _ _ a) (
              Grows-trans b c d (report_status-Grows w steady _ _ b)
                (stop-Grows true true (some 1) c)))))
  before_failed-Opened e end_lease s u g =
      reported-Opened true _ _ (skip_after i s) u
        (Grows-trans u s (skip_after i s) g (skip_after-Grows s))
  before_failed-Opened e warn s u g =
      reported-Opened true _ _ (skip_after i s) u
        (Grows-trans u s (skip_after i s) g (skip_after-Grows s))

  after_before_hook-Opened :
      (r : HookResult) (s u : Exporter) → Grows u s → Opened i u (after_before_hook w i r s)
  after_before_hook-Opened (completed warning) s u g =
      if_both (Opened i u) (s.leases i).lease_ended (finish_before-Opened false s u g)
        (reported-Opened false lease_ready (ready_message warning) s u g)
  after_before_hook-Opened (hook_error e on_failure) s u g = before_failed-Opened e on_failure s u g
  after_before_hook-Opened (unexpected e) s u g =
      reported-Opened false before_lease_hook_failed ("beforeLease hook failed: " ++ e) s u g

  run_before_configured-Opened :
      (processes : Processes) (hook : Option HookInstance) (s u : Exporter)
      → Grows u s
      → Opened i u (run_before_configured w processes i hook s)
  run_before_configured-Opened processes none s u g =
      reported-Opened false lease_ready "Ready for commands" s u g
  run_before_configured-Opened processes (some hook) s u g =
      let a = report_status w before_lease_hook "Running beforeLease hook" s in
      let b = await w a in
      let c = execute_hook processes before_lease hook i a in
      if_both (Opened i u) (s.leases i).lease_ended
        (finish_before-Opened false (skip_after i s) u
          (Grows-trans u s (skip_after i s) g (skip_after-Grows s)))
        (after_before_hook-Opened c b u (
          Grows-trans u s b g (
            Grows-trans s a b
              (report_status-Grows w steady before_lease_hook "Running beforeLease hook" s)
              (await-Grows w steady a))))

  -- However the beforeLease hook and the controller turn out, and whatever the other tasks do
  -- short of clearing an event, `run_before_lease_hook` ends with the lease's drivers open, and no
  -- event of any lease has been cleared: clients that wait for the drivers are let through.
  pub run_before_lease_hook-opens :
      (processes : Processes) (config : HookConfig) (s : Exporter)
      → Opened i s (run_before_lease_hook w processes config i s)
  unfolding run_before_lease_hook
  run_before_lease_hook-opens processes config s =
      let waited = wait_for_lease_ready w i ready_polls s in
      if_both (Opened i s) waited.1
        (run_before_configured-Opened processes config.before_lease waited.0 s
          (wait-Grows ready_polls s))
        (finish_before-Opened false waited.0 s (wait-Grows ready_polls s))
