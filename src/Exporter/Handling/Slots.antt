-- ===== src/Exporter/Handling/Slots.antt =====
-- What the methods of a lease's task leave as it was: the slot and the count of leases.
use jumpstarter.Lease.{has_client, is_ready}
use jumpstarter.Exporter.Hooks.{
  HookResult, should_shutdown_exporter, Processes, open_drivers, completed, skip_after, hook_error,
  unexpected,
}
use jumpstarter.Exporter.Ending.{
  decide_cleanup, skip_stale_lease, cleanup_after_lease, Decision, carry_out_cleanup, run_hook_or,
  leave, wait_for_other, run_it,
}
use jumpstarter.Common.{
  ℕ, ◌≡◌, refl, arith, Bool, true, false, Option, none, some, String, ◌∙◌, if_both, ◌||◌, ◌&&◌, not,
  if◌then◌else◌,
}
use jumpstarter.Status.{ExporterStatus, available}
use jumpstarter.Rpc.{StatusCode}
use jumpstarter.Exporter.{
  Exporter, World, Rpc, StatusRequest, await, call, stop, release_lease_call, OnFailure, HookConfig,
  HookInstance, exit_exporter, end_lease, warn,
}
use jumpstarter.Exporter.Reports.{report_status, send_report_status_rpc, show_status, request_for}
use jumpstarter.Exporter.Release.{
  send_compat_release, release_by_rpc, request_lease_release, conclude, request_release_of,
  is_release_unsupported,
}
use jumpstarter.Exporter.Hooks.After.{
  finish_after, run_after_lease_hook, after_after_hook, run_after_configured, after_failed,
}

-- While a method waits the other tasks leave the slot as it is.
abbrev pub SlotKept : World → Type 0
SlotKept w = (n : ℕ) (s : Exporter) → (w.others n s).lease_context ≡ s.lease_context

module _ (w : World) (k : SlotKept w) where
  pub await-slot : (s : Exporter) → (await w s).lease_context ≡ s.lease_context
  unfolding await
  await-slot s = k s.awaits s

  call-slot :
      (rpc : Rpc) (nr : StatusCode → Bool) (s : Exporter)
      → (call w rpc nr s).0.lease_context ≡ s.lease_context
  unfolding call await
  call-slot rpc nr s = k _ _

  send-slot :
      (request : StatusRequest) (s : Exporter)
      → (send_report_status_rpc w request s).0.lease_context ≡ s.lease_context
  unfolding send_report_status_rpc
  send-slot request s = call-slot _ _ s

  pub report_status-slot :
      (status : ExporterStatus) (message : String) (s : Exporter)
      → (report_status w status message s).lease_context ≡ s.lease_context
  unfolding report_status
  report_status-slot status message s =
      let shown = show_status status message s.lease_context (record s { status = status }) in
      ground (arith, send-slot (request_for status message) shown)

  compat-slot : (s : Exporter) → (send_compat_release w s).lease_context ≡ s.lease_context
  unfolding send_compat_release
  compat-slot s = send-slot _ s

  by_rpc-slot :
      (name : String) (s : Exporter) → (release_by_rpc w name s).lease_context ≡ s.lease_context
  unfolding release_by_rpc
  by_rpc-slot name s =
      let after = (call w (release_lease_call name) is_release_unsupported s).0 in
      ground (
        arith,
        call-slot (release_lease_call name) is_release_unsupported s,
        compat-slot (record after { release_lease_unsupported = true }),
      )

  conclude-slot : (s : Exporter) → (conclude w s).lease_context ≡ s.lease_context
  conclude-slot s =
      ground (arith, report_status-slot available "Exporter available after lease release" s)

  request-slot :
      (slot : Option ℕ) (s : Exporter)
      → (request_release_of w slot s).lease_context ≡ s.lease_context
  request-slot none s = refl
  request-slot (some i) s =
      let name = (s.leases i).lease_name in
      ground (
        arith,
        compat-slot s,
        conclude-slot (send_compat_release w s),
        by_rpc-slot name s,
        conclude-slot (release_by_rpc w name s),
      )

  finish_after-slot :
      (b : Bool) (s : Exporter) → (finish_after w b s).lease_context ≡ s.lease_context
  unfolding request_lease_release
  finish_after-slot true s = await-slot s
  finish_after-slot false s = request-slot (await w s).lease_context (await w s) ∙ await-slot s

  stop-slot :
      (b c : Bool) (code : Option ℕ) (s : Exporter)
      → (stop b c code s).lease_context ≡ s.lease_context
  unfolding stop
  stop-slot b c code s = ground arith

  after_failed-slot :
      (e : String) (f : OnFailure) (s : Exporter)
      → (after_failed w e f s).lease_context ≡ s.lease_context
  unfolding should_shutdown_exporter
  after_failed-slot e exit_exporter s =
      finish_after-slot true _
      ∙ stop-slot _ _ _ _
      ∙ report_status-slot _ _ _
      ∙ report_status-slot _ _ s
  after_failed-slot e end_lease s = finish_after-slot false _ ∙ report_status-slot _ _ s
  after_failed-slot e warn s = finish_after-slot false _ ∙ report_status-slot _ _ s

  after_after-slot :
      (r : HookResult) (s : Exporter) → (after_after_hook w r s).lease_context ≡ s.lease_context
  after_after-slot (completed warning) s = finish_after-slot false _ ∙ report_status-slot _ _ s
  after_after-slot (hook_error e f) s = after_failed-slot e f s
  after_after-slot (unexpected e) s = finish_after-slot false _ ∙ report_status-slot _ _ s

  configured-slot :
      (processes : Processes) (i : ℕ) (hook : Option HookInstance) (s : Exporter)
      → (run_after_configured w processes i hook s).lease_context ≡ s.lease_context
  configured-slot processes i none s = finish_after-slot false _ ∙ report_status-slot _ _ s
  configured-slot processes i (some hook) s =
      after_after-slot _ _ ∙ await-slot _ ∙ report_status-slot _ _ s

  run_after-slot :
      (processes : Processes) (config : HookConfig) (i : ℕ) (s : Exporter)
      → (run_after_lease_hook w processes config i s).lease_context ≡ s.lease_context
  unfolding run_after_lease_hook
  run_after-slot processes config i s =
      if_both (λ (t : Exporter). t.lease_context ≡ s.lease_context) (is_ready (s.leases i))
        (configured-slot processes i config.after_lease s)
        (finish_after-slot false _ ∙ report_status-slot _ _ s)

  run_or-slot :
      (processes : Processes) (hooks : Option HookConfig) (b : Bool) (i : ℕ)
      (otherwise : Exporter → Exporter) (s : Exporter)
      → (otherwise s).lease_context ≡ s.lease_context
      → (run_hook_or w processes hooks b i otherwise s).lease_context ≡ s.lease_context
  run_or-slot processes none b i otherwise s same = same
  run_or-slot processes (some config) true i otherwise s same = run_after-slot processes config i s
  run_or-slot processes (some config) false i otherwise s same = same

  carry_out-slot :
      (processes : Processes) (i : ℕ) (d : Decision) (s : Exporter)
      → (carry_out_cleanup w processes i d s).lease_context ≡ s.lease_context
  carry_out-slot processes i leave s = refl
  carry_out-slot processes i wait_for_other s = await-slot s
  carry_out-slot processes i run_it s =
      run_or-slot processes s.hook_executor
        ((has_client (s.leases i) || s.standalone) && not (s.leases i).skip_after_lease_hook) i
        (λ t.
          if not t.stop_requested then report_status w available "Available for new lease" t else t)
        s
        (if_both (λ (t : Exporter). t.lease_context ≡ s.lease_context) (not s.stop_requested)
          (report_status-slot available "Available for new lease" s) refl)

  decide-slot : (i : ℕ) (s : Exporter) → (decide_cleanup i s).0.lease_context ≡ s.lease_context
  unfolding decide_cleanup
  decide-slot i s = ground arith

  pub cleanup-slot :
      (processes : Processes) (i : ℕ) (s : Exporter)
      → (cleanup_after_lease w processes i s).lease_context ≡ s.lease_context
  unfolding cleanup_after_lease
  cleanup-slot processes i s =
      carry_out-slot processes i _ _ ∙ decide-slot i (await w s) ∙ await-slot s

  pub stale-slot :
      (i : ℕ) (s : Exporter) → (skip_stale_lease w i s).0.lease_context ≡ s.lease_context
  unfolding skip_stale_lease
  stale-slot i s = ground (
    arith,
    report_status-slot available "Available for new lease" (open_drivers i (skip_after i s)),
  )
