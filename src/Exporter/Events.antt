-- ===== src/Exporter/Events.antt =====
-- The events of a lease are set and never cleared: a relation between states that the exporter's
-- methods keep, if the other tasks keep it while the methods wait.
use jumpstarter.Lease.{LeaseContext}
use jumpstarter.Status.{available, ExporterStatus}
use jumpstarter.Exporter.Reports.{report_status, send_report_status_rpc, show_status}
use jumpstarter.Exporter.Release.{
  end_context, release_by_rpc, send_compat_release, request_lease_release, is_release_unsupported,
  conclude, request_release_of,
}
use jumpstarter.Lease
use jumpstarter.Common.{some, none, ℕ, ◌≡◌, Bool, true, Option, arith, String, false}
use jumpstarter.Rpc.{StatusCode}
use jumpstarter.Exporter.{
  Exporter, World, Rpc, await, call, StatusRequest, release_lease_call, stop,
}

abbrev pub Implies : Bool → Bool → Type 0
Implies a b = a ≡ true → b ≡ true

-- The second state of a lease has every event of the first.
pub record GrowsAt (l m : LeaseContext) : Type 0 where
  pub before : Implies l.before_lease_hook m.before_lease_hook
  pub ended : Implies l.lease_ended m.lease_ended
  pub begun : Implies l.after_lease_hook_started m.after_lease_hook_started
  pub finished : Implies l.after_lease_hook_done m.after_lease_hook_done
  pub skipped : Implies l.skip_after_lease_hook m.skip_after_lease_hook

abbrev pub Grows : Exporter → Exporter → Type 0
Grows s t = (j : ℕ) → GrowsAt (s.leases j) (t.leases j)

pub GrowsAt-refl : (l : LeaseContext) → GrowsAt l l
GrowsAt-refl l = ground arith

pub GrowsAt-trans : {l m n : LeaseContext} → GrowsAt l m → GrowsAt m n → GrowsAt l n
GrowsAt-trans a b = ground arith

pub Grows-trans : (s t u : Exporter) → Grows s t → Grows t u → Grows s u
Grows-trans s t u a b j = GrowsAt-trans (a j) (b j)

-- The other tasks clear no event while a method waits.
abbrev pub Steady : World → Type 0
Steady w = (n : ℕ) (s : Exporter) → Grows s (w.others n s)

module _ (w : World) (steady : Steady w) where
  pub await-Grows : (s : Exporter) → Grows s (await w s)
  unfolding await
  await-Grows s = steady s.awaits s

  call-Grows : (rpc : Rpc) (nr : StatusCode → Bool) (s : Exporter) → Grows s (call w rpc nr s).0
  unfolding call await
  call-Grows rpc nr s = steady s.awaits _

  send-Grows :
      (request : StatusRequest) (s : Exporter) → Grows s (send_report_status_rpc w request s).0
  unfolding send_report_status_rpc
  send-Grows request s = call-Grows _ _ s

  pub report_status-Grows :
      (status : ExporterStatus) (message : String) (s : Exporter)
      → Grows s (report_status w status message s)
  unfolding report_status Lease.update_status
  report_status-Grows status message s j =
      let shown = show_status status message s.lease_context (record s { status = status }) in
      ground (
        arith,
        GrowsAt-refl (s.leases j),
        send-Grows (record { status = status; message = message; release_lease = false }) shown j,
      )

  send_compat_release-Grows : (s : Exporter) → Grows s (send_compat_release w s)
  unfolding send_compat_release
  send_compat_release-Grows s = send-Grows _ s

  release_by_rpc-Grows : (name : String) (s : Exporter) → Grows s (release_by_rpc w name s)
  unfolding release_by_rpc
  release_by_rpc-Grows name s j =
      let after = (call w (release_lease_call name) is_release_unsupported s).0 in
      ground (
        arith,
        call-Grows (release_lease_call name) is_release_unsupported s j,
        send_compat_release-Grows (record after { release_lease_unsupported = true }) j,
      )

  end_context-Grows : (slot : Option ℕ) (s : Exporter) → Grows s (end_context slot s)
  end_context-Grows slot s j = ground arith

  conclude-Grows : (r : Exporter) → Grows r (conclude w r)
  conclude-Grows r j =
      let shown = report_status w available "Exporter available after lease release" r in
      GrowsAt-trans (report_status-Grows available "Exporter available after lease release" r j)
        (end_context-Grows shown.lease_context shown j)

  requested : (slot : Option ℕ) (s : Exporter) → Grows s (request_release_of w slot s)
  requested none s j = GrowsAt-refl (s.leases j)
  requested (some i) s j =
      let name = (s.leases i).lease_name in
      let compat = send_compat_release w s in
      let by_rpc = release_by_rpc w name s in
      ground (
        arith,
        GrowsAt-refl (s.leases j),
        GrowsAt-trans (send_compat_release-Grows s j) (conclude-Grows compat j),
        GrowsAt-trans (release_by_rpc-Grows name s j) (conclude-Grows by_rpc j),
      )

  pub request_lease_release-Grows : (s : Exporter) → Grows s (request_lease_release w s)
  unfolding request_lease_release
  request_lease_release-Grows s = requested s.lease_context s

-- Stopping the exporter touches no lease.
pub stop-Grows :
    (wait unregister : Bool) (code : Option ℕ) (s : Exporter)
    → Grows s (stop wait unregister code s)
unfolding stop
stop-Grows wait unregister code s j = ground (arith, GrowsAt-refl (s.leases j))
