-- ===== src/Exporter/Release/Outcome.antt =====
-- What a request for the release of a lease comes to, whatever the controller answers.
use jumpstarter.Common.{
  ℕ, ◌≡◌, refl, true, false, some, ◌++◌, String, str_eq, arith, ◌||◌, Bool-cases, inl, inr, ◌∙◌,
}
use jumpstarter.Status.{status_eq, available, ExporterStatus}
use jumpstarter.Exporter.{Exporter, World, StatusRequest, release_lease_call, call}
use jumpstarter.Exporter.Reports.{report_status}
use jumpstarter.Exporter.Keeps.{Keeps}
use jumpstarter.Exporter.Release.{
  request_lease_release, release_by_rpc, send_compat_release, compat_request,
  is_release_unsupported, compat_status, conclude,
}
use jumpstarter.Exporter.Release.Calls.{
  Silent, compat-Kept, release_by_rpc-Kept, release_result, is_refused, release_calls, Released,
  refused_request, release_by_rpc-Released, compat-Released,
}

abbrev available_request : StatusRequest
available_request = record {
  status = available;
  message = "Exporter available after lease release";
  release_lease = false;
}

record Concluded (i : ℕ) (r t : Exporter) : Type 0 where
  slot : t.lease_context ≡ some i
  ended : (t.leases i).lease_ended ≡ true
  status : t.status ≡ available
  pending : t.pending_status_request ≡ some available_request
  woken : t.status_rpc_event ≡ true
  support : t.release_lease_unsupported ≡ r.release_lease_unsupported
  calls : t.rpcs ≡ r.rpcs

conclude-Concluded :
    (w : World) (r : Exporter) (i : ℕ)
    → r.lease_context ≡ some i
    → r.standalone ≡ false
    → r.status_drain_active ≡ true
    → Concluded i r (conclude w r)
unfolding report_status
conclude-Concluded w r i slot alone drain = ground arith

blocked : (status : ExporterStatus) → status_eq (compat_status status) available ≡ false
blocked status = ground arith

module _ (w : World) (s : Exporter) (i : ℕ) where
  abbrev name : String
  name = (s.leases i).lease_name

  request_known :
      s.lease_context ≡ some i
      → str_eq name "" ≡ false
      → (s.leases i).lease_ended ≡ false
      → s.standalone ≡ false
      → s.release_lease_unsupported ≡ true
      → request_lease_release w s ≡ conclude w (send_compat_release w s)
  unfolding request_lease_release
  request_known slot named live alone known = ground arith

  request_unknown :
      s.lease_context ≡ some i
      → str_eq name "" ≡ false
      → (s.leases i).lease_ended ≡ false
      → s.standalone ≡ false
      → s.release_lease_unsupported ≡ false
      → request_lease_release w s ≡ conclude w (release_by_rpc w name s)
  unfolding request_lease_release
  request_unknown slot named live alone unknown = ground arith

  request_ended :
      Keeps w
      → s.lease_context ≡ some i
      → str_eq name "" ≡ false
      → (s.leases i).lease_ended ≡ false
      → s.standalone ≡ false
      → s.status_drain_active ≡ true
      → (r : Exporter) × Concluded i r (request_lease_release w s)
  request_ended k slot named live alone drain = elim (Bool-cases s.release_lease_unsupported) [
    | inl known ↦
        let p = compat-Kept w k s in
        let r = send_compat_release w s in
        rw (request_known slot named live alone known)
          (r, conclude-Concluded w r i (p.slot ∙ slot) (p.alone ∙ alone) (p.drain ∙ drain))
    | inr unknown ↦
        let p = release_by_rpc-Kept w k name s in
        let r = release_by_rpc w name s in
        rw (request_unknown slot named live alone unknown)
          (r, conclude-Concluded w r i (p.slot ∙ slot) (p.alone ∙ alone) (p.drain ∙ drain))
  ]

module _ (w : World) (k : Silent w) (s : Exporter) (i : ℕ) where
  -- What is told of a request below, of the state that it leaves.
  abbrev pub Outcome : Exporter → Type 0
  Outcome t =
      (request : StatusRequest) × (request.release_lease ≡ true)
      × (status_eq request.status available ≡ false)
      × (t.rpcs
          ≡ s.rpcs
            ++ release_calls s.release_lease_unsupported (release_result w (name w s i) s)
                (name w s i) request)
      × (t.release_lease_unsupported
          ≡ (s.release_lease_unsupported || is_refused (release_result w (name w s i) s)))
      × (t.lease_context ≡ some i)
      × ((t.leases i).lease_ended ≡ true)
      × (t.status ≡ available)
      × (t.pending_status_request ≡ some available_request)

  outcome :
      (r : Exporter) (request : StatusRequest)
      → Released w k (name w s i) request s r
      → request.release_lease ≡ true
      → status_eq request.status available ≡ false
      → Concluded i r (conclude w r)
      → Outcome (conclude w r)
  outcome r request d e b c = (
    request,
    e,
    b,
    c.calls ∙ d.calls,
    c.support ∙ d.support,
    c.slot,
    c.ended,
    c.status,
    c.pending,
  )

  -- A request for the release of a named, live lease in the slot, made by an exporter with a
  -- controller while statuses are drained in the background, and while the other tasks make no
  -- calls and leave the slot, and what else `Silent` names, alone. Whatever the controller
  -- answers: the calls made are the ReleaseLease call, unless the controller is known to refuse
  -- it, and then, only where it is refused as unsupported or known to be, a report with
  -- `release_lease` whose status is not AVAILABLE; the refusal is remembered; and afterwards the
  -- lease has ended, it is still in the slot, and AVAILABLE is the exporter's status and the
  -- report that waits to be sent.
  pub request_lease_release_ends :
      s.lease_context ≡ some i
      → str_eq (s.leases i).lease_name "" ≡ false
      → (s.leases i).lease_ended ≡ false
      → s.standalone ≡ false
      → s.status_drain_active ≡ true
      → Outcome (request_lease_release w s)
  request_lease_release_ends slot named live alone drain =
      elim (Bool-cases s.release_lease_unsupported) [
        | inl known ↦
            let r = compat-Released w k (name w s i) s known in
            rw (request_known w s i slot named live alone known) (
              outcome (send_compat_release w s) (compat_request s) r refl (blocked s.status)
                (conclude-Concluded w _ i (r.slot ∙ slot) (r.alone ∙ alone) (r.drain ∙ drain)))
        | inr unknown ↦
            let r = release_by_rpc-Released w k (name w s i) s unknown in
            rw (request_unknown w s i slot named live alone unknown) (
              outcome (release_by_rpc w (name w s i) s) (refused_request w k (name w s i) s) r refl
                (blocked
                  (call w (release_lease_call (name w s i)) is_release_unsupported s).0.status)
                (conclude-Concluded w _ i (r.slot ∙ slot) (r.alone ∙ alone) (r.drain ∙ drain)))
      ]

-- After a request for the release of a named lease in the slot of an exporter with a controller,
-- the lease has ended and is still in the slot, whether or not it had ended before.
pub request_lease_release-ended :
    (w : World) (k : Keeps w) (s : Exporter) (i : ℕ)
    → s.lease_context ≡ some i
    → str_eq (s.leases i).lease_name "" ≡ false
    → s.standalone ≡ false
    → s.status_drain_active ≡ true
    → ((request_lease_release w s).lease_context ≡ some i)
      × (((request_lease_release w s).leases i).lease_ended ≡ true)
request_lease_release-ended w k s i slot named alone drain =
    elim (Bool-cases (s.leases i).lease_ended) [
      | inl ended ↦ unfold request_lease_release in (ground arith, ground arith)
      | inr live ↦
          let c = request_ended w s i k slot named live alone drain in (c.1.slot, c.1.ended)
    ]
