-- ===== src/Exporter/Release/Calls.antt =====
-- Which calls a release makes, and what they leave as it was.
use jumpstarter.Common.{
  ℕ, ◌+◌, ◌≡◌, refl, Bool, true, false, List, [], ◌∷◌, ◌++◌, String, arith, not, ◌&&◌, ◌||◌,
  append_assoc, if◌then◌else◌, if_both,
}
use jumpstarter.Rpc.{StatusCode, RpcResult, retry_rpc}
use jumpstarter.Exporter.Keeps.{Keeps, Kept, Kept-trans, call-Kept, Kept-unsupported}
use jumpstarter.Exporter.{
  Exporter, World, Rpc, StatusRequest, report_status_call, release_lease_call, await, call,
}
use jumpstarter.Exporter.Reports.{send_report_status_rpc}
use jumpstarter.Exporter.Release.{
  release_by_rpc, send_compat_release, compat_request, is_release_unsupported, is_unsupported,
}

-- While a method waits, the other tasks make no calls either, as when no status waits to be sent,
-- and learn nothing of the controller.
pub record Silent (w : World) : Type 0 where
  pub keeps : Keeps w
  pub calls : (n : ℕ) (s : Exporter) → (w.others n s).rpcs ≡ s.rpcs
  pub support :
      (n : ℕ) (s : Exporter)
      → (w.others n s).release_lease_unsupported ≡ s.release_lease_unsupported

-- The result of the ReleaseLease call from a state.
abbrev pub release_result : World → String → Exporter → RpcResult
release_result w name s =
    retry_rpc (λ k. w.answer (s.attempts + k) (release_lease_call name)) is_release_unsupported

-- The controller refused the ReleaseLease call as one that it does not support.
abbrev pub is_refused : RpcResult → Bool
is_refused r = not r.ok && is_unsupported r.code

-- The calls of a release, by what is known of the controller, the result of the ReleaseLease call
-- and the compat request.
abbrev pub release_calls : Bool → RpcResult → String → StatusRequest → List Rpc
release_calls true r name request = report_status_call request ∷ []
release_calls false r name request =
    release_lease_call name ∷ (if is_refused r then report_status_call request ∷ [] else [])

module _ (w : World) (k : Keeps w) where
  pub compat-Kept : (s : Exporter) → Kept s (send_compat_release w s)
  unfolding send_compat_release send_report_status_rpc
  compat-Kept s = call-Kept w k _ _ s

  pub release_by_rpc-Kept : (name : String) (s : Exporter) → Kept s (release_by_rpc w name s)
  unfolding release_by_rpc
  release_by_rpc-Kept name s =
      let after = call w (release_lease_call name) is_release_unsupported s in
      let c = call-Kept w k (release_lease_call name) is_release_unsupported s in
      let refused = Kept-trans c (Kept-unsupported after.0) in
      if_both (λ (t : Exporter). Kept s t) after.1.ok c
        (if_both (λ (t : Exporter). Kept s t) (is_unsupported after.1.code)
          (Kept-trans refused (compat-Kept (record after.0 { release_lease_unsupported = true })))
          c)

-- What a call leaves as it was, and the call that it logs.
pub record Called (rpc : Rpc) (s t : Exporter) : Type 0 where
  pub slot : t.lease_context ≡ s.lease_context
  pub drain : t.status_drain_active ≡ s.status_drain_active
  pub alone : t.standalone ≡ s.standalone
  pub support : t.release_lease_unsupported ≡ s.release_lease_unsupported
  pub calls : t.rpcs ≡ s.rpcs ++ rpc ∷ []

module _ (w : World) (k : Silent w) where
  call-Called :
      (rpc : Rpc) (nr : StatusCode → Bool) (s : Exporter) → Called rpc s (call w rpc nr s).0
  unfolding call await
  call-Called rpc nr s = record {
    slot = (k.keeps _ _).slot;
    drain = (k.keeps _ _).drain;
    alone = (k.keeps _ _).alone;
    support = k.support _ _;
    calls = k.calls _ _;
  }

  compat-Called :
      (s : Exporter) → Called (report_status_call (compat_request s)) s (send_compat_release w s)
  unfolding send_compat_release send_report_status_rpc
  compat-Called s = call-Called _ _ s

  call_result :
      (name : String) (s : Exporter)
      → (call w (release_lease_call name) is_release_unsupported s).1 ≡ release_result w name s
  unfolding call
  call_result name s = refl

  -- What stays after the calls of a release, and which calls were made.
  pub record Released (name : String) (request : StatusRequest) (s t : Exporter) : Type 0 where
    pub slot : t.lease_context ≡ s.lease_context
    pub drain : t.status_drain_active ≡ s.status_drain_active
    pub alone : t.standalone ≡ s.standalone
    pub support :
        t.release_lease_unsupported
        ≡ (s.release_lease_unsupported || is_refused (release_result w name s))
    pub calls :
        t.rpcs
        ≡ s.rpcs ++ release_calls s.release_lease_unsupported (release_result w name s) name request

  -- The compat request of the state that a refused ReleaseLease call leaves.
  abbrev pub refused_request : String → Exporter → StatusRequest
  refused_request name s =
      compat_request (record (call w (release_lease_call name) is_release_unsupported s).0 {
        release_lease_unsupported = true;
      })

  pub release_by_rpc-Released :
      (name : String) (s : Exporter)
      → s.release_lease_unsupported ≡ false
      → Released name (refused_request name s) s (release_by_rpc w name s)
  unfolding release_by_rpc
  release_by_rpc-Released name s h =
      let after = call w (release_lease_call name) is_release_unsupported s in
      let c = call-Called (release_lease_call name) is_release_unsupported s in
      let d = compat-Called (record after.0 { release_lease_unsupported = true }) in
      let r = call_result name s in
      record {
        slot = ground (arith, c.slot, d.slot);
        drain = ground (arith, c.drain, d.drain);
        alone = ground (arith, c.alone, d.alone);
        support = ground (arith, c.support, d.support, r);
        calls = ground (
          arith,
          c.calls,
          d.calls,
          r,
          append_assoc s.rpcs (release_lease_call name ∷ [])
              (report_status_call (refused_request name s) ∷ []),
        );
      }

  pub compat-Released :
      (name : String) (s : Exporter)
      → s.release_lease_unsupported ≡ true
      → Released name (compat_request s) s (send_compat_release w s)
  compat-Released name s h =
      let d = compat-Called s in
      record {
        slot = d.slot;
        drain = d.drain;
        alone = d.alone;
        support = ground (arith, d.support);
        calls = ground (arith, d.calls);
      }
