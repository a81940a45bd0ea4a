-- ===== src/Exporter/Handling/Ends.antt =====
-- How the task of a lease ends, whatever happens to it.
use jumpstarter.Status.{lease_ready}
use jumpstarter.Common.{
  ℕ, ◌≡◌, refl, arith, true, Option, none, some, String, ◌∷◌, [], ◌++◌, ◌∙◌, if_both,
}
use jumpstarter.Exporter.{
  Exporter, World, await, open_channel, lease_finished, HookConfig, change_lease,
}
use jumpstarter.Exporter.Hooks.{Processes}
use jumpstarter.Exporter.Ending.{skip_stale_lease}
use jumpstarter.Exporter.Control.{hand_back}
use jumpstarter.Exporter.Handling.{
  Course, Left, handle_lease, handle_lease_body, with_session, open_session, opens, open_fails,
  serve_connections, report_ready, open_if_no_hooks, Opened, link_session,
}
use jumpstarter.Exporter.Handling.Slots.{
  SlotKept, await-slot, report_status-slot, cleanup-slot, stale-slot,
}

hand_back_lem :
    (i : ℕ) (u : Exporter)
    → u.control_tx ≡ open_channel
    → let t = hand_back i u in
      (t.lease_context ≡ u.lease_context)
      × (t.inbox ≡ u.inbox ++ lease_finished i ∷ [])
      × ((t.leases i).before_lease_hook ≡ true)
      × ((t.leases i).after_lease_hook_done ≡ true)
unfolding hand_back
hand_back_lem i u h = (ground (arith, h), ground (arith, h), ground (arith, h), ground (arith, h))

module _ (w : World) (k : SlotKept w) (processes : Processes) (course : Course) (i : ℕ) where
  ready-slot :
      (hooks : Option HookConfig) (s : Exporter)
      → (report_ready w i hooks s).lease_context ≡ s.lease_context
  ready-slot none s = report_status-slot w k lease_ready "Ready for commands" s
  ready-slot (some config) s = refl

  open-slot :
      (hooks : Option HookConfig) (s : Exporter)
      → (open_if_no_hooks i hooks s).lease_context ≡ s.lease_context
  open-slot none s = refl
  open-slot (some config) s = refl

  connections-slot :
      (s : Exporter) → (serve_connections w course i s).lease_context ≡ s.lease_context
  unfolding serve_connections
  connections-slot s =
      open-slot _ _
      ∙ await-slot w k _
      ∙ if_both (λ (t : Exporter). t.lease_context ≡ s.lease_context) course.reaches_ready
          (ready-slot s.hook_executor s) refl

  session-slot :
      (main hook : String) (s : Exporter)
      → (with_session w processes course main hook i s).0.lease_context ≡ s.lease_context
  unfolding with_session
  session-slot main hook s =
      let linked = change_lease i (link_session main hook) s in
      let u = (skip_stale_lease w i linked).0 in
      if_both (λ (t : Exporter × Left). t.0.lease_context ≡ s.lease_context)
        (skip_stale_lease w i linked).1 (await-slot w k u ∙ stale-slot w k i linked)
        (await-slot w k _
          ∙ cleanup-slot w k processes i _
          ∙ connections-slot u
          ∙ stale-slot w k i linked)

  opening-slot :
      (o : Opened) (s : Exporter)
      → (open_session w processes course o i s).0.lease_context ≡ s.lease_context
  unfolding open_session with_session
  opening-slot open_fails s = refl
  opening-slot (opens main hook) s = session-slot main hook s

  body-slot :
      (s : Exporter) → (handle_lease_body w processes course i s).0.lease_context ≡ s.lease_context
  unfolding handle_lease_body
  body-slot s =
      let t = await w s in
      let u = (skip_stale_lease w i t).0 in
      if_both (λ (t : Exporter × Left). t.0.lease_context ≡ s.lease_context) course.cancelled
        (await-slot w k s)
        (if_both (λ (t : Exporter × Left). t.0.lease_context ≡ s.lease_context)
          (skip_stale_lease w i t).1 (stale-slot w k i t ∙ await-slot w k s)
          (opening-slot course.session (await w u)
            ∙ await-slot w k u
            ∙ stale-slot w k i t
            ∙ await-slot w k s))

  -- However the task of a lease goes (cancelled at once, with no session, with its lease ended before
  -- or during the setup of the session, or with its connections ended normally or by an exception),
  -- while the other tasks leave the slot alone: it leaves the slot as it was, and where the channel
  -- is open at its end, the last that it does is to post a `LeaseFinished` for its lease, with the
  -- events that others wait for set.
  pub handle_lease-hands_back :
      (s : Exporter)
      → (handle_lease_body w processes course i s).0.control_tx ≡ open_channel
      → let t = (handle_lease w processes course i s).0 in
        (t.lease_context ≡ s.lease_context)
        × (t.inbox ≡ (handle_lease_body w processes course i s).0.inbox ++ lease_finished i ∷ [])
        × ((t.leases i).before_lease_hook ≡ true)
        × ((t.leases i).after_lease_hook_done ≡ true)
  unfolding handle_lease
  handle_lease-hands_back s open_ =
      let u = (handle_lease_body w processes course i s).0 in
      let back = hand_back_lem i u open_ in (back.0 ∙ body-slot s, back.1, back.2, back.3)
