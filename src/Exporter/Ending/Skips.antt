-- ===== src/Exporter/Ending/Skips.antt =====
-- A lease whose afterLease hook is to be skipped: what the hook would do does not matter.
use jumpstarter.Exporter.Hooks.{Processes}
use jumpstarter.Exporter.Events.{Steady, await-Grows}
use jumpstarter.Exporter.{World, Exporter, await}
use jumpstarter.Common.{ℕ, ◌≡◌, true, arith, refl}
use jumpstarter.Exporter.Ending.{
  handle_end_session, decide_end_session, cleanup_after_lease, Decision, decide_cleanup,
  carry_out_cleanup, carry_out_end_session, leave, wait_for_other, run_it,
}

module _ (w : World) (steady : Steady w) (p q : Processes) (i : ℕ) where
  carry_out_end_session_skips :
      (d : Decision) (s : Exporter)
      → (s.leases i).skip_after_lease_hook ≡ true
      → carry_out_end_session w p i d s ≡ carry_out_end_session w q i d s
  carry_out_end_session_skips leave s h = refl
  carry_out_end_session_skips wait_for_other s h = refl
  carry_out_end_session_skips run_it s h = ground arith

  carry_out_cleanup_skips :
      (d : Decision) (s : Exporter)
      → (s.leases i).skip_after_lease_hook ≡ true
      → carry_out_cleanup w p i d s ≡ carry_out_cleanup w q i d s
  carry_out_cleanup_skips leave s h = refl
  carry_out_cleanup_skips wait_for_other s h = refl
  carry_out_cleanup_skips run_it s h = ground arith

  decide_skips :
      (s : Exporter)
      → (s.leases i).skip_after_lease_hook ≡ true
      → (((decide_end_session i s).0.leases i).skip_after_lease_hook ≡ true)
        × (((decide_cleanup i s).0.leases i).skip_after_lease_hook ≡ true)
  unfolding decide_end_session decide_cleanup
  decide_skips s h = (ground arith, ground arith)

  -- Once a lease is marked to skip its afterLease hook (its beforeLease hook failed, or it was
  -- stale), the EndSession handler and the cleanup leave the same state whatever the hook's process
  -- would have come to, as long as the other tasks clear no event: the hook is not run.
  skip_after_lease_hook-skips :
      (s : Exporter)
      → (s.leases i).skip_after_lease_hook ≡ true
      → (handle_end_session w p i s ≡ handle_end_session w q i s)
        × (cleanup_after_lease w p i s ≡ cleanup_after_lease w q i s)
  unfolding handle_end_session cleanup_after_lease
  skip_after_lease_hook-skips s h =
      let still = (await-Grows w steady s i).skipped h in
      let d = decide_skips (await w s) still in
      (
        carry_out_end_session_skips (decide_end_session i (await w s)).1
            (decide_end_session i (await w s)).0 d.0,
        carry_out_cleanup_skips (decide_cleanup i (await w s)).1 (decide_cleanup i (await w s)).0
            d.1,
      )
