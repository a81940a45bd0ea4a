-- ===== src/Exporter/Ending.antt =====
-- exporter/exporter.py: `_handle_end_session`, `_cleanup_after_lease` and `_skip_stale_lease`, the
-- ends of a lease. Each decides in one turn, with no wait, whether the afterLease hook is its to
-- run; the decision and what follows are functions of their own.
pub mod Claims
pub mod Skips
use jumpstarter.Common.{ℕ, Bool, true, false, not, ◌&&◌, ◌||◌, Option, none, some, if◌then◌else◌}
use jumpstarter.Status.{available}
use jumpstarter.Lease.{LeaseContext, has_client}
use jumpstarter.Exporter.{Exporter, World, HookConfig, change_lease, await}
use jumpstarter.Exporter.Reports.{report_status}
use jumpstarter.Exporter.Hooks.{Processes, skip_after, open_drivers}
use jumpstarter.Exporter.Hooks.After.{run_after_lease_hook}

-- What a task does about the afterLease hook: nothing, as the lease ended with no EndSession; wait
-- for the task that has begun it; or run it, which includes the case that it is skipped.
pub data Decision : Type 0 where
  leave wait_for_other run_it : Decision

abbrev pub begin_after : ℕ → Exporter → Exporter
begin_after i = change_lease i (λ l. record l { after_lease_hook_started = true })

abbrev pub finish_after_hook : ℕ → Exporter → Exporter
finish_after_hook i = change_lease i (λ l. record l { after_lease_hook_done = true })

-- `_handle_end_session`, woken by an event, up to its first wait
unfoldable pub decide_end_session : ℕ → Exporter → Exporter × Decision
decide_end_session i s =
    let l = s.leases i in
    if l.lease_ended && not l.end_session_requested
    then (s, leave)
    else if l.after_lease_hook_started
    then (s, wait_for_other)
    else (begin_after i s, run_it)

-- `if self.hook_executor and …: await run_after_lease_hook(...)`, or the other branch
abbrev pub run_hook_or :
    World → Processes → Option HookConfig → Bool → ℕ → (Exporter → Exporter) → Exporter → Exporter
run_hook_or w processes none wanted i otherwise s = otherwise s
run_hook_or w processes (some config) wanted i otherwise s =
    if wanted then run_after_lease_hook w processes config i s else otherwise s

abbrev pub carry_out_end_session : World → Processes → ℕ → Decision → Exporter → Exporter
carry_out_end_session w processes i leave s = s
carry_out_end_session w processes i wait_for_other s = finish_after_hook i (await w s)
carry_out_end_session w processes i run_it s =
    let l = s.leases i in
    finish_after_hook i (
      run_hook_or w processes s.hook_executor (has_client l && not l.skip_after_lease_hook) i
        (report_status w available "Available for new lease") s)

-- `_handle_end_session`
unfoldable pub handle_end_session : World → Processes → ℕ → Exporter → Exporter
handle_end_session w processes i s =
    let (s, decision) = decide_end_session i (await w s) in
    carry_out_end_session w processes i decision s

-- `_cleanup_after_lease` from the end of its wait for the beforeLease hook, the safety timeout
-- included, up to its next wait
unfoldable pub decide_cleanup : ℕ → Exporter → Exporter × Decision
decide_cleanup i s =
    let s = open_drivers i s in
    if not (s.leases i).after_lease_hook_started
    then (begin_after i s, run_it)
    else (s, wait_for_other)

abbrev pub carry_out_cleanup : World → Processes → ℕ → Decision → Exporter → Exporter
carry_out_cleanup w processes i leave s = s
carry_out_cleanup w processes i wait_for_other s = await w s
carry_out_cleanup w processes i run_it s =
    let l = s.leases i in
    finish_after_hook i (
      run_hook_or w processes s.hook_executor
        ((has_client l || s.standalone) && not l.skip_after_lease_hook) i
        (λ t.
          if not t.stop_requested then report_status w available "Available for new lease" t else t)
        s)

-- `_cleanup_after_lease`
unfoldable pub cleanup_after_lease : World → Processes → ℕ → Exporter → Exporter
cleanup_after_lease w processes i s =
    let (s, decision) = decide_cleanup i (await w s) in carry_out_cleanup w processes i decision s

-- `_skip_stale_lease`; the Boolean tells the caller to return
unfoldable pub skip_stale_lease : World → ℕ → Exporter → Exporter × Bool
skip_stale_lease w i s =
    if not (s.leases i).lease_ended
    then (s, false)
    else (let s = open_drivers i (skip_after i s) in
        let s =
          (if not s.stop_requested
            then report_status w available "Available for new lease" s
            else s) in
        (finish_after_hook i s, true))
