-- ===== src/Supervisor/Exits.antt =====
-- From a hook that fails, through the exit code of the exporter and of its process, to the supervisor.
use jumpstarter.Supervisor.{
  FailureDetection, Child, serve_with_exc_handling, handle_parent, serve_from, child_exit_code,
  exit_status,
}
use jumpstarter.Lease.{is_ready}
use jumpstarter.Exporter.{World, Exporter, await, HookConfig, HookInstance}
use jumpstarter.Exporter.Reports.{report_status}
use jumpstarter.Exporter.Keeps.{Keeps}
use jumpstarter.Exporter.Hooks.{Processes, execute_hook, after_lease}
use jumpstarter.Exporter.Hooks.After.{run_after_lease_hook}
use jumpstarter.Exporter.Hooks.After.Outcome.{run_after_lease_hook-result, exits, AfterOutcome}
use jumpstarter.Status.{after_lease_hook}
use jumpstarter.Common.{
  ℕ, Bool, true, false, none, some, List, [], ◌∷◌, ◌++◌, ◌≡◌, refl, arith, str_eq, ◌+◌,
}

module _ (detection : FailureDetection) (exit_on_lease_end : Bool) where
  -- A child after which the supervisor exits, whatever it has counted before.
  serve_from-exits :
      (before rest : List Child) (child : Child) (code count : ℕ)
      → handle_parent child.status ≡ some code
      → serve_from detection exit_on_lease_end count before ≡ none
      → serve_from detection exit_on_lease_end count (before ++ child ∷ rest) ≡ some code
  unfolding serve_from
  serve_from-exits [] rest child code count ends h = ground (arith, ends)
  serve_from-exits (c ∷ cs) rest child code count ends h = ground (
    arith,
    h,
    serve_from-exits cs rest child code (count + 1) ends,
    serve_from-exits cs rest child code 0 ends,
  )

exits_one :
    (t : Exporter) (child : Child)
    → t.exit_code ≡ some 1
    → child.status ≡ exit_status (child_exit_code 0 t.exit_code)
    → handle_parent child.status ≡ some 1
unfolding handle_parent child_exit_code
exits_one t child h e = rw (e, h) refl

outcome_exits :
    (w : World) (i : ℕ) (b : Bool) (v t : Exporter)
    → b ≡ true
    → AfterOutcome w i b v t
    → t.exit_code ≡ some 1
outcome_exits w i true v t h o = o.5
outcome_exits w i false v t h o = absurd (ground (arith, h))

module _ (w : World) (k : Keeps w) (i : ℕ) where
  -- An afterLease hook that fails with `on_failure=exit`, in an exporter whose session is there and
  -- which drains its statuses to a controller, with a named lease in the slot and other tasks that
  -- leave the slot, the serving of statuses, the names, the exit code and a requested stop as they
  -- are, and may make calls: when its process ends with the exit code that the exporter has then,
  -- and no signal, the supervisor exits with 1, after whatever children it has started again before,
  -- and starts no other.
  pub hook_failure-exits :
      (processes : Processes) (config : HookConfig) (hook : HookInstance) (s : Exporter)
      → let u = report_status w after_lease_hook "Running afterLease hooks" s in
        let v = await w u in
        is_ready (s.leases i) ≡ true
        → config.after_lease ≡ some hook
        → v.started ≡ true
        → v.standalone ≡ false
        → v.status_drain_active ≡ true
        → v.lease_context ≡ some i
        → str_eq (v.leases i).lease_name "" ≡ false
        → exits (execute_hook processes after_lease hook i u) ≡ true
        → (detection : FailureDetection) (exit_on_lease_end : Bool) (before rest : List Child)
          (child : Child)
        → child.status
          ≡ exit_status (child_exit_code 0 (run_after_lease_hook w processes config i s).exit_code)
        → serve_with_exc_handling detection exit_on_lease_end before ≡ none
        → serve_with_exc_handling detection exit_on_lease_end (before ++ child ∷ rest) ≡ some 1
  unfolding serve_with_exc_handling
  hook_failure-exits processes config hook s ready hooked begun alone drain slot named out detection
        exit_on_lease_end before rest child status still =
      let u = report_status w after_lease_hook "Running afterLease hooks" s in
      let t = run_after_lease_hook w processes config i s in
      let outcome =
        run_after_lease_hook-result w k i processes config hook s ready hooked begun alone drain
          slot named in
      let one : t.exit_code ≡ some 1 =
        outcome_exits w i (exits (execute_hook processes after_lease hook i u)) (await w u) t out
          outcome in
      serve_from-exits detection exit_on_lease_end before rest child 1 0
        (exits_one t child one status) still
