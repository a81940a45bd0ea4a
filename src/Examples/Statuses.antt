-- ===== src/Examples/Statuses.antt =====
-- Statuses, calls, sessions, monitors and packets at concrete inputs.
use jumpstarter.Rpc.Retry.{asks_again, verdict, verdict_code, backoff_before, retry_rpc_total}
use jumpstarter.Monitor.Polls.{
  Trouble, Shown, responses, troubles, times_out, lost-iff-timeouts, rises, is_unavailable,
  missed-add-rises,
}
use jumpstarter.Common.{
  ℕ, List, false, ◌≡◌, ◌≤◌, some, true, ◌<◌, [], ◌+◌, ◌∷◌, none, arith, ◌⊎◌, refl, suc, zero,
}
use jumpstarter.Rpc.{retry_rpc, RpcOutcome, returned, rpc_error, unavailable, permission_denied}
use jumpstarter.Monitor.{poll_all, Monitor, new_monitor}
use jumpstarter.Status.{lease_ready, available, before_lease_hook}

-- Unavailable twice, then a refusal.
abbrev flaky : ℕ → RpcOutcome
flaky zero = rpc_error unavailable
flaky (suc zero) = rpc_error unavailable
flaky _ = rpc_error permission_denied

retry_rpc_total_example :
    (n : ℕ) × (n ≤ 20)
    × ((j : ℕ) → j < n → asks_again (λ _. false) (flaky j) ≡ true)
    × ((n ≡ 20) ⊎ (asks_again (λ _. false) (flaky n) ≡ false))
    × (retry_rpc flaky (λ _. false)
        ≡ returned (verdict (flaky n)) (verdict_code (flaky n)) n (backoff_before n))
retry_rpc_total_example = retry_rpc_total flaky (λ _. false)

-- A monitor that runs and has seen version 3.
abbrev watching : Monitor
watching = record (new_monitor false) {
  running = true;
  current_status = some available;
  status_version = 3;
}

abbrev later : List Shown
later =
    record { status = available; message = ""; version = 3; previous = none }
    ∷ record {
      status = lease_ready;
      message = "ready";
      version = 6;
      previous = some before_lease_hook;
    }
    ∷ []

missed-add-rises_example :
    (poll_all (responses later) watching).missed_transitions + rises 3 later + 3
    ≡ 0 + (poll_all (responses later) watching).status_version
missed-add-rises_example =
    missed-add-rises later watching refl (omega arith) (omega arith, (omega arith, record {}))

abbrev two_timeouts : List Trouble
two_timeouts = times_out ∷ is_unavailable ∷ times_out ∷ []

abbrev tired : Monitor
tired = record watching { deadline_retries = 18 }

lost-iff-timeouts_example :
    ((poll_all (troubles two_timeouts) tired).connection_lost ≡ true)
    × ((poll_all (troubles two_timeouts) tired).running ≡ false)
lost-iff-timeouts_example = lost-iff-timeouts two_timeouts tired refl refl (omega arith)
