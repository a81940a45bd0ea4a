-- ===== src/Monitor/Waits/Answers.antt =====
-- What the answer of a wait means.
use jumpstarter.Status.{ExporterStatus, lease_ready}
use jumpstarter.Monitor.{poll, Monitor, Answer, same_status, not_implemented}
use jumpstarter.Common.{◌≡◌, true, false, some, List, [], ◌∷◌, ◌⊎◌, Option, if◌then◌else◌, arith}
use jumpstarter.Monitor.Waits.{
  wait_for_status, wait_for_any_of, wait_for_first, wait_loop, verify, first_reached,
}

-- Some state shows the status.
abbrev pub Shows : ExporterStatus → List Monitor → Type 0
Shows target [] = ⊥
Shows target (m ∷ ms) = (same_status m.current_status (some target) ≡ true) ⊎ Shows target ms

-- The state after the verifying poll, if one is made.
abbrev pub verified : Answer → Monitor → Monitor
unfolding verify
verified answer m = if m.connection_lost then (verify answer m).0 else m

wait_loop-Shows :
    (target : ExporterStatus) (ms : List Monitor)
    → wait_loop target ms ≡ some true
    → Shows target ms
unfolding wait_loop
wait_loop-Shows target [] h = cc
wait_loop-Shows target (m ∷ ms) h = ground (arith, wait_loop-Shows target ms)

-- A wait for a status answers true only if the monitor showed that status at its start, after the
-- verifying poll where one is made, or at a change that the waiter saw.
wait_for_status-Shows :
    (target : ExporterStatus) (answer : Answer) (m : Monitor) (ms : List Monitor)
    → wait_for_status target answer m ms ≡ some true
    → Shows target (verified answer m ∷ ms)
unfolding wait_for_status
wait_for_status-Shows target answer m ms h =
    ground (arith, wait_loop-Shows target (verified answer m ∷ ms))

first_reached-eq :
    (targets : List ExporterStatus) (current : Option ExporterStatus) (t : ExporterStatus)
    → first_reached targets current ≡ some t
    → same_status current (some t) ≡ true
first_reached-eq [] current t h = cc
first_reached-eq (x ∷ xs) current t h = ground (arith, first_reached-eq xs current t)

wait_for_first-Shows :
    (targets : List ExporterStatus) (ms : List Monitor) (t : ExporterStatus)
    → wait_for_first targets ms ≡ some (some t)
    → Shows t ms
unfolding wait_for_first
wait_for_first-Shows targets [] t h = cc
wait_for_first-Shows targets (m ∷ ms) t h =
    ground (arith, wait_for_first-Shows targets ms t, first_reached-eq targets m.current_status t)

-- A wait for any of several statuses answers with a status only if the monitor showed that status,
-- likewise.
wait_for_any_of-Shows :
    (targets : List ExporterStatus) (answer : Answer) (m : Monitor) (ms : List Monitor)
    (t : ExporterStatus)
    → wait_for_any_of targets answer m ms ≡ some (some t)
    → Shows t (verified answer m ∷ ms)
unfolding wait_for_any_of
wait_for_any_of-Shows targets answer m ms t h = ground (
  arith,
  wait_for_first-Shows targets (verified answer m ∷ ms) t,
  first_reached-eq targets (verified answer m).current_status t,
)

-- When the poll loop finds GetStatus unsupported during a wait for LEASE_READY, and assumes
-- LEASE_READY, the two waits disagree: `wait_for_any_of` answers LEASE_READY, and
-- `wait_for_status` answers false.
unsupported_waits_disagree :
    (m : Monitor) (answer : Answer)
    → m.running ≡ true
    → m.connection_lost ≡ false
    → same_status m.current_status (some lease_ready) ≡ false
    → let u = (poll not_implemented m).0 in
      (same_status u.current_status (some lease_ready) ≡ true)
      × (wait_for_status lease_ready answer m (u ∷ []) ≡ some false)
      × (wait_for_any_of (lease_ready ∷ []) answer m (u ∷ []) ≡ some (some lease_ready))
unfolding wait_for_status wait_for_any_of poll
unsupported_waits_disagree m answer run live other = ground arith
