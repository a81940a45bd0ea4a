-- ===== src/Monitor/Waits.antt =====
-- client/status_monitor.py: `wait_for_status` and `wait_for_any_of`. A wait looks at the monitor
-- once when it begins and once after each change; `none` is a wait that goes on.
pub mod Answers
use jumpstarter.Rpc.{unavailable, deadline_exceeded}
use jumpstarter.Status.{ExporterStatus, from_proto}
use jumpstarter.Common.{
  true, false, none, some, List, [], ◌∷◌, Option, Bool, if◌then◌else◌, ◌&&◌, not, is_some,
}
use jumpstarter.Monitor.{Monitor, Answer, responds, same_status, grpc_error, not_implemented, fails}

-- The poll by which a wait begins when the connection is marked as lost: the new state, and whether
-- the wait goes on.
unfoldable pub verify : Answer → Monitor → Monitor × Bool
verify (responds r) m =
    let m = record m { connection_lost = false } in
    elim (from_proto r.status) [
      | none ↦ (m, false)
      | some new ↦ (
        record m {
          current_status = some new;
          status_message = r.message;
          status_version = r.status_version;
        },
        true,
      )
    ]
verify (grpc_error unavailable) m = (m, false)
verify (grpc_error deadline_exceeded) m = (m, false)
verify (grpc_error code) m = (m, true)
verify not_implemented m = (m, false)
verify fails m = (m, false)

-- `wait_loop`, over the states of the monitor that the waiter sees
unfoldable pub wait_loop : ExporterStatus → List Monitor → Option Bool
wait_loop target [] = none
wait_loop target (m ∷ ms) =
    let rest = wait_loop target ms in
    if m.running && not m.connection_lost
    then (if same_status m.current_status (some target) then some true else rest)
    else some false

-- `wait_for_status`, with no timeout: the monitor at its start, the answer to a verifying poll, and
-- the states seen while it waits
unfoldable pub wait_for_status : ExporterStatus → Answer → Monitor → List Monitor → Option Bool
unfolding verify wait_loop
wait_for_status target answer m ms =
    let (v, goes_on) = (if m.connection_lost then verify answer m else (m, true)) in
    if not goes_on
    then some false
    else if same_status v.current_status (some target)
    then some true
    else wait_loop target (v ∷ ms)

-- The first of the targets that is the current status.
abbrev pub first_reached : List ExporterStatus → Option ExporterStatus → Option ExporterStatus
first_reached [] current = none
first_reached (t ∷ ts) current =
    let rest = first_reached ts current in if same_status current (some t) then some t else rest

-- `wait_for_first`; the inner `none` is the answer `None`
unfoldable pub wait_for_first : List ExporterStatus → List Monitor → Option (Option ExporterStatus)
wait_for_first targets [] = none
wait_for_first targets (m ∷ ms) =
    let rest = wait_for_first targets ms in
    let now = first_reached targets m.current_status in
    if m.running && not m.connection_lost
    then (if is_some now then some now else rest)
    else some now

-- `wait_for_any_of`, with no timeout
unfoldable pub wait_for_any_of :
    List ExporterStatus → Answer → Monitor → List Monitor → Option (Option ExporterStatus)
unfolding verify wait_for_first
wait_for_any_of targets answer m ms =
    let (v, goes_on) = (if m.connection_lost then verify answer m else (m, true)) in
    let now = first_reached targets v.current_status in
    if not goes_on
    then some none
    else if is_some now
    then some now
    else wait_for_first targets (v ∷ ms)
