-- ===== src/Monitor.antt =====
-- client/status_monitor.py: a client's view of the exporter's status, polled in the background.
-- The sleeps between polls are left out, and the events of single statuses, which nothing waits on.
-- The stub is gRPC's: the answer to each poll is a parameter.
pub mod Polls
pub mod Waits
use jumpstarter.Common.{
  ℕ, zero, suc, ◌+◌, ◌-◌, ◌%◌, min, Bool, true, false, not, ◌&&◌, ◌||◌, Option, none, some, List,
  [], ◌∷◌, ◌++◌, ltb, leb, ◌==◌, String, if◌then◌else◌,
}
use jumpstarter.Status.{ExporterStatus, lease_ready, status_eq, from_proto}
use jumpstarter.Rpc.{StatusCode, unavailable, deadline_exceeded, unimplemented}

-- `jumpstarter_pb2.GetStatusResponse`
pub record GetStatusResponse : Type 0 where
  pub status : ℕ
  pub message : String
  pub status_version : ℕ
  pub previous_status : Option ℕ

-- What a poll comes to: a response, an `AioRpcError`, `NotImplementedError`, another exception.
pub data Answer : Type 0 where
  responds : GetStatusResponse → Answer
  grpc_error : StatusCode → Answer
  not_implemented : Answer
  fails : Answer

-- `changes` counts the events that have been set and replaced, `calls` is the callbacks' log. The
-- retry counters are the loop's own variables.
pub record Monitor : Type 0 where
  pub get_status_unsupported : Bool
  pub current_status : Option ExporterStatus
  pub status_message : String
  pub status_version : ℕ
  pub previous_status : Option ExporterStatus
  pub missed_transitions : ℕ
  pub running : Bool
  pub active_waiters : ℕ
  pub connection_lost : Bool
  pub changes : ℕ
  pub calls : List (ExporterStatus × Option ExporterStatus)
  pub deadline_retries : ℕ
  pub unavailable_retries : ℕ

-- `StatusMonitor(stub, get_status_unsupported=...)`
abbrev pub new_monitor : Bool → Monitor
new_monitor unsupported = record {
  get_status_unsupported = unsupported;
  current_status = none;
  status_message = "";
  status_version = 0;
  previous_status = none;
  missed_transitions = 0;
  running = false;
  active_waiters = 0;
  connection_lost = false;
  changes = 0;
  calls = [];
  deadline_retries = 0;
  unavailable_retries = 0;
}

-- `_signal_unsupported`
unfoldable pub signal_unsupported : Monitor → Monitor
signal_unsupported m = record m {
  get_status_unsupported = true;
  current_status = some lease_ready;
  running = false;
  changes = m.changes + 1;
}

-- `==` of cached statuses, `None` included
abbrev pub same_status : Option ExporterStatus → Option ExporterStatus → Bool
same_status none none = true
same_status none (some b) = false
same_status (some a) none = false
same_status (some a) (some b) = status_eq a b

-- The transitions that happened unseen between two versions.
abbrev pub missed_between : ℕ → ℕ → ℕ
missed_between old new = if ltb 0 old && ltb (old + 1) new then new - old - 1 else 0

-- What the loop does next.
pub data Next : Type 0 where
  sleep again exit : Next

-- The change events are fired and the callbacks called with the new and the old status.
abbrev pub notify : ExporterStatus → Option ExporterStatus → Monitor → Monitor
notify new old m =
    if not (same_status old (some new))
    then record m { changes = m.changes + 1; calls = m.calls ++ (new, old) ∷ [] }
    else m

-- A response whose numbers are known statuses.
abbrev pub accept : ExporterStatus → Option ExporterStatus → GetStatusResponse → Monitor → Monitor
accept new previous r m = notify new m.current_status (record m {
  connection_lost = false;
  deadline_retries = 0;
  unavailable_retries = 0;
  missed_transitions = m.missed_transitions + missed_between m.status_version r.status_version;
  current_status = some new;
  status_message = r.message;
  status_version = r.status_version;
  previous_status = previous;
})

-- `from_proto` of an optional number: outer `none` is the `ValueError`.
abbrev pub previous_of : Option ℕ → Option (Option ExporterStatus)
unfolding from_proto
previous_of none = some none
previous_of (some n) = elim (from_proto n) [ none ↦ none | some s ↦ some (some s) ]

-- An unknown status is a `ValueError`, which the last `except` swallows.
abbrev pub respond :
    Option ExporterStatus → Option (Option ExporterStatus) → GetStatusResponse → Monitor → Monitor
respond (some new) (some previous) r m = accept new previous r m
respond none previous r m = m
respond (some new) none r m = m

abbrev pub lose_connection : Monitor → Monitor
lose_connection m = record m { connection_lost = true; running = false; changes = m.changes + 1 }

-- `except AioRpcError`
abbrev pub poll_error : StatusCode → Monitor → Monitor × Next
unfolding signal_unsupported
poll_error unimplemented m = (signal_unsupported m, exit)
poll_error unavailable m = (record m { unavailable_retries = m.unavailable_retries + 1 }, sleep)
poll_error deadline_exceeded m =
    let m = record m { unavailable_retries = 0; deadline_retries = m.deadline_retries + 1 } in
    if leb 20 m.deadline_retries then (lose_connection m, exit) else (m, again)
poll_error _ m = (m, sleep)

-- One round of `_poll_loop`, up to its sleep.
unfoldable pub poll : Answer → Monitor → Monitor × Next
unfolding from_proto signal_unsupported
poll (responds r) m = (respond (from_proto r.status) (previous_of r.previous_status) r m, sleep)
poll not_implemented m = (signal_unsupported m, exit)
poll (grpc_error code) m = poll_error code m
poll fails m = (m, sleep)

-- The loop over the answers to its polls, while it runs; the sleeps are left out.
unfoldable pub poll_all : List Answer → Monitor → Monitor
poll_all [] m = m
poll_all (a ∷ as') m = let rest = poll_all as' (poll a m).0 in if m.running then rest else m
