-- ===== src/Client/Expiry.antt =====
-- client/lease.py, `monitor_async`: the task that watches a lease until its end. Times are in
-- milliseconds from its start. The answers of `get`, the time that each takes and the time by which
-- each sleep is late are parameters. The log is not modelled.
pub mod Known
pub mod Ends
use jumpstarter.Common.{
  ℕ, zero, suc, ◌+◌, ◌-◌, min, Bool, true, false, ◌&&◌, ◌||◌, Option, none, some, List, [], ◌∷◌,
  leb, ltb, ◌==◌, if◌then◌else◌,
}

-- The times of a lease that are read.
pub record LeaseTimes : Type 0 where
  pub effective_end_time : Option ℕ
  pub effective_begin_time : Option ℕ
  pub duration : ℕ

abbrev pub begin_and_duration : Option ℕ → ℕ → Option ℕ
begin_and_duration none duration = none
begin_and_duration (some start) duration = if duration == 0 then none else some (start + duration)

abbrev pub end_time_of : Option ℕ → LeaseTimes → Option ℕ
end_time_of (some end_time) lease = some end_time
end_time_of none lease = begin_and_duration lease.effective_begin_time lease.duration

-- `_get_lease_end_time`
unfoldable pub get_lease_end_time : LeaseTimes → Option ℕ
get_lease_end_time lease = end_time_of lease.effective_end_time lease

-- `check` is the answer of the nth `get`, none for an exception; `callback` tells whether
-- `lease_ending_callback` is set.
pub record MonitorWorld : Type 0 where
  pub check : ℕ → Option LeaseTimes
  pub took : ℕ → ℕ
  pub late : ℕ → ℕ
  pub callback : Bool

-- The flag, the times that were handed to the callback, whether the loop was left, how many checks
-- there were, and the time of the last.
pub record Monitored : Type 0 where
  pub lease_ended : Bool
  pub calls : List ℕ
  pub stopped : Bool
  pub checks : ℕ
  pub now : ℕ

-- `_notify_lease_ending`, ahead of what comes after it
abbrev pub notify_lease_ending : MonitorWorld → ℕ → Monitored → Monitored
notify_lease_ending w remaining m = record m {
  lease_ended = remaining == 0 || m.lease_ended;
  calls = if w.callback then remaining ∷ m.calls else m.calls;
}

-- What one turn of the loop does.
pub data Turn : Type 0 where
  breaks : Turn
  sleeps : ℕ → Turn
  warns : ℕ → ℕ → Turn

abbrev pub unchecked : Option ℕ → ℕ → Turn
unchecked none now = sleeps 30000
unchecked (some end_time) now =
    if leb end_time now then breaks else sleeps (min 30000 (end_time - now))

abbrev pub checked : ℕ → Option ℕ → ℕ → Turn
checked threshold none now = sleeps 1000
checked threshold (some end_time) now =
    let remain = end_time - now in
    if ltb end_time now
    then breaks
    else if leb threshold (remain + 30000) && ltb remain threshold
    then warns remain (min remain 30000)
    else sleeps (min remain 30000)

unfoldable pub turn : ℕ → Option LeaseTimes → ℕ → Option ℕ → Turn
unfolding get_lease_end_time
turn threshold none now last_known = unchecked last_known now
turn threshold (some lease) now last_known = checked threshold (get_lease_end_time lease) now

abbrev pub or_last : Option ℕ → Option ℕ → Option ℕ
or_last none last_known = last_known
or_last (some end_time) last_known = some end_time

-- `last_known_end_time` after a check
abbrev pub heard : Option LeaseTimes → Option ℕ → Option ℕ
unfolding get_lease_end_time
heard none last_known = last_known
heard (some lease) last_known = or_last (get_lease_end_time lease) last_known

-- The loop of `_monitor` from the nth check on, for as many checks as there is fuel.
unfoldable pub monitor_from : ℕ → ℕ → MonitorWorld → ℕ → ℕ → Option ℕ → Monitored
unfolding turn
monitor_from zero threshold w n now last_known = record {
  lease_ended = false;
  calls = [];
  stopped = false;
  checks = n;
  now = now;
}
monitor_from (suc fuel) threshold w n now last_known =
    let now = now + w.took n in
    let last_known' = heard (w.check n) last_known in
    elim (turn threshold (w.check n) now last_known) [
      | breaks ↦
          notify_lease_ending w 0
            (record { lease_ended = false; calls = []; stopped = true; checks = n + 1; now = now })
      | sleeps delay ↦ monitor_from fuel threshold w (n + 1) (now + delay + w.late n) last_known'
      | warns remain delay ↦
          notify_lease_ending w remain
            (monitor_from fuel threshold w (n + 1) (now + delay + w.late n) last_known')
    ]

-- `_monitor` for a number of checks
unfoldable pub monitor : ℕ → ℕ → MonitorWorld → Monitored
unfolding monitor_from
monitor fuel threshold w = monitor_from fuel threshold w 0 0 none
