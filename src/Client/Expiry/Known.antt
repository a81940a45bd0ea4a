-- ===== src/Client/Expiry/Known.antt =====
-- What the end of a lease rests on.
use mathlib.Core.Path.{subst}
use jumpstarter.Client.Expiry.{
  MonitorWorld, Monitored, LeaseTimes, Turn, breaks, sleeps, warns, turn, heard, monitor_from,
  monitor, get_lease_end_time, checked, unchecked, notify_lease_ending,
}
use jumpstarter.Common.{
  ℕ, zero, suc, ◌+◌, true, false, Option, none, some, ◌≡◌, ◌≤◌, arith, refl, [],
}

-- The end time that the first n checks have left known.
unfoldable pub latest : MonitorWorld → ℕ → Option ℕ
unfolding get_lease_end_time
latest w zero = none
latest w (suc n) = heard (w.check n) (latest w n)

-- The flag is set and the end time heard last has come.
unfoldable pub Over : MonitorWorld → Monitored → Type 0
unfolding latest
Over w m =
    (m.lease_ended ≡ true)
    × (end_time : ℕ) × (latest w m.checks ≡ some end_time)
    × (end_time ≤ m.now)

unchecked-breaks :
    (last : Option ℕ) (now : ℕ)
    → unchecked last now ≡ breaks
    → (t : ℕ) × (last ≡ some t) × (t ≤ now)
unchecked-breaks none now h = absurd (ground arith)
unchecked-breaks (some t) now h = (t, refl, ground arith)

checked-breaks :
    (threshold : ℕ) (end : Option ℕ) (now : ℕ)
    → checked threshold end now ≡ breaks
    → (t : ℕ) × (end ≡ some t) × (t ≤ now)
checked-breaks threshold none now h = absurd (ground arith)
checked-breaks threshold (some t) now h = (t, refl, ground arith)

turn-breaks :
    (threshold : ℕ) (c : Option LeaseTimes) (now : ℕ) (last : Option ℕ)
    → turn threshold c now last ≡ breaks
    → (t : ℕ) × (heard c last ≡ some t) × (t ≤ now)
unfolding turn
turn-breaks threshold none now last h = unchecked-breaks last now h
turn-breaks threshold (some lease) now last h =
    let r = checked-breaks threshold (get_lease_end_time lease) now h in
    (r.0, ground (arith, r.1), r.2)

pub turn_breaks :
    (fuel threshold : ℕ) (w : MonitorWorld) (n now : ℕ) (last : Option ℕ)
    → turn threshold (w.check n) (now + w.took n) last ≡ breaks
    → monitor_from (suc fuel) threshold w n now last
      ≡ notify_lease_ending w 0 (record {
        lease_ended = false;
        calls = [];
        stopped = true;
        checks = n + 1;
        now = now + w.took n;
      })
unfolding monitor_from
turn_breaks fuel threshold w n now last e = ground (arith, e)

pub turn_sleeps :
    (fuel threshold : ℕ) (w : MonitorWorld) (n now : ℕ) (last : Option ℕ) (d : ℕ)
    → turn threshold (w.check n) (now + w.took n) last ≡ sleeps d
    → monitor_from (suc fuel) threshold w n now last
      ≡ monitor_from fuel threshold w
          (n + 1)
          (now + w.took n + d + w.late n)
          (heard (w.check n) last)
unfolding monitor_from
turn_sleeps fuel threshold w n now last d e = ground (arith, e)

pub turn_warns :
    (fuel threshold : ℕ) (w : MonitorWorld) (n now : ℕ) (last : Option ℕ) (remain d : ℕ)
    → turn threshold (w.check n) (now + w.took n) last ≡ warns remain d
    → monitor_from (suc fuel) threshold w n now last
      ≡ notify_lease_ending w remain (
          monitor_from fuel threshold w
            (n + 1)
            (now + w.took n + d + w.late n)
            (heard (w.check n) last))
unfolding monitor_from
turn_warns fuel threshold w n now last remain d e = ground (arith, e)

notify-Over :
    (w : MonitorWorld) (remain : ℕ) (m : Monitored)
    → Over w m
    → Over w (notify_lease_ending w remain m)
unfolding Over
notify-Over w remain m o = (ground (arith, o.0), o.1, o.2, o.3)

module _ (threshold : ℕ) (w : MonitorWorld) where
  by_turn :
      (fuel n now : ℕ) (t : Turn)
      → turn threshold (w.check n) (now + w.took n) (latest w n) ≡ t
      → ((now' : ℕ)
          → (monitor_from fuel threshold w (n + 1) now' (latest w (suc n))).stopped ≡ true
          → Over w (monitor_from fuel threshold w (n + 1) now' (latest w (suc n))))
      → (monitor_from (suc fuel) threshold w n now (latest w n)).stopped ≡ true
      → Over w (monitor_from (suc fuel) threshold w n now (latest w n))
  unfolding Over
  by_turn fuel n now breaks e rest h =
      let r = turn-breaks threshold (w.check n) (now + w.took n) (latest w n) e in
      let one_more : n + 1 ≡ suc n = omega arith in
      rw (turn_breaks fuel threshold w n now (latest w n) e) (refl, r.0, rw one_more r.1, r.2)
  by_turn fuel n now (sleeps d) e rest h =
      let here = turn_sleeps fuel threshold w n now (latest w n) d e in
      rw here (rest (now + w.took n + d + w.late n) (rw here at h))
  by_turn fuel n now (warns remain d) e rest h =
      let here = turn_warns fuel threshold w n now (latest w n) remain d e in
      let now' = now + w.took n + d + w.late n in
      rw here (
        notify-Over w remain (monitor_from fuel threshold w (n + 1) now' (latest w (suc n)))
          (rest now' (rw here at h)))

  monitor_from-Over :
      (fuel n now : ℕ)
      → (monitor_from fuel threshold w n now (latest w n)).stopped ≡ true
      → Over w (monitor_from fuel threshold w n now (latest w n))
  unfolding monitor_from
  monitor_from-Over zero n now h = absurd (ground (arith, h))
  monitor_from-Over (suc fuel) n now h =
      by_turn fuel n now (turn threshold (w.check n) (now + w.took n) (latest w n)) refl
        (λ now'.
          subst
            (λ k.
              (monitor_from fuel threshold w k now' (latest w (suc n))).stopped ≡ true
              → Over w (monitor_from fuel threshold w k now' (latest w (suc n))))
            (omega arith) (monitor_from-Over fuel (suc n) now'))
        h

-- When the monitor of a lease stops, whatever the number of checks that are looked at, it has said
-- that the lease has ended, and the end time that it heard last has come, by the clock at its last
-- check.
pub monitor-Over :
    (fuel threshold : ℕ) (w : MonitorWorld)
    → (monitor fuel threshold w).stopped ≡ true
    → Over w (monitor fuel threshold w)
unfolding monitor latest
monitor-Over fuel threshold w = monitor_from-Over threshold w fuel 0 0
