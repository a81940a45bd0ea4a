-- ===== src/Client/Expiry/Ends.antt =====
-- The monitor of a lease whose end is fixed.
use jumpstarter.Client.Expiry.Known.{
  turn_breaks, turn_sleeps, turn_warns, latest, monitor-Over, Over,
}
use native.Mathlib.Decide.{dec_lt}
use jumpstarter.Client.Expiry.{
  LeaseTimes, Turn, breaks, sleeps, warns, turn, heard, get_lease_end_time, checked, unchecked,
  MonitorWorld, monitor_from, monitor,
}
use jumpstarter.Common.{
  ℕ, Option, none, some, ◌≡◌, ◌≤◌, arith, min, ◌<◌, ◌-◌, ◌⊎◌, inr, inl, refl, ◌+◌, ◌*◌, suc, true,
  zero, ◌≢◌,
}

-- An answer that gives this end time.
abbrev pub Says : ℕ → Option LeaseTimes → Type 0
unfolding get_lease_end_time
Says end_time answer =
    (lease : LeaseTimes) × (answer ≡ some lease) × (get_lease_end_time lease ≡ some end_time)

-- A turn ahead of a known end sleeps for 30 seconds, or until the end if that is sooner.
abbrev pub WaitsFor : ℕ → Turn → Type 0
WaitsFor remain t = (d : ℕ) × (d ≡ min 30000 remain) × ((t ≡ sleeps d) ⊎ (t ≡ warns remain d))

abbrev pub Known : ℕ → Option LeaseTimes → Option ℕ → Type 0
unfolding get_lease_end_time
Known end_time answer last = Says end_time answer ⊎ ((answer ≡ none) × (last ≡ some end_time))

module _ (threshold end_time : ℕ) where
  checked-over : (now : ℕ) → end_time < now → checked threshold (some end_time) now ≡ breaks
  checked-over now h = ground arith

  unchecked-over : (now : ℕ) → end_time < now → unchecked (some end_time) now ≡ breaks
  unchecked-over now h = ground arith

  checked-WaitsFor :
      (now : ℕ) → now ≤ end_time → WaitsFor (end_time - now) (checked threshold (some end_time) now)
  checked-WaitsFor now h = (min (end_time - now) 30000, omega arith, ground arith)

  unchecked-WaitsFor :
      (now : ℕ)
      → now ≤ end_time
      → (unchecked (some end_time) now ≡ breaks)
        ⊎ WaitsFor (end_time - now) (unchecked (some end_time) now)
  unchecked-WaitsFor now h = elim (dec_lt now end_time) [
    | yes before ↦ inr (min 30000 (end_time - now), refl, inl (ground arith))
    | no at ↦ inl (ground arith)
  ]

  turn-over :
      (answer : Option LeaseTimes) (last : Option ℕ) (now : ℕ)
      → Known end_time answer last
      → end_time < now
      → turn threshold answer now last ≡ breaks
  unfolding turn
  turn-over answer last now (inl (lease, e, t)) h = rw (e, t) (checked-over now h)
  turn-over answer last now (inr (e, l)) h = rw (e, l) (unchecked-over now h)

  turn-waits :
      (answer : Option LeaseTimes) (last : Option ℕ) (now : ℕ)
      → Known end_time answer last
      → now ≤ end_time
      → (turn threshold answer now last ≡ breaks)
        ⊎ WaitsFor (end_time - now) (turn threshold answer now last)
  unfolding turn
  turn-waits answer last now (inl (lease, e, t)) h = rw (e, t) (inr (checked-WaitsFor now h))
  turn-waits answer last now (inr (e, l)) h = rw (e, l) (unchecked-WaitsFor now h)

  heard-Known :
      (answer : Option LeaseTimes) (last : Option ℕ)
      → Known end_time answer last
      → heard answer last ≡ some end_time
  unfolding get_lease_end_time
  heard-Known answer last (inl (lease, e, t)) = ground (arith, e, t)
  heard-Known answer last (inr (e, l)) = ground (arith, e, l)

still-Known :
    (end_time : ℕ) (answer : Option LeaseTimes)
    → (answer ≡ none) ⊎ Says end_time answer
    → Known end_time answer (some end_time)
unfolding Known
still-Known end_time answer (inl e) = inr (e, refl)
still-Known end_time answer (inr s) = inl s

module _ (threshold end_time : ℕ) (w : MonitorWorld) (timely : (n : ℕ) → 1 ≤ w.took n) where
  -- The rest of a loop that has not got past the end.
  until_over :
      (fuel n now : ℕ) (last : Option ℕ)
      → Known end_time (w.check n) last
      → now + w.took n ≤ end_time
      → ((now' : ℕ)
          → end_time ≤ now' + 30000 * fuel
          → (monitor_from (suc fuel) threshold w (n + 1) now' (some end_time)).stopped ≡ true)
      → end_time ≤ now + 30000 * suc fuel
      → (monitor_from (suc (suc fuel)) threshold w n now last).stopped ≡ true
  until_over fuel n now last k before rest near =
      elim (turn-waits threshold end_time (w.check n) last (now + w.took n) k before) [
        | inl stops ↦ rw (turn_breaks (suc fuel) threshold w n now last stops) refl
        | inr (d, length, what) ↦
            let later = rest (now + w.took n + d + w.late n) (omega (arith, length, near)) in
            let known = heard-Known threshold end_time (w.check n) last k in
            elim what [
              | inl sleep ↦ rw (turn_sleeps (suc fuel) threshold w n now last d sleep, known) later
              | inr warn ↦
                  rw
                    (
                      turn_warns (suc fuel) threshold w n now last (end_time - (now + w.took n)) d
                          warn,
                      known,
                    )
                    later
            ]
      ]

  stops_at_end :
      ((n : ℕ) → (w.check n ≡ none) ⊎ Says end_time (w.check n))
      → (fuel n now : ℕ) (last : Option ℕ) → Known end_time (w.check n) last
      → end_time ≤ now + 30000 * fuel
      → (monitor_from (suc fuel) threshold w n now last).stopped ≡ true
  stops_at_end fixed zero n now last k near =
      rw
        (turn_breaks zero threshold w n now last (
          turn-over threshold end_time (w.check n) last (now + w.took n) k
            (omega (arith, timely n, near))))
        refl
  stops_at_end fixed (suc fuel) n now last k near = elim (dec_lt end_time (now + w.took n)) [
    | yes over ↦
        rw
          (turn_breaks (suc fuel) threshold w n now last
            (turn-over threshold end_time (w.check n) last (now + w.took n) k over))
          refl
    | no before ↦
        until_over fuel n now last k (omega (arith, before))
          (λ now' near'.
            stops_at_end fixed fuel (n + 1) now' (some end_time)
              (still-Known end_time (w.check (n + 1)) (fixed (n + 1))) near')
          near
  ]

latest_known :
    (end_time : ℕ) (w : MonitorWorld)
    → Says end_time (w.check 0)
    → ((n : ℕ) → (w.check n ≡ none) ⊎ Says end_time (w.check n))
    → (n : ℕ) → latest w (suc n) ≡ some end_time
unfolding latest
latest_known end_time w first fixed zero = heard-Known 0 end_time (w.check 0) none (inl first)
latest_known end_time w first fixed (suc n) = rw (latest_known end_time w first fixed n) (
    heard-Known 0 end_time (w.check (suc n)) (some end_time)
      (still-Known end_time (w.check (suc n)) (fixed (suc n))))

is_not_none : {t : ℕ} → none ≢ some t
is_not_none h = ground (arith, h)

one_end : {o : Option ℕ} {t u : ℕ} → o ≡ some t → o ≡ some u → t ≡ u
one_end h g = ground (arith, h, g)

ends_then :
    (end_time : ℕ) (w : MonitorWorld)
    → Says end_time (w.check 0)
    → ((n : ℕ) → (w.check n ≡ none) ⊎ Says end_time (w.check n))
    → (checks t : ℕ) → latest w checks ≡ some t
    → t ≡ end_time
unfolding latest
ends_then end_time w first fixed zero t h = absurd (is_not_none h)
ends_then end_time w first fixed (suc n) t h = one_end h (latest_known end_time w first fixed n)

-- A lease whose end time is fixed, heard at the first check and at each later one that does not fail:
-- where every check takes some time, the monitor stops within a check for each 30 seconds until the
-- end, and one more, having said that the lease has ended, and not before the end time.
pub monitor_ends :
    (threshold end_time fuel : ℕ) (w : MonitorWorld)
    → ((n : ℕ) → 1 ≤ w.took n)
    → Says end_time (w.check 0)
    → ((n : ℕ) → (w.check n ≡ none) ⊎ Says end_time (w.check n))
    → end_time ≤ 30000 * fuel
    → let m = monitor (suc fuel) threshold w in
      (m.stopped ≡ true) × (m.lease_ended ≡ true) × (end_time ≤ m.now)
unfolding monitor Over
monitor_ends threshold end_time fuel w timely first fixed enough =
    let m = monitor_from (suc fuel) threshold w 0 0 none in
    let stops =
      stops_at_end threshold end_time w timely fixed fuel 0 0 none (inl first)
        (omega (arith, enough)) in
    let over = monitor-Over (suc fuel) threshold w stops in
    let same = ends_then end_time w first fixed m.checks over.1 over.2 in
    (stops, over.0, omega (arith, same, over.3))
