-- ===== src/Exporter/Ending/Claims.antt =====
-- The afterLease hook of a lease is one task's to run, however the tasks take turns.
use jumpstarter.Exporter.Hooks.{open_drivers}
use jumpstarter.Exporter.Events.{Grows}
use jumpstarter.Exporter.{Exporter}
use jumpstarter.Common.{ℕ, ◌≤◌, ◌≡◌, arith, List, true, ◌∷◌, ◌+◌, [], refl, if◌then◌else◌}
use jumpstarter.Exporter.Ending.{
  decide_end_session, Decision, decide_cleanup, leave, run_it, begin_after,
}

-- A turn of one of the two tasks, up to its wait, or anything that the other tasks do.
pub data Turn : Type 0 where
  end_session cleanup : Turn
  other : (Exporter → Exporter) → Turn

-- The state after a turn, and whether the hook became the task's to run.
unfoldable pub turn : ℕ → Turn → Exporter → Exporter × Decision
unfolding decide_end_session decide_cleanup
turn i end_session s = decide_end_session i s
turn i cleanup s = decide_cleanup i s
turn i (other f) s = (f s, leave)

abbrev pub claimed : Decision → ℕ
claimed run_it = 1
claimed _ = 0

-- How often the hook became a task's to run, over a sequence of turns.
unfoldable pub claims : ℕ → List Turn → Exporter → ℕ
unfolding turn
claims i [] s = 0
claims i (t ∷ ts) s = claimed (turn i t s).1 + claims i ts (turn i t s).0

-- The other tasks clear no event of a lease.
abbrev pub Clears : Turn → Type 0
Clears (other f) = (s : Exporter) → Grows s (f s)
Clears _ = Unit {0}

abbrev pub AllKeep : List Turn → Type 0
AllKeep [] = Unit {0}
AllKeep (t ∷ ts) = Clears t × AllKeep ts

started_claims :
    (i : ℕ) (ts : List Turn) (s : Exporter)
    → AllKeep ts
    → (s.leases i).after_lease_hook_started ≡ true
    → claims i ts s ≡ 0
unfolding claims
started_claims i [] s k h = refl
started_claims i (end_session ∷ ts) s k h = ground (arith, started_claims i ts s k.1)
started_claims i (cleanup ∷ ts) s k h = ground (arith, started_claims i ts (open_drivers i s) k.1)
started_claims i (other f ∷ ts) s k h =
    omega (arith, started_claims i ts (f s) k.1 ((k.0 s i).begun h))

-- In every sequence of turns of the EndSession handler and of the cleanup of a lease, with
-- whatever the other tasks do between them short of clearing an event, the afterLease hook becomes
-- a task's to run at most once, and not at all if it had been started.
pub claims-le-one :
    (i : ℕ) (ts : List Turn) (s : Exporter)
    → AllKeep ts
    → claims i ts s ≤ (if (s.leases i).after_lease_hook_started then 0 else 1)
unfolding claims
claims-le-one i [] s k = omega arith
claims-le-one i (end_session ∷ ts) s k =
    ground (arith, claims-le-one i ts s k.1, started_claims i ts (begin_after i s) k.1)
claims-le-one i (cleanup ∷ ts) s k =
    let o = open_drivers i s in
    ground (arith, claims-le-one i ts o k.1, started_claims i ts (begin_after i o) k.1)
claims-le-one i (other f ∷ ts) s k = ground (arith, claims-le-one i ts (f s) k.1, k.0 s i)
