-- ===== src/Client/Acquire/Decides.antt =====
-- What decides the acquisition of a lease.
use mathlib.Core.Path.{subst}
use jumpstarter.Client.Conditions.{condition_true}
use jumpstarter.Client.Acquire.{
  Verdict, judge, LeaseInfo, Creation, Controller, Poll, acquire_from, created, judge_poll, ready,
  acquired, stops, got, waits, create_fails, no_exporter, Acquired, get_fails,
}
use jumpstarter.Common.{
  Option, ℕ, String, true, ◌<◌, ◌≡◌, some, suc, none, ◌+◌, ◌≢◌, zero, arith, refl, ap,
}

-- The name of the lease at the nth poll of a loop that begins with a name at poll `start`: it is
-- given anew by each creation, and a creation that fails gives none.
abbrev pub renamed : Verdict → Creation → String → Option String
renamed no_exporter (created name') name = some name'
renamed no_exporter create_fails name = none
renamed v creation name = some name

abbrev pub and_then : Option String → (String → Option String) → Option String
and_then none f = none
and_then (some a) f = f a

abbrev pub name_after : Controller → ℕ → ℕ → String → Option String
unfolding judge
name_after c start zero name = some name
name_after c start (suc k) name =
    and_then (renamed (judge_poll (c.poll start name)) (c.create (start + 1) (some name)) name)
      (λ name'. name_after c (start + 1) k name')

-- What an acquisition that is said to be ready rests on.
abbrev pub Found : ℕ → ℕ → Controller → String → String → String → Type 0
Found left start c name got_name exporter =
    (k : ℕ) × (info : LeaseInfo) × (k < left)
    × (name_after c start k name ≡ some got_name)
    × (c.poll (start + k) got_name ≡ got info)
    × (condition_true info.conditions "Ready" ≡ true)
    × (info.exporter ≡ exporter)

judge-ready :
    (p : Poll) (exporter : String)
    → judge_poll p ≡ ready exporter
    → (info : LeaseInfo) × (p ≡ got info)
      × (condition_true info.conditions "Ready" ≡ true)
      × (info.exporter ≡ exporter)
unfolding judge
judge-ready (got info) exporter h = (info, refl, ground arith, ground arith)
judge-ready get_fails exporter h = absurd (ground arith)

-- A poll that stops the loop never says that the lease is acquired.
judge-stops : (p : Poll) (o : Acquired) (n e : String) → judge_poll p ≡ stops o → o ≢ acquired n e
unfolding judge
judge-stops (got info) o n e h = ground arith
judge-stops get_fails o n e h = ground arith

module _ (c : Controller) (got_name exporter : String) where
  later-Found :
      (left start : ℕ) (name name' : String)
      → renamed (judge_poll (c.poll start name)) (c.create (start + 1) (some name)) name
        ≡ some name'
      → Found left (start + 1) c name' got_name exporter
      → Found (suc left) start c name got_name exporter
  unfolding name_after
  later-Found left start name name' e f = (
    suc f.0,
    f.1,
    omega (arith, f.2),
    rw e f.3,
    subst (λ m. c.poll m got_name ≡ got f.1) (omega arith) f.4,
    f.5,
    f.6,
  )

  -- What follows a creation of the lease anew.
  after_creation :
      (left start : ℕ) (name : String) (creation : Creation)
      → judge_poll (c.poll start name) ≡ no_exporter
      → c.create (start + 1) (some name) ≡ creation
      → acquire_from (suc left) start c name ≡ acquired got_name exporter
      → ((name' : String)
          → acquire_from left (start + 1) c name' ≡ acquired got_name exporter
          → Found left (start + 1) c name' got_name exporter)
      → Found (suc left) start c name got_name exporter
  unfolding acquire_from
  after_creation left start name create_fails j e h rest = absurd (ground (arith, j, e, h))
  after_creation left start name (created name') j e h rest =
      later-Found left start name name' (ground (arith, j, e))
        (rest name' (ground (arith, j, e, h)))

  by_verdict :
      (left start : ℕ) (name : String) (v : Verdict)
      → judge_poll (c.poll start name) ≡ v
      → acquire_from (suc left) start c name ≡ acquired got_name exporter
      → ((name' : String)
          → acquire_from left (start + 1) c name' ≡ acquired got_name exporter
          → Found left (start + 1) c name' got_name exporter)
      → Found (suc left) start c name got_name exporter
  unfolding acquire_from
  by_verdict left start name (stops o) j h rest =
      absurd (judge-stops (c.poll start name) o got_name exporter j (ground (arith, j, h)))
  by_verdict left start name waits j h rest =
      later-Found left start name name (ground (arith, j)) (rest name (ground (arith, j, h)))
  by_verdict left start name no_exporter j h rest =
      after_creation left start name (c.create (start + 1) (some name)) j refl h rest
  by_verdict left start name (ready e) j h rest =
      let r = judge-ready (c.poll start name) e j in
      let same : acquired name e ≡ acquired got_name exporter = ground (arith, j, h) in
      let names : name ≡ got_name = ground (arith, same) in
      let first : start + 0 ≡ start = omega arith in
      (
        0,
        r.0,
        omega arith,
        ap some names,
        rw first (subst (λ m. c.poll start m ≡ got r.0) names r.1),
        r.2,
        ground (arith, same, r.3),
      )

  -- When the loop ends with an acquired lease, some poll found that lease ready.
  pub acquire_from-Found :
      (left start : ℕ) (name : String)
      → acquire_from left start c name ≡ acquired got_name exporter
      → Found left start c name got_name exporter
  acquire_from-Found zero start name h = absurd (unfold acquire_from in ground (arith, h))
  acquire_from-Found (suc left) start name h =
      by_verdict left start name (judge_poll (c.poll start name)) refl h
        (λ name' h'. acquire_from-Found left (start + 1) name' h')
