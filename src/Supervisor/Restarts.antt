-- ===== src/Supervisor/Restarts.antt =====
-- When the supervisor gives an exporter up.
use mathlib.Core.Path.{subst}
use jumpstarter.Supervisor.{
  FailureDetection, Child, serve_with_exc_handling, handle_parent, serve_from, is_rapid,
}
use jumpstarter.Common.{
  starts_run, any_run, starts_run_less, any_run_starts, List, ℕ, ◌+◌, ◌∷◌, ◌<◌, ◌≡◌, suc, ◌||◌,
  true, none, false, [], arith, zero, if◌then◌else◌, refl, some, Bool-cases, Option, ◌-◌, inl, sym,
  inr, ◌∙◌,
}

-- Every child asks for another one.
abbrev pub AllRestart : List Child → Type 0
AllRestart [] = Unit {0}
AllRestart (c ∷ cs) = (handle_parent c.status ≡ none) × AllRestart cs

module _ (config : FailureDetection) (m : ℕ) (most : config.max_rapid_failures ≡ suc m) where
  -- The code is 1 if the run of rapid failures is completed by the next ones, or another is found.
  abbrev given_up : ℕ → List Child → Option ℕ
  given_up left cs =
      if starts_run (is_rapid config) (suc left) cs || any_run (is_rapid config) (suc m) cs
      then some 1
      else none

  given_first :
      (cs : List Child)
      → given_up m cs ≡ (if any_run (is_rapid config) (suc m) cs then some 1 else none)
  given_first cs = ground (arith, any_run_starts (is_rapid config) (suc m) cs)

  long_child :
      (c : Child) (cs : List Child) (left : ℕ)
      → is_rapid config c ≡ false
      → given_up left (c ∷ cs) ≡ (if any_run (is_rapid config) (suc m) cs then some 1 else none)
  long_child c cs left h = rw h

  last_rapid :
      (c : Child) (cs : List Child) → is_rapid config c ≡ true → given_up 0 (c ∷ cs) ≡ some 1
  last_rapid c cs h = rw h

  next_rapid :
      (c : Child) (cs : List Child) (left : ℕ)
      → left < m
      → is_rapid config c ≡ true
      → given_up (suc left) (c ∷ cs) ≡ given_up left cs
  next_rapid c cs left h r = ground (arith, r, starts_run_less (is_rapid config) (suc left) m cs)

  serve_from-rapid :
      (left count : ℕ) (cs : List Child)
      → AllRestart cs
      → count + left ≡ m
      → serve_from config false count cs ≡ given_up left cs
  unfolding serve_from
  serve_from-rapid left count [] all e = refl
  serve_from-rapid zero count (c ∷ cs) all e = elim (Bool-cases (is_rapid config c)) [
    | inl short ↦ rw (last_rapid c cs short) (ground (arith, all.0, most, short))
    | inr long ↦
        rw (long_child c cs 0 long)
          (ground (arith, all.0, long, serve_from-rapid m 0 cs all.1 (omega arith), given_first cs))
  ]
  serve_from-rapid (suc left) count (c ∷ cs) all e = elim (Bool-cases (is_rapid config c)) [
    | inl short ↦ rw (next_rapid c cs left (omega arith) short) (
        ground
          (arith, all.0, most, short, serve_from-rapid left (count + 1) cs all.1 (omega arith)))
    | inr long ↦
        rw (long_child c cs (suc left) long)
          (ground (arith, all.0, long, serve_from-rapid m 0 cs all.1 (omega arith), given_first cs))
  ]

-- Where at least one rapid failure is allowed for and every child asks for another one, an exporter
-- that does not exit with its lease is given up, with exit code 1, exactly when as many rapid
-- failures as are allowed follow one another; otherwise it is started again.
pub serve_with_exc_handling-rapid :
    (config : FailureDetection) (cs : List Child)
    → AllRestart cs
    → 0 < config.max_rapid_failures
    → serve_with_exc_handling config false cs
      ≡ (if any_run (is_rapid config) config.max_rapid_failures cs then some 1 else none)
serve_with_exc_handling-rapid config cs all some_allowed =
    let m = config.max_rapid_failures - 1 in
    let most : config.max_rapid_failures ≡ suc m = omega arith in
    unfold serve_with_exc_handling in
    subst
      (λ n.
        serve_from config false 0 cs ≡ (if any_run (is_rapid config) n cs then some 1 else none))
      (sym most)
      (serve_from-rapid config m most m 0 cs all (omega arith) ∙ given_first config m most cs)
