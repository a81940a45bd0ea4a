-- ===== src/Common/Runs.antt =====
-- Runs of elements of a list that pass a test, for loops that count failures in a row.
use mathlib.Core.Path.{◌≡◌, refl}
use mathlib.Core.Bool.{Bool, true, false, ◌&&◌, ◌||◌}
use mathlib.Core.List.{List, [], ◌∷◌}
use Prim.Native.Nat.{ℕ, zero, suc, ◌≤◌}
use native.Mathlib.Omega.{arith}

module _ {ℓ} {A : Type ℓ} (test : A → Bool) where
  -- The first `n` elements all pass, and there are so many.
  abbrev pub starts_run : ℕ → List A → Bool
  starts_run zero xs = true
  starts_run (suc n) [] = false
  starts_run (suc n) (x ∷ xs) = let rest = starts_run n xs in test x && rest

  -- Somewhere in the list, `n` elements that pass follow one another.
  abbrev pub any_run : ℕ → List A → Bool
  any_run n [] = starts_run n []
  any_run n (x ∷ xs) = let rest = any_run n xs in starts_run n (x ∷ xs) || rest

  pub starts_run_less :
      (n m : ℕ) (xs : List A) → n ≤ m → starts_run m xs ≡ true → starts_run n xs ≡ true
  starts_run_less zero m xs h r = refl
  starts_run_less (suc n) zero xs h r = absurd (omega arith)
  starts_run_less (suc n) (suc m) [] h r = cc
  starts_run_less (suc n) (suc m) (x ∷ xs) h r = ground (arith, starts_run_less n m xs)

  pub any_run_starts : (n : ℕ) (xs : List A) → starts_run n xs ≡ true → any_run n xs ≡ true
  any_run_starts n [] h = h
  any_run_starts n (x ∷ xs) h = rw h
