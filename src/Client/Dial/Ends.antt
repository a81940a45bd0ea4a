-- ===== src/Client/Dial/Ends.antt =====
-- The dial loop ends in time, with what its last answer says.
use mathlib.Core.Path.{subst}
use native.Mathlib.Decide.{dec_lt}
use jumpstarter.Rpc.Retry.{from_here}
use jumpstarter.Client.Dial.{
  DialWorld, DialAnswer, dial_from, dial_delay, DialResult, DialRun, connected, dial_error,
  is_not_ready, error_result, dial_ends, is_unavailable_code, raises, dialled, dial_raises,
  dial_with_retry,
}
use jumpstarter.Common.{
  ℕ, String, Bool, ◌≤◌, ◌≡◌, min, false, ◌<◌, arith, ◌^◌, true, ◌⊎◌, ◌+◌, ◌-◌, some, suc, ◌||◌, ◌*◌,
  zero, refl, inr, Bool-cases, inl,
}

-- An answer after which the loop dials again, were there time left.
abbrev pub dials_again : DialAnswer → Bool
dials_again (dial_error code details) = is_not_ready code details || is_unavailable_code code
dials_again _ = false

abbrev pub dial_verdict : (String → String) → DialAnswer → DialResult
dial_verdict lower dialled = connected
dial_verdict lower (dial_error code details) = error_result lower code details
dial_verdict lower dial_raises = raises

dial_pow : (n : ℕ) → 1 ≤ 2 ^ n
dial_pow zero = omega arith
dial_pow (suc n) = omega (arith, dial_pow n)

dial_delay-least : (attempt remaining : ℕ) → min 300 remaining ≤ dial_delay attempt remaining
dial_delay-least attempt remaining = omega (arith, dial_pow (min attempt 10))

dial_delay-le : (attempt remaining : ℕ) → dial_delay attempt remaining ≤ remaining
dial_delay-le attempt remaining = omega arith

-- What is told of a run from an attempt on.
pub record Told (w : DialWorld) (timeout attempt last : ℕ) (r : DialRun) : Type 0 where
  pub n : ℕ
  pub first : attempt ≤ n
  pub in_time : n ≤ last
  pub again : (j : ℕ) → attempt ≤ j → j < n → dials_again (w.answer j) ≡ true
  pub final : (dials_again (w.answer n) ≡ false) ⊎ (timeout ≤ r.ended)
  pub result : r.result ≡ some (dial_verdict w.lower (w.answer n))
  pub slept : r.slept ≤ timeout
  pub attempts : r.attempts ≡ n + 1

round_final :
    (fuel : ℕ) (w : DialWorld) (timeout attempt slept now : ℕ)
    → (dials_again (w.answer attempt) ≡ false) ⊎ (timeout ≤ now + w.took attempt)
    → dial_from (suc fuel) w timeout attempt slept now
      ≡ dial_ends (dial_verdict w.lower (w.answer attempt)) attempt slept (now + w.took attempt)
unfolding dial_from
round_final fuel w timeout attempt slept now h = ground arith

round_again :
    (fuel : ℕ) (w : DialWorld) (timeout attempt slept now : ℕ)
    → dials_again (w.answer attempt) ≡ true
    → now + w.took attempt < timeout
    → let delay = dial_delay attempt (timeout - (now + w.took attempt)) in
      dial_from (suc fuel) w timeout attempt slept now
      ≡ dial_from fuel w timeout
          (attempt + 1)
          (slept + delay)
          (now + w.took attempt + delay + w.late attempt)
unfolding dial_from
round_again fuel w timeout attempt slept now h early = ground arith

here :
    (fuel : ℕ) (w : DialWorld) (timeout attempt slept now : ℕ)
    → (dials_again (w.answer attempt) ≡ false) ⊎ (timeout ≤ now + w.took attempt)
    → slept ≤ timeout
    → Told w timeout attempt
        (attempt + fuel)
        (dial_ends (dial_verdict w.lower (w.answer attempt)) attempt slept (now + w.took attempt))
here fuel w timeout attempt slept now h bound = record {
  n = attempt;
  first = omega arith;
  in_time = omega arith;
  again = λ j above below. absurd (omega arith);
  final = h;
  result = refl;
  slept = bound;
  attempts = refl;
}

later :
    (w : DialWorld) (timeout attempt last last' : ℕ) (r : DialRun)
    → last ≡ last'
    → dials_again (w.answer attempt) ≡ true
    → Told w timeout (attempt + 1) last r
    → Told w timeout attempt last' r
later w timeout attempt last last' r e again t = record {
  n = t.n;
  first = omega (arith, t.first);
  in_time = omega (arith, t.in_time);
  again = λ j above below. from_here j above below again t.again;
  final = t.final;
  result = t.result;
  slept = t.slept;
  attempts = t.attempts;
}

-- The deadline is at most 300 ms off for each further attempt, and so much has been slept at most.
dial_from-Told :
    (fuel : ℕ) (w : DialWorld) (timeout attempt slept now : ℕ)
    → timeout ≤ now + 300 * fuel
    → slept ≤ now
    → slept ≤ timeout
    → Told w timeout attempt (attempt + fuel) (dial_from (suc fuel) w timeout attempt slept now)
dial_from-Told zero w timeout attempt slept now late less bound =
    rw (round_final zero w timeout attempt slept now (inr (omega arith)))
      (here zero w timeout attempt slept now (inr (omega arith)) bound)
dial_from-Told (suc fuel) w timeout attempt slept now late less bound =
    elim (dec_lt (now + w.took attempt) timeout) [
      | no over ↦
          rw (round_final (suc fuel) w timeout attempt slept now (inr (omega arith)))
            (here (suc fuel) w timeout attempt slept now (inr (omega arith)) bound)
      | yes early ↦ elim (Bool-cases (dials_again (w.answer attempt))) [
        | inr final ↦
            rw (round_final (suc fuel) w timeout attempt slept now (inl final))
              (here (suc fuel) w timeout attempt slept now (inl final) bound)
        | inl again ↦
            let now' = now + w.took attempt in
            let delay = dial_delay attempt (timeout - now') in
            let least = dial_delay-least attempt (timeout - now') in
            let most = dial_delay-le attempt (timeout - now') in
            rw (round_again (suc fuel) w timeout attempt slept now again early) (
              later w timeout attempt (attempt + 1 + fuel) (attempt + suc fuel)
                (dial_from (suc fuel) w timeout (attempt + 1) (slept + delay)
                  (now' + delay + w.late attempt))
                (omega arith) again
                (dial_from-Told fuel w timeout (attempt + 1) (slept + delay)
                  (now' + delay + w.late attempt) (omega (arith, least)) (omega (arith, most))
                  (omega (arith, most))))
      ]
    ]

-- The loop always ends: with a deadline of at most `300 * fuel` ms, within `fuel + 1` calls, however
-- long calls and sleeps take. Every call but the last is answered that the exporter is not ready or
-- not available; the last is answered otherwise, or comes after the deadline; and the result is
-- what the last answer says. What is asked of `sleep` is in all no more than the timeout.
pub dial_with_retry_ends :
    (w : DialWorld) (timeout fuel : ℕ)
    → timeout ≤ 300 * fuel
    → Told w timeout 0 fuel (dial_with_retry (suc fuel) w timeout)
unfolding dial_with_retry
dial_with_retry_ends w timeout fuel enough =
    subst (λ last. Told w timeout 0 last (dial_from (suc fuel) w timeout 0 0 0)) (omega arith)
      (dial_from-Told fuel w timeout 0 0 0 (omega (arith, enough)) (omega arith) (omega arith))
