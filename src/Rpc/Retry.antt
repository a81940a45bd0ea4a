-- ===== src/Rpc/Retry.antt =====
-- What `_retry_rpc` promises: it ends, within a known time, on the first answer that is final.
use jumpstarter.Common.{
  ℕ, zero, suc, ◌+◌, ◌≤◌, ◌<◌, ◌≡◌, Bool, true, false, not, ◌&&◌, ◌⊎◌, Option, none, some, arith,
  ◌-◌, refl, inl, inr, Bool-cases, is_some,
}
use mathlib.Core.Path.{subst}
use native.Mathlib.Decide.{dec_lt}
use native.Mathlib.Numerals.{add-one}
use jumpstarter.Rpc.{
  StatusCode, RpcOutcome, success, rpc_error, raised, is_transient, backoff_delay, returned,
  retry_from, retry_rpc,
}

-- An answer after which the call is made again, were there attempts left.
abbrev pub asks_again : (StatusCode → Bool) → RpcOutcome → Bool
asks_again non_retryable success = false
asks_again non_retryable (rpc_error code) = not (non_retryable code) && is_transient code
asks_again non_retryable raised = false

-- What a caller is told after a last answer.
abbrev pub verdict : RpcOutcome → Bool
verdict success = true
verdict _ = false

abbrev pub verdict_code : RpcOutcome → Option StatusCode
verdict_code (rpc_error code) = some code
verdict_code _ = none

-- The seconds slept before attempt `n`: after each earlier attempt, its backoff.
unfoldable pub backoff_before : ℕ → ℕ
backoff_before zero = 0
backoff_before (suc n) = backoff_before n + backoff_delay n

-- One round of the loop, by the answer to it.
retry_from_last :
    (left attempt : ℕ) (answer : ℕ → RpcOutcome) (nr : StatusCode → Bool) (slept : ℕ)
    → (attempt ≡ 20) ⊎ (asks_again nr (answer attempt) ≡ false)
    → retry_from (suc left) attempt answer nr slept
      ≡ returned (verdict (answer attempt)) (verdict_code (answer attempt)) attempt slept
unfolding retry_from
retry_from_last left attempt answer nr slept h = ground arith

retry_from_again :
    (left attempt : ℕ) (answer : ℕ → RpcOutcome) (nr : StatusCode → Bool) (slept : ℕ)
    → attempt < 20
    → asks_again nr (answer attempt) ≡ true
    → retry_from (suc left) attempt answer nr slept
      ≡ retry_from left (attempt + 1) answer nr (slept + backoff_delay attempt)
unfolding retry_from
retry_from_again left attempt answer nr slept h again = ground arith

backoff_step : (n : ℕ) → backoff_before (n + 1) ≡ backoff_before n + backoff_delay n
unfolding backoff_before
backoff_step n = rw add-one

pub from_here :
    {P : ℕ → Type 0} {attempt n : ℕ} (j : ℕ)
    → attempt ≤ j
    → j < n
    → P attempt
    → ((i : ℕ) → attempt + 1 ≤ i → i < n → P i)
    → P j
from_here {P} {attempt} j above below here rest = elim (dec_lt attempt j) [
  | yes later ↦ rest j (omega arith) below
  | no same ↦ subst P (omega arith) here
]

backoff_before_mono : (k n m : ℕ) → n + k ≡ m → backoff_before n ≤ backoff_before m
backoff_before_mono zero n m e = let same : n ≡ m = omega arith in rw same (omega arith)
backoff_before_mono (suc k) n m e =
    omega (arith, backoff_step n, backoff_before_mono k (n + 1) m (omega arith))

-- No sum of backoffs is above 481 seconds.
backoff_before_le : (n : ℕ) → n ≤ 20 → backoff_before n ≤ 481
backoff_before_le n h = omega (arith, backoff_before_mono (20 - n) n 20 (omega arith), all)
  where
    all : backoff_before 20 ≡ 481
    all = unfold backoff_before in refl

verdict_ok : (o : RpcOutcome) → (verdict o && is_some (verdict_code o)) ≡ false
verdict_ok o = ground arith

-- The loop, entered at `attempt` with its rounds left, ends at the first final answer.
retry_from_first :
    (k attempt n : ℕ) (answer : ℕ → RpcOutcome) (nr : StatusCode → Bool)
    → attempt + k ≡ n
    → n ≤ 20
    → ((j : ℕ) → attempt ≤ j → j < n → asks_again nr (answer j) ≡ true)
    → (n ≡ 20) ⊎ (asks_again nr (answer n) ≡ false)
    → retry_from (21 - attempt) attempt answer nr (backoff_before attempt)
      ≡ returned (verdict (answer n)) (verdict_code (answer n)) n (backoff_before n)
retry_from_first zero attempt n answer nr e le again last =
    let same : attempt ≡ n = omega arith in
    rw (same) (
      let rounds : 21 - n ≡ suc (20 - n) = omega arith in
      rw rounds (retry_from_last (20 - n) n answer nr (backoff_before n) last))
retry_from_first (suc k) attempt n answer nr e le again last =
    let rounds : 21 - attempt ≡ suc (20 - attempt) = omega arith in
    let fewer : 20 - attempt ≡ 21 - (attempt + 1) = omega arith in
    rw (rounds) (
      rw
        (retry_from_again (20 - attempt) attempt answer nr (backoff_before attempt) (omega arith)
          (again attempt (omega arith) (omega arith)))
        (rw (fewer, ← backoff_step attempt)
          (retry_from_first k (attempt + 1) n answer nr (omega arith) le
            (λ j above below. again j (omega arith) below) last)))

-- Some attempt from `attempt` to the last is the first whose answer is final.
first_final :
    (k attempt : ℕ) (answer : ℕ → RpcOutcome) (nr : StatusCode → Bool)
    → attempt + k ≡ 20
    → (n : ℕ) × (attempt ≤ n)
      × (n ≤ 20)
      × ((j : ℕ) → attempt ≤ j → j < n → asks_again nr (answer j) ≡ true)
      × ((n ≡ 20) ⊎ (asks_again nr (answer n) ≡ false))
first_final zero attempt answer nr e =
    (20, omega arith, omega arith, λ j above below. absurd (omega arith), inl refl)
first_final (suc k) attempt answer nr e = elim (Bool-cases (asks_again nr (answer attempt))) [
  | inl again ↦
      let rest = first_final k (attempt + 1) answer nr (omega arith) in
      (
        rest.0,
        omega (arith, rest.1),
        rest.2,
        λ j above below. from_here j above below again rest.3,
        rest.4,
      )
  | inr final ↦
      (attempt, omega arith, omega arith, λ j above below. absurd (omega arith), inr final)
]

-- The call always returns, after at most 21 attempts: it makes attempts exactly as long as the
-- answers are transient errors outside the codes given up on, and what it returns is told by the
-- last answer: true for a success, false with the code of an error, false with no code for another
-- exception. Before that it has slept the backoffs of the earlier attempts.
pub retry_rpc_total :
    (answer : ℕ → RpcOutcome) (nr : StatusCode → Bool)
    → (n : ℕ) × (n ≤ 20)
      × ((j : ℕ) → j < n → asks_again nr (answer j) ≡ true)
      × ((n ≡ 20) ⊎ (asks_again nr (answer n) ≡ false))
      × (retry_rpc answer nr
          ≡ returned (verdict (answer n)) (verdict_code (answer n)) n (backoff_before n))
unfolding retry_rpc backoff_before
retry_rpc_total answer nr =
    let first = first_final 20 0 answer nr (omega arith) in
    (
      first.0,
      first.2,
      λ j below. first.3 j (omega arith) below,
      first.4,
      retry_from_first first.0 0 first.0 answer nr (omega arith) first.2 first.3 first.4,
    )

-- Whatever the answers, a call ends by a return of the loop's body, has made 1 to 21 attempts and
-- has slept at most 481 seconds; it returns true only with no code.
retry_rpc_bounds :
    (answer : ℕ → RpcOutcome) (nr : StatusCode → Bool)
    → ((retry_rpc answer nr).fell_through ≡ false)
      × (1 ≤ (retry_rpc answer nr).attempts)
      × ((retry_rpc answer nr).attempts ≤ 21)
      × ((retry_rpc answer nr).slept ≤ 481)
      × (((retry_rpc answer nr).ok && is_some (retry_rpc answer nr).code) ≡ false)
retry_rpc_bounds answer nr =
    let t = retry_rpc_total answer nr in
    rw (t.4)
      (refl, omega arith, omega (arith, t.1), backoff_before_le t.0 t.1, verdict_ok (answer t.0))
