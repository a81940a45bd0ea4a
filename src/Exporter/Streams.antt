-- ===== src/Exporter/Streams.antt =====
-- exporter/exporter.py, `_retry_stream`: a gRPC stream whose items are passed on to a channel, and
-- which is opened again when it ends. What each opening comes to is a parameter; times are in
-- milliseconds.
pub mod Forwards
use jumpstarter.Common.{
  ℕ, zero, suc, ◌+◌, Bool, true, false, ◌||◌, List, [], ◌∷◌, ◌++◌, String, occurs_in, if◌then◌else◌,
}

-- One opening: the items received and sent on, and its end, normal or by an exception with a text.
pub data StreamEnd : Type 0 where
  finishes : StreamEnd
  fails : String → StreamEnd

pub record Opening (A : Type 0) : Type 0 where
  pub items : List A
  pub ends : StreamEnd

-- What has been sent on, the time slept, and whether the last exception was raised.
pub record StreamRun (A : Type 0) : Type 0 where
  pub sent : List A
  pub slept : ℕ
  pub raised : Bool

-- "Stream removed" and "UNAVAILABLE" mark errors that warrant a faster retry.
abbrev pub retry_delay : ℕ → String → ℕ
retry_delay backoff e =
    if occurs_in "Stream removed" e || occurs_in "UNAVAILABLE" e then 500 else backoff

-- The retry counter is reset if data has been received.
abbrev pub reset : {A : Type 0} → ℕ → List A → ℕ → ℕ
reset retries [] left = left
reset retries (x ∷ xs) left = retries

abbrev pub prefixed : {A : Type 0} → List A → ℕ → StreamRun A → StreamRun A
prefixed items delay run = record run { sent = items ++ run.sent; slept = delay + run.slept }

module _ {A : Type 0} (retries backoff : ℕ) where
  -- After an exception, with `left` retries once they are reset.
  abbrev pub after_failure : List A → String → ℕ → (ℕ → StreamRun A) → StreamRun A
  after_failure items e zero again = record { sent = items; slept = 0; raised = true }
  after_failure items e (suc left) again = prefixed items (retry_delay backoff e) (again left)

  abbrev pub after_opening : List A → StreamEnd → ℕ → (ℕ → StreamRun A) → StreamRun A
  after_opening items finishes left again = prefixed items 0 (again retries)
  after_opening items (fails e) left again = after_failure items e (reset retries items left) again

  -- The `while` loop over its openings, with `retries_left`.
  unfoldable pub stream_from : List (Opening A) → ℕ → StreamRun A
  stream_from [] left = record { sent = []; slept = 0; raised = false }
  stream_from (o ∷ os) left = after_opening o.items o.ends left (stream_from os)

  unfoldable pub retry_stream : List (Opening A) → StreamRun A
  unfolding stream_from
  retry_stream os = stream_from os retries
