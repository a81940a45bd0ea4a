-- ===== src/Mock/Sequences.antt =====
-- bundled_addon.py: the sequences of responses, `_handle_sequence` and its two modes. The state is
-- `_sequence_state` and `_sequence_start`, by the endpoint's key. Times are in milliseconds.
pub mod Served
pub mod Timing
pub mod Overlap
use jumpstarter.Mock.Endpoints.{find_endpoint, Endpoint, Candidate}
use jumpstarter.Mock.Conditions.{ProxyLibrary, matches_conditions, Request, MatchRules}
use jumpstarter.Common.{
  ℕ, List, Bool, Option, String, [], if◌then◌else◌, split_first, leb, false, none, some, ◌∷◌,
  dict_get, dict_set, is_some, has_key, ◌+◌, ◌||◌, ltb,
}

-- One entry of a sequence.
pub record SequenceStep (A : Type 0) : Type 0 where
  -- none for no `repeat`, which is infinite
  pub repeat : Option ℕ
  pub delay_ms : Option ℕ
  pub response : A

pub record Progress : Type 0 where
  pub sequence_state : List (String × ℕ)
  pub sequence_start : List (String × ℕ)

abbrev pub no_progress : Progress
no_progress = record { sequence_state = []; sequence_start = [] }

-- A `defaultdict(int)`.
abbrev pub or_zero : Option ℕ → ℕ
or_zero none = 0
or_zero (some n) = n

abbrev pub num_calls : String → Progress → ℕ
num_calls key s = or_zero (dict_get key s.sequence_state)

abbrev pub count_call : String → Progress → Progress
count_call key s = record {
  sequence_state = dict_set key (num_calls key s + 1) s.sequence_state;
  sequence_start = s.sequence_start;
}

abbrev pub start_at : String → ℕ → Progress → Progress
start_at key now s = record {
  sequence_state = s.sequence_state;
  sequence_start =
      if has_key key s.sequence_start then s.sequence_start else dict_set key now s.sequence_start;
}

abbrev pub started_at : String → Progress → ℕ
started_at key s = or_zero (dict_get key s.sequence_start)

module _ {A : Type 0} where
  -- The loop: none when the sequence is passed.
  abbrev pub serves :
      ℕ → ℕ → Option ℕ → SequenceStep A → Option (SequenceStep A) → Option (SequenceStep A)
  serves call_num position none s later = some s
  serves call_num position (some repeat) s later =
      if ltb call_num (position + repeat) then some s else later

  abbrev pub step_at : ℕ → ℕ → List (SequenceStep A) → Option (SequenceStep A)
  step_at call_num position [] = none
  step_at call_num position (s ∷ rest) =
      serves call_num position s.repeat s (step_at call_num (position + or_zero s.repeat) rest)

  -- `sequence[-1]`: none for an `IndexError`
  abbrev pub last_step : List (SequenceStep A) → Option (SequenceStep A)
  last_step [] = none
  last_step (s ∷ []) = some s
  last_step (s ∷ t ∷ rest) = last_step (t ∷ rest)

  abbrev pub or_last_step :
      Option (SequenceStep A) → List (SequenceStep A) → Option (SequenceStep A)
  or_last_step none sequence = last_step sequence
  or_last_step (some s) sequence = some s

  -- The step that is served when so many calls are counted.
  unfoldable pub counted_step : ℕ → List (SequenceStep A) → Option (SequenceStep A)
  counted_step call_num sequence = or_last_step (step_at call_num 0 sequence) sequence

  -- `_handle_sequence_counted`, with nothing between the reading and the count; with no step, the
  -- error leaves the count
  abbrev pub counted :
      String → Option (SequenceStep A) → Progress → Option (SequenceStep A) × Progress
  counted key none s = (none, s)
  counted key (some step) s = (some step, count_call key s)

  unfoldable pub handle_sequence_counted :
      String → List (SequenceStep A) → Progress → Option (SequenceStep A) × Progress
  unfolding counted_step
  handle_sequence_counted key sequence s = counted key (counted_step (num_calls key s) sequence) s

  -- `delay_ms <= elapsed_ms`
  abbrev pub is_elapsed : ℕ → ℕ → SequenceStep A → Bool
  is_elapsed start now step = leb (or_zero step.delay_ms + start) now

  -- The loop over the steps, with `break`.
  abbrev pub active : ℕ → ℕ → SequenceStep A → List (SequenceStep A) → SequenceStep A
  active start now current [] = current
  active start now current (step ∷ rest) =
      let later = active start now step rest in if is_elapsed start now step then later else current

  abbrev pub active_step : ℕ → ℕ → List (SequenceStep A) → Option (SequenceStep A)
  active_step start now [] = none
  active_step start now (first ∷ rest) = some (active start now first (first ∷ rest))

  -- `_handle_sequence_timed`; the start is recorded before `sequence[0]` is read
  unfoldable pub handle_sequence_timed :
      ℕ → String → List (SequenceStep A) → Progress → Option (SequenceStep A) × Progress
  handle_sequence_timed now key sequence s =
      (active_step (started_at key (start_at key now s)) now sequence, start_at key now s)

  abbrev pub has_delays : List (SequenceStep A) → Bool
  has_delays [] = false
  has_delays (step ∷ rest) = let later = has_delays rest in is_some step.delay_ms || later

  -- `_handle_sequence`
  unfoldable pub handle_sequence :
      ℕ → String → List (SequenceStep A) → Progress → Option (SequenceStep A) × Progress
  unfolding handle_sequence_counted handle_sequence_timed counted_step
  handle_sequence now key sequence s =
      if has_delays sequence
      then handle_sequence_timed now key sequence s
      else handle_sequence_counted key sequence s
