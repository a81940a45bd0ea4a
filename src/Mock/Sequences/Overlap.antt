-- ===== src/Mock/Sequences/Overlap.antt =====
-- bundled_addon.py: `_handle_sequence_counted` waits for the response to be sent before it counts the
-- call, so requests for one key can overlap.
use jumpstarter.Common.{
  ℕ, String, List, Option, replicate, ◌++◌, ◌≡◌, ◌∷◌, suc, [], ap, ◌+◌, zero, refl, ◌∙◌, arith,
  dict_get-set,
}
use jumpstarter.Mock.Sequences.{
  SequenceStep, Progress, counted_step, num_calls, count_call, or_zero,
}

-- A request arrives, and its step is chosen; the response of a waiting one is sent, and counted.
pub data Event : Type 0 where
  arrived sent : Event

module _ {A : Type 0} where
  -- The steps that the requests are served, in the order in which they arrive.
  abbrev pub overlapping :
      String → List (SequenceStep A) → List Event → Progress → List (Option (SequenceStep A))
  unfolding counted_step
  overlapping key sequence [] s = []
  overlapping key sequence (arrived ∷ events) s =
      counted_step (num_calls key s) sequence ∷ overlapping key sequence events s
  overlapping key sequence (sent ∷ events) s = overlapping key sequence events (count_call key s)

  after_sent :
      (n : ℕ) (key : String) (sequence : List (SequenceStep A)) (s : Progress)
      → overlapping key sequence (replicate n sent ++ arrived ∷ []) s
        ≡ counted_step (num_calls key s + n) sequence ∷ []
  unfolding counted_step
  after_sent zero key sequence s =
      let same : num_calls key s ≡ num_calls key s + 0 = omega arith in
      ap (λ c. counted_step c sequence ∷ []) same
  after_sent (suc n) key sequence s =
      let one_more = ap or_zero (dict_get-set key (num_calls key s + 1) s.sequence_state) in
      let moved : num_calls key (count_call key s) + n ≡ num_calls key s + suc n =
        omega (arith, one_more) in
      after_sent n key sequence (count_call key s) ∙ ap (λ c. counted_step c sequence ∷ []) moved

  after_arrived :
      (n : ℕ) (key : String) (sequence : List (SequenceStep A)) (events : List Event) (s : Progress)
      → overlapping key sequence (replicate n arrived ++ events) s
        ≡ replicate n (counted_step (num_calls key s) sequence) ++ overlapping key sequence events s
  unfolding counted_step
  after_arrived zero key sequence events s = refl
  after_arrived (suc n) key sequence events s =
      ap (λ steps. counted_step (num_calls key s) sequence ∷ steps)
        (after_arrived n key sequence events s)

  -- Requests that arrive before the response of the first of them is sent are all served the same
  -- step, and the request after them is served the step that follows by as many: the steps between
  -- the two are served to none.
  pub overlapping_repeats :
      (n : ℕ) (key : String) (first : SequenceStep A) (rest : List (SequenceStep A)) (s : Progress)
      → overlapping key (first ∷ rest) (replicate n arrived ++ (replicate n sent ++ arrived ∷ [])) s
        ≡ replicate n (counted_step (num_calls key s) (first ∷ rest))
          ++ counted_step (num_calls key s + n) (first ∷ rest) ∷ []
  unfolding counted_step
  overlapping_repeats n key first rest s =
      after_arrived n key (first ∷ rest) (replicate n sent ++ arrived ∷ []) s
      ∙ ap (λ steps. replicate n (counted_step (num_calls key s) (first ∷ rest)) ++ steps)
          (after_sent n key (first ∷ rest) s)
