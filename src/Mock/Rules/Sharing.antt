-- ===== src/Mock/Rules/Sharing.antt =====
-- bundled_addon.py: the rules of one endpoint count their sequences' calls under the endpoint's key.
use jumpstarter.Mock.Sequences.Served.{step_there, counted_served, counted_calls}
use jumpstarter.Common.{
  ℕ, String, List, Bool, ◌≡◌, true, ◌++◌, ◌∷◌, not, ◌&&◌, [], false, none, ltb, of_both, some, refl,
  arith, ◌∙◌, ap,
}
use jumpstarter.Mock.Conditions.{ProxyLibrary, matches_conditions, Request}
use jumpstarter.Mock.Rules.{
  Rule, handle_rules, apply_rule, passthrough, serve, by_sequence, outcome_of,
}
use jumpstarter.Mock.Sequences.{
  SequenceStep, Progress, handle_sequence, has_delays, no_progress, handle_sequence_counted,
  counted_step, num_calls, step_at,
}

not-true : (b : Bool) → not b ≡ true → b ≡ false
not-true b h = ground (arith, h)

module _ {A : Type 0} (p : ProxyLibrary) (now : ℕ) (key : String) where
  abbrev pub none_match : Request → List (Rule A) → Bool
  unfolding matches_conditions
  none_match r [] = true
  none_match r (rule ∷ rules) =
      let later = none_match r rules in not (matches_conditions p rule.matching r) && later

  -- The first rule whose conditions hold answers the request.
  pub handle_rules-first :
      (r : Request) (before : List (Rule A)) (rule : Rule A) (after : List (Rule A)) (s : Progress)
      → none_match r before ≡ true
      → matches_conditions p rule.matching r ≡ true
      → handle_rules p now r key (before ++ rule ∷ after) s ≡ apply_rule now key rule s
  unfolding handle_rules
  handle_rules-first r [] rule after s h m = rw m refl
  handle_rules-first r (other ∷ before) rule after s h m =
      let (fails, later) =
        of_both (not (matches_conditions p other.matching r)) (none_match r before) h in
      rw (not-true (matches_conditions p other.matching r) fails)
        (handle_rules-first r before rule after s later m)

  -- Where no rule's conditions hold, the request is passed on, and no call is counted.
  handle_rules-passthrough :
      (r : Request) (rules : List (Rule A)) (s : Progress)
      → none_match r rules ≡ true
      → handle_rules p now r key rules s ≡ (passthrough, s)
  unfolding handle_rules
  handle_rules-passthrough r [] s h = refl
  handle_rules-passthrough r (other ∷ rules) s h =
      let (fails, later) =
        of_both (not (matches_conditions p other.matching r)) (none_match r rules) h in
      rw (not-true (matches_conditions p other.matching r) fails)
        (handle_rules-passthrough r rules s later)

  rule_counted :
      (rule : Rule A) (sequence : List (SequenceStep A)) (s : Progress)
      → rule.sequence ≡ some sequence
      → has_delays sequence ≡ false
      → apply_rule now key rule s ≡ by_sequence (handle_sequence_counted key sequence s)
  unfolding handle_sequence
  rule_counted rule sequence s h d = rw (h, d) refl

  counted_by :
      (r : Request) (before : List (Rule A)) (rule : Rule A) (after : List (Rule A)) (s : Progress)
      (sequence : List (SequenceStep A))
      → none_match r before ≡ true
      → matches_conditions p rule.matching r ≡ true
      → rule.sequence ≡ some sequence
      → has_delays sequence ≡ false
      → handle_rules p now r key (before ++ rule ∷ after) s
        ≡ by_sequence (handle_sequence_counted key sequence s)
  counted_by r before rule after s sequence h m q d =
      handle_rules-first r before rule after s h m ∙ rule_counted rule sequence s q d

  served_next :
      (sequence : List (SequenceStep A)) (s : Progress)
      → (by_sequence (handle_sequence_counted key sequence s)).0
        ≡ outcome_of (counted_step (num_calls key s) sequence)
  unfolding handle_sequence_counted
  served_next sequence s =
      ap outcome_of (counted_served key (counted_step (num_calls key s) sequence) s)

  counted_once :
      (first : SequenceStep A) (rest : List (SequenceStep A))
      → num_calls key (by_sequence (handle_sequence_counted key (first ∷ rest) no_progress)).1 ≡ 1
  unfolding handle_sequence_counted counted_step
  counted_once first rest =
      let (x, there_is) = step_there (step_at 0 0 (first ∷ rest)) first rest in
      counted_calls key x (counted_step 0 (first ∷ rest)) no_progress there_is

  -- The second rule is served what its sequence gives to a second call.
  second_call :
      (r r' : Request) (rule other : Rule A) (first : SequenceStep A)
      (steps steps' : List (SequenceStep A))
      → matches_conditions p rule.matching r ≡ true
      → matches_conditions p rule.matching r' ≡ false
      → matches_conditions p other.matching r' ≡ true
      → rule.sequence ≡ some (first ∷ steps)
      → has_delays (first ∷ steps) ≡ false
      → other.sequence ≡ some steps'
      → has_delays steps' ≡ false
      → (handle_rules p now r' key
          (rule ∷ other ∷ [])
          (handle_rules p now r key (rule ∷ other ∷ []) no_progress).1).0
        ≡ outcome_of (counted_step 1 steps')
  unfolding none_match
  second_call r r' rule other first steps steps' m m' n q d q' d' =
      let rules = rule ∷ other ∷ [] in
      let s' = (handle_rules p now r key rules no_progress).1 in
      let first_served = counted_by r [] rule (other ∷ []) no_progress (first ∷ steps) refl m q d in
      let once : num_calls key s' ≡ 1 =
        ap (λ x. num_calls key x.1) first_served ∙ counted_once first steps in
      let fails : none_match r' (rule ∷ []) ≡ true = ground (arith, m') in
      ap (λ x. x.0) (counted_by r' (rule ∷ []) other [] s' steps' fails n q' d')
      ∙ served_next steps' s'
      ∙ ap (λ c. outcome_of (counted_step c steps')) once

  -- Whether a step is served to some call.
  abbrev pub is_servable : SequenceStep A → Bool
  is_servable step = elim step.repeat [ none ↦ true | some n ↦ ltb 0 n ]

  served_second :
      (one two : SequenceStep A) (rest : List (SequenceStep A))
      → one.repeat ≡ some 1
      → is_servable two ≡ true
      → counted_step 1 (one ∷ two ∷ rest) ≡ some two
  unfolding counted_step
  served_second one two rest e f = ground (arith, e, f)

  -- Two rules of one endpoint with a counted sequence each, where the second rule's sequence serves
  -- its first step once and can serve its second: when the first rule has answered one request, the
  -- first request that the second rule answers is served the second step of its own sequence.
  pub rules_share_calls :
      (r r' : Request) (rule other : Rule A) (first one two : SequenceStep A)
      (steps rest : List (SequenceStep A))
      → matches_conditions p rule.matching r ≡ true
      → matches_conditions p rule.matching r' ≡ false
      → matches_conditions p other.matching r' ≡ true
      → rule.sequence ≡ some (first ∷ steps)
      → has_delays (first ∷ steps) ≡ false
      → other.sequence ≡ some (one ∷ two ∷ rest)
      → has_delays (one ∷ two ∷ rest) ≡ false
      → one.repeat ≡ some 1
      → is_servable two ≡ true
      → (handle_rules p now r' key
          (rule ∷ other ∷ [])
          (handle_rules p now r key (rule ∷ other ∷ []) no_progress).1).0
        ≡ serve two
  unfolding none_match
  rules_share_calls r r' rule other first one two steps rest m m' n q d q' d' e f =
      second_call r r' rule other first steps (one ∷ two ∷ rest) m m' n q d q' d'
      ∙ ap outcome_of (served_second one two rest e f)
