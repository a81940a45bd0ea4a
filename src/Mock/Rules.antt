-- ===== src/Mock/Rules.antt =====
-- bundled_addon.py: the rules of an endpoint (`_handle_rules`), and the hook `request`, which chooses
-- between the ways to answer.
pub mod Sharing
use jumpstarter.Mock.Endpoints.{find_endpoint, Endpoint, Candidate}
use jumpstarter.Mock.Conditions.{ProxyLibrary, MatchRules, Request, matches_conditions}
use jumpstarter.Common.{
  Option, String, Bool, List, ℕ, some, split_first, none, if◌then◌else◌, ◌∷◌, [],
}
use jumpstarter.Mock.Sequences.{
  SequenceStep, Progress, handle_sequence, handle_sequence_counted, handle_sequence_timed,
  counted_step,
}

-- A rule: its conditions, and either a sequence or one response.
pub record Rule (A : Type 0) : Type 0 where
  pub matching : Option MatchRules
  pub sequence : Option (List (SequenceStep A))
  pub response : A

-- The keys of an endpoint's definition that `request` reads.
pub record Mocked (A : Type 0) : Type 0 where
  pub has_addon : Bool
  pub rules : Option (List (Rule A))
  pub sequence : Option (List (SequenceStep A))
  pub has_patch : Bool
  pub response : A

-- What is done with the request: passed on to the server, handed to an addon, answered by a
-- response or by a step of a sequence, patched when the server has answered, or an `IndexError`.
pub data MockOutcome (A : Type 0) : Type 0 where
  passthrough : MockOutcome A
  to_addon : MockOutcome A
  respond : A → MockOutcome A
  serve : SequenceStep A → MockOutcome A
  patch_later : MockOutcome A
  index_error : MockOutcome A

-- `flow.request.path.split("?")[0]`
abbrev pub until : String → Option (String × String) → String
until path none = path
until path (some (before, rest)) = before

abbrev pub before_query : String → String
before_query path = until path (split_first b'?' path)

module _ {A : Type 0} where
  abbrev pub outcome_of : Option (SequenceStep A) → MockOutcome A
  outcome_of none = index_error
  outcome_of (some step) = serve step

  abbrev pub by_sequence : Option (SequenceStep A) × Progress → MockOutcome A × Progress
  by_sequence (step, s) = (outcome_of step, s)

  abbrev pub apply_rule : ℕ → String → Rule A → Progress → MockOutcome A × Progress
  unfolding handle_sequence handle_sequence_counted handle_sequence_timed counted_step
  apply_rule now key rule s = elim rule.sequence [
    | none ↦ (respond rule.response, s)
    | some sequence ↦ by_sequence (handle_sequence now key sequence s)
  ]

  -- `_handle_rules`
  unfoldable pub handle_rules :
      ProxyLibrary → ℕ → Request → String → List (Rule A) → Progress → MockOutcome A × Progress
  unfolding handle_sequence handle_sequence_counted handle_sequence_timed counted_step
      matches_conditions
  handle_rules p now r key [] s = (passthrough, s)
  handle_rules p now r key (rule ∷ rules) s =
      let later = handle_rules p now r key rules s in
      if matches_conditions p rule.matching r then apply_rule now key rule s else later

  -- `request`, from the endpoint that is found
  abbrev pub answer_by_sequence : ℕ → String → Mocked A → Progress → MockOutcome A × Progress
  unfolding handle_sequence handle_sequence_counted handle_sequence_timed counted_step
  answer_by_sequence now key e s = elim e.sequence [
    | some sequence ↦ by_sequence (handle_sequence now key sequence s)
    | none ↦ (if e.has_patch then patch_later else respond e.response, s)
  ]

  abbrev pub answer_by_rules :
      ProxyLibrary → ℕ → Request → String → Mocked A → Progress → MockOutcome A × Progress
  unfolding handle_rules
  answer_by_rules p now r key e s = elim e.rules [
    | some rules ↦ handle_rules p now r key rules s
    | none ↦ answer_by_sequence now key e s
  ]

  abbrev pub answer_mocked :
      ProxyLibrary → ℕ → Request → String → Mocked A → Progress → MockOutcome A × Progress
  unfolding handle_rules
  answer_mocked p now r key e s =
      let others = answer_by_rules p now r key e s in if e.has_addon then (to_addon, s) else others

  abbrev pub answer_found :
      ProxyLibrary
      → ℕ
      → Request
      → Option (Candidate (Mocked A))
      → Progress
      → MockOutcome A × Progress
  unfolding handle_rules
  answer_found p now r none s = (passthrough, s)
  answer_found p now r (some (key, e)) s = answer_mocked p now r key e.definition s

  unfoldable pub request_hook :
      ProxyLibrary
      → List (String × Endpoint (Mocked A))
      → ℕ
      → Request
      → Progress
      → MockOutcome A × Progress
  unfolding handle_rules find_endpoint
  request_hook p endpoints now r s =
      answer_found p now r (find_endpoint p endpoints r.method (before_query r.path) r) s
