-- ===== src/Client/Conditions.antt =====
-- common/condition.py: tests on the conditions of a Kubernetes object.
use jumpstarter.Common.{
  Bool, true, false, ◌&&◌, Option, none, some, List, [], ◌∷◌, String, str_eq, if◌then◌else◌,
}

-- `kubernetes_pb2.Condition`, the fields that are read
pub record Condition : Type 0 where
  pub type_name : String
  pub status : String
  pub reason : String
  pub message : String

abbrev pub right_reason : Option String → String → Bool
right_reason none reason = true
right_reason (some r) reason = str_eq reason r

unfoldable pub condition_present_and_equal : List Condition → String → String → Option String → Bool
condition_present_and_equal [] type_name status reason = false
condition_present_and_equal (c ∷ cs) type_name status reason =
    let rest = condition_present_and_equal cs type_name status reason in
    if str_eq c.type_name type_name && right_reason reason c.reason
    then str_eq c.status status
    else rest

unfoldable pub condition_message : List Condition → String → Option String → Option String
condition_message [] type_name reason = none
condition_message (c ∷ cs) type_name reason =
    let rest = condition_message cs type_name reason in
    if str_eq c.type_name type_name && right_reason reason c.reason then some c.message else rest

unfoldable pub condition_true : List Condition → String → Bool
unfolding condition_present_and_equal
condition_true cs type_name = condition_present_and_equal cs type_name "True" none

unfoldable pub condition_false : List Condition → String → Bool
unfolding condition_present_and_equal
condition_false cs type_name = condition_present_and_equal cs type_name "False" none
