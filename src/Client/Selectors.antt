-- ===== src/Client/Selectors.antt =====
-- client/selectors.py: whether a label selector asks for at least what another one does, on
-- selectors that `parse_label_selector` has parsed. A blank text parses to the selector with no labels
-- and no expressions.
pub mod Sound
pub mod Parser
pub mod Scans
pub mod Filter
use jumpstarter.Common.{
  Bool, true, false, not, ◌&&◌, ◌||◌, Option, none, some, List, [], ◌∷◌, String, str_eq,
  if◌then◌else◌, dict_get, is_some, mem_text,
}

-- A match expression.
pub record Expression : Type 0 where
  pub key : String
  pub operator : String
  pub values : List String

pub record Selector : Type 0 where
  pub match_labels : List (String × String)
  pub match_expressions : List Expression

abbrev pub value_in : Option String → List String → Bool
value_in none values = false
value_in (some value) values = mem_text value values

-- `_label_satisfies_expression` by the value of the key: none for the `ValueError`.
abbrev pub satisfied_by : Option String → String → List String → Option Bool
satisfied_by value operator values =
    if str_eq operator "!exists"
    then some (not (is_some value))
    else if str_eq operator "notin" || str_eq operator "!="
    then some (not (value_in value values))
    else if str_eq operator "in"
    then some (value_in value values)
    else if str_eq operator "exists"
    then some (is_some value)
    else none

unfoldable pub label_satisfies_expression : List (String × String) → Expression → Option Bool
label_satisfies_expression labels e = satisfied_by (dict_get e.key labels) e.operator e.values

abbrev pub all_in : List String → List String → Bool
all_in [] values = true
all_in (v ∷ vs) values = let rest = all_in vs values in mem_text v values && rest

-- `set(a) == set(b)`
abbrev pub same_set : List String → List String → Bool
same_set a b = all_in a b && all_in b a

abbrev pub same_expression : Expression → Expression → Bool
same_expression s r =
    str_eq s.key r.key && str_eq s.operator r.operator && same_set s.values r.values

abbrev pub any_same : List Expression → Expression → Bool
any_same [] r = false
any_same (s ∷ ss) r = let rest = any_same ss r in same_expression s r || rest

abbrev pub has_value : Option String → String → Bool
has_value none value = false
has_value (some v) value = str_eq v value

abbrev pub labels_contain : List (String × String) → List (String × String) → Bool
labels_contain sel [] = true
labels_contain sel ((key, value) ∷ rest) =
    let later = labels_contain sel rest in has_value (dict_get key sel) value && later

-- The loop over the required expressions, after `found`.
abbrev pub and_later : Option Bool → Option Bool → Option Bool
and_later none later = none
and_later (some false) later = some false
and_later (some true) later = later

unfoldable pub expressions_contain : Selector → List Expression → Option Bool
unfolding label_satisfies_expression
expressions_contain sel [] = some true
expressions_contain sel (r ∷ rest) =
    let later = expressions_contain sel rest in
    if any_same sel.match_expressions r
    then later
    else and_later (label_satisfies_expression sel.match_labels r) later

-- `selector_contains`: none for the `ValueError`
unfoldable pub selector_contains : Selector → Selector → Option Bool
unfolding expressions_contain
selector_contains sel requirements =
    if labels_contain sel.match_labels requirements.match_labels
    then expressions_contain sel requirements.match_expressions
    else some false
