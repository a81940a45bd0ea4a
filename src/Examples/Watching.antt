-- ===== src/Examples/Watching.antt =====
-- The monitor of a lease and selectors at concrete inputs.
use jumpstarter.Client.Selectors.Filter.{labels_only, extract_match_labels_filter-parsed}
use jumpstarter.Client.Selectors.Parser.{parse_label_selector, extract_match_labels_filter}
use jumpstarter.Client.Expiry.{LeaseTimes, MonitorWorld, monitor, get_lease_end_time}
use jumpstarter.Client.Expiry.Ends.{Says, monitor_ends}
use jumpstarter.Client.Selectors.{Expression, Selector, selector_contains}
use jumpstarter.Client.Selectors.Sound.{selector_contains-Selects, Selects}
use jumpstarter.Common.{
  ℕ, zero, suc, true, Option, none, some, List, [], ◌∷◌, String, ◌≡◌, ◌≤◌, ◌⊎◌, inl, inr, refl,
  arith,
}

-- A lease of 45 seconds, of which only the first check brings an answer.
abbrev lease_times : LeaseTimes
lease_times = record { effective_end_time = none; effective_begin_time = some 0; duration = 45000 }

abbrev answers : ℕ → Option LeaseTimes
answers zero = some lease_times
answers (suc n) = none

abbrev watched : MonitorWorld
watched = record { check = answers; took = λ n. 5; late = λ n. 0; callback = true }

first_answer : Says 45000 (watched.check 0)
unfolding get_lease_end_time
first_answer = (lease_times, refl, refl)

later_answers : (n : ℕ) → (watched.check n ≡ none) ⊎ Says 45000 (watched.check n)
later_answers zero = inr first_answer
later_answers (suc n) = inl refl

monitor_ends_example :
    let m = monitor 3 300000 watched in
    (m.stopped ≡ true) × (m.lease_ended ≡ true) × (45000 ≤ m.now)
monitor_ends_example =
    monitor_ends 300000 45000 2 watched (λ n. omega arith) first_answer later_answers (omega arith)

-- A selector that names a board and asks for one of two sites.
abbrev sites : Expression
sites = record { key = "site"; operator = "in"; values = "north" ∷ "south" ∷ [] }

abbrev has_board : Expression
has_board = record { key = "board"; operator = "exists"; values = [] }

abbrev asked : Selector
asked = record { match_labels = ("board", "rpi") ∷ []; match_expressions = sites ∷ [] }

abbrev required : Selector
required = record {
  match_labels = [];
  match_expressions =
      has_board ∷ record { key = "site"; operator = "in"; values = "south" ∷ "north" ∷ [] } ∷ [];
}

abbrev board_labels : List (String × String)
board_labels = ("site", "south") ∷ ("board", "rpi") ∷ []

selector_contains-Selects_example : Selects required board_labels
unfolding selector_contains
selector_contains-Selects_example =
    selector_contains-Selects asked required board_labels (inr (inl refl), (inl refl, record {}))
      refl ((refl, record {}), (refl, record {}))

extract_match_labels_filter-parsed_example :
    (f : String) × (extract_match_labels_filter (some "board=rpi, env == test,gpu in (a, b),!old")
      ≡ some f)
    × (parse_label_selector f ≡ labels_only (("board", "rpi") ∷ ("env", "test") ∷ []))
unfolding parse_label_selector
extract_match_labels_filter-parsed_example =
    extract_match_labels_filter-parsed "board=rpi, env == test,gpu in (a, b),!old" ("board", "rpi")
      (("env", "test") ∷ []) refl refl refl
