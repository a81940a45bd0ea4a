-- ===== src/Mock/Endpoints.antt =====
-- bundled_addon.py: `_find_endpoint`, the endpoint that answers a request. Priorities are integers.
pub mod Order
pub mod Best
use Prim.Native.String.{◌++◌ as ◌+++◌, count}
use jumpstarter.Common.{
  ℕ, Bool, true, false, not, ◌&&◌, ◌||◌, Option, none, some, List, [], ◌∷◌, ◌++◌, String, str_eq,
  ltb, if◌then◌else◌, dict_get, starts_with, ends_at, split_first, strip_last,
}
use jumpstarter.Mock.Conditions.{Request, ProxyLibrary, MatchRules, matches_conditions, text_or}

-- pos n is n, and negsuc n is -(n + 1)
pub data ℤ : Type 0 where
  pos negsuc : ℕ → ℤ

abbrev pub ltz : ℤ → ℤ → Bool
ltz (pos a) (pos b) = ltb a b
ltz (pos a) (negsuc b) = false
ltz (negsuc a) (pos b) = true
ltz (negsuc a) (negsuc b) = ltb b a

-- What the search reads of an endpoint, with the rest of its definition.
pub record Endpoint (A : Type 0) : Type 0 where
  pub priority : ℤ
  pub matching : Option MatchRules
  pub definition : A

-- The key and the endpoint of a candidate; its priority is the endpoint's.
abbrev pub Candidate : Type 0 → Type 0
Candidate A = String × Endpoint A

-- `flow.request.headers.get("Upgrade", "").lower() == "websocket"`
abbrev pub is_websocket : ProxyLibrary → Request → Bool
is_websocket p r = str_eq (p.lower (text_or (r.header "Upgrade") "")) "websocket"

abbrev pub exact_key : String → String → String
exact_key method path = method +++ (" " +++ path)

-- `pat_method` and `prefix` against a request
abbrev pub pattern_matches : Bool → String → String → Option (String × String) → Bool
pattern_matches ws method path none = false
pattern_matches ws method path (some (pat_method, pat_path)) =
    (str_eq pat_method "*" || (str_eq pat_method method || (ws && str_eq pat_method "WEBSOCKET")))
    && starts_with (strip_last b'*' pat_path) path

abbrev pub wildcard_matches : Bool → String → String → String → Bool
wildcard_matches ws method path pattern_ =
    ends_at b'*' pattern_ && pattern_matches ws method path (split_first b' ' pattern_)

-- The sort key `(-priority, -len(key))`, compared.
abbrev pub comes_before : {A : Type 0} → Candidate A → Candidate A → Bool
comes_before (k, e) (k', e') =
    ltz e'.priority e.priority || (not (ltz e.priority e'.priority) && ltb (count k') (count k))

-- `sort`, which is stable.
abbrev pub insert : {A : Type 0} → Candidate A → List (Candidate A) → List (Candidate A)
insert c [] = c ∷ []
insert c (d ∷ ds) = let later = insert c ds in if comes_before d c then d ∷ later else c ∷ d ∷ ds

abbrev pub sort : {A : Type 0} → List (Candidate A) → List (Candidate A)
sort [] = []
sort (c ∷ cs) = insert c (sort cs)

abbrev pub head_of : {A : Type 0} → List (Candidate A) → Option (Candidate A)
head_of [] = none
head_of (c ∷ cs) = some c

module _ {A : Type 0} (p : ProxyLibrary) (endpoints : List (String × Endpoint A))
    (method path : String) (r : Request) where
  abbrev pub exact_candidate : String → Option (Endpoint A) → List (Candidate A)
  unfolding matches_conditions
  exact_candidate key none = []
  exact_candidate key (some e) = if matches_conditions p e.matching r then (key, e) ∷ [] else []

  -- The loop over `check_keys`.
  abbrev pub exact_candidates : List String → List (Candidate A)
  unfolding matches_conditions
  exact_candidates [] = []
  exact_candidates (key ∷ keys) =
      exact_candidate key (dict_get key endpoints) ++ exact_candidates keys

  abbrev pub check_keys : List String
  check_keys =
      exact_key method path ∷ (if is_websocket p r then exact_key "WEBSOCKET" path ∷ [] else [])

  -- `_collect_wildcard_matches`
  abbrev pub collect_wildcard_matches : List (String × Endpoint A) → List (Candidate A)
  unfolding matches_conditions
  collect_wildcard_matches [] = []
  collect_wildcard_matches ((key, e) ∷ rest) =
      let later = collect_wildcard_matches rest in
      if wildcard_matches (is_websocket p r) method path key && matches_conditions p e.matching r
      then (key, e) ∷ later
      else later

  -- `_find_endpoint`, once the configuration is loaded
  unfoldable pub find_endpoint : Option (Candidate A)
  unfolding matches_conditions
  find_endpoint = head_of (sort (exact_candidates check_keys ++ collect_wildcard_matches endpoints))
