-- ===== src/Mock/Conditions.antt =====
-- bundled_addon.py: `_matches_conditions` and the checks that it makes.
use jumpstarter.Common.{
  Bool, true, false, not, ◌&&◌, ◌||◌, Option, none, some, List, [], ◌∷◌, String, str_eq, is_some,
  if◌then◌else◌, occurs_in,
}
use jumpstarter.Mock.Json.{Json, Index, resolve_dotted_path, json_eq}

-- What is read of a request: its method and path, headers and query by name, and its text.
pub record Request : Type 0 where
  pub method : String
  pub path : String
  pub header : String → Option String
  pub query : String → Option String
  pub content : Option String

-- What the code does of Python and mitmproxy: `json.loads`, `int` of a text, and `str.lower`.
pub record ProxyLibrary : Type 0 where
  pub loads : String → Option Json
  pub int_of : String → Option Index
  pub lower : String → String

-- The `match` of an endpoint; a check that is not there is empty.
pub record MatchRules : Type 0 where
  pub headers : List (String × String)
  pub headers_absent : List String
  pub query : List (String × String)
  pub body_contains : String
  pub body_json : List (String × Json)

-- `actual is None`, and `value and actual != value`
abbrev pub has_wanted : Option String → String → Bool
has_wanted none value = false
has_wanted (some actual) value = str_eq value "" || str_eq actual value

abbrev pub all_wanted : (String → Option String) → List (String × String) → Bool
all_wanted actual [] = true
all_wanted actual ((name, value) ∷ rest) =
    let later = all_wanted actual rest in has_wanted (actual name) value && later

abbrev pub check_headers : MatchRules → Request → Bool
check_headers m r = all_wanted r.header m.headers

abbrev pub all_absent : (String → Option String) → List String → Bool
all_absent actual [] = true
all_absent actual (name ∷ rest) =
    let later = all_absent actual rest in not (is_some (actual name)) && later

abbrev pub check_headers_absent : MatchRules → Request → Bool
check_headers_absent m r = all_absent r.header m.headers_absent

abbrev pub check_query : MatchRules → Request → Bool
check_query m r = all_wanted r.query m.query

-- `flow.request.get_text() or …`
abbrev pub text_or : Option String → String → String
text_or none default = default
text_or (some body) default = if str_eq body "" then default else body

abbrev pub check_body_contains : MatchRules → Request → Bool
check_body_contains m r =
    str_eq m.body_contains "" || occurs_in m.body_contains (text_or r.content "")

abbrev pub all_fields : ProxyLibrary → Json → List (String × Json) → Bool
unfolding resolve_dotted_path json_eq
all_fields p body [] = true
all_fields p body ((path, expected) ∷ rest) =
    let later = all_fields p body rest in
    json_eq (resolve_dotted_path p.int_of body path) expected && later

abbrev pub fields_of : ProxyLibrary → Option Json → List (String × Json) → Bool
unfolding resolve_dotted_path json_eq
fields_of p none rules = false
fields_of p (some body) rules = all_fields p body rules

abbrev pub body_fields : ProxyLibrary → Request → List (String × Json) → Bool
unfolding resolve_dotted_path json_eq
body_fields p r [] = true
body_fields p r (rule ∷ rules) = fields_of p (p.loads (text_or r.content "{}")) (rule ∷ rules)

abbrev pub check_body_json : ProxyLibrary → MatchRules → Request → Bool
unfolding resolve_dotted_path json_eq
check_body_json p m r = body_fields p r m.body_json

abbrev pub check_all : ProxyLibrary → MatchRules → Request → Bool
unfolding resolve_dotted_path json_eq
check_all p m r =
    check_headers m r
    && (check_headers_absent m r
        && (check_query m r && (check_body_contains m r && check_body_json p m r)))

-- `_matches_conditions`; an endpoint with no `match`, or an empty one, matches
unfoldable pub matches_conditions : ProxyLibrary → Option MatchRules → Request → Bool
unfolding resolve_dotted_path json_eq
matches_conditions p none r = true
matches_conditions p (some m) r = check_all p m r
