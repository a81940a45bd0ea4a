-- ===== src/Client/Selectors/Parser.antt =====
-- client/selectors.py: `parse_label_selector`, with its regular expressions written out as scans of
-- the text, and the filter that is sent to the server. A part of the text has no space at its ends.
use Prim.Native.Char.{code}
use jumpstarter.Common.{
  ℕ, List, [], Option, String, dict_set, if◌then◌else◌, some, remove_prefix, none, ◌++◌, ◌∷◌, Bool,
  split_first, leb, strip, strip_start, is_space, str_eq, false, split_on, ◌==◌, ◌||◌, ◌&&◌, true,
  not, prepend_part,
}
use Prim.Native.String.{◌++◌ as ◌+++◌}
use jumpstarter.Client.Selectors.{Selector, Expression, selector_contains}

-- `[a-zA-Z0-9_./-]`
abbrev pub is_key_char : ℕ → Bool
is_key_char c = leb 45 c && leb c 57 || (leb 65 c && leb c 90 || (c == 95 || leb 97 c && leb c 122))

-- The key at the start, and the rest.
abbrev pub scan_key : String → String × String
scan_key String.[] = ("", "")
scan_key (String.◌∷◌ c cs) =
    let (key, rest) = scan_key cs in
    if is_key_char (code c) then (String.◌∷◌ c key, rest) else ("", String.◌∷◌ c cs)

-- `(?![^()]*\))`: whether the next parenthesis closes one
abbrev pub next_is_close : String → Bool
next_is_close String.[] = false
next_is_close (String.◌∷◌ c cs) =
    let later = next_is_close cs in
    if code c == b'(' then false else if code c == b')' then true else later

abbrev pub split_commas : String → List String
split_commas String.[] = "" ∷ []
split_commas (String.◌∷◌ c cs) =
    let rest = split_commas cs in
    if code c == b',' && not (next_is_close cs) then "" ∷ rest else prepend_part c rest

abbrev pub has_line_end : String → Bool
has_line_end String.[] = false
has_line_end (String.◌∷◌ c cs) = let later = has_line_end cs in code c == 10 || later

-- `\s*(.+)$`, stripped
abbrev pub value_of : String → Option String
value_of text =
    if str_eq (strip_start text) "" || has_line_end (strip_start text)
    then none
    else some (strip text)

-- `\s+`
abbrev pub spaced : String → Option String
spaced String.[] = none
spaced (String.◌∷◌ c cs) = if is_space (code c) then some (strip_start cs) else none

abbrev pub inner : Option (String × String) → Option String
inner none = none
inner (some (values, rest)) = if str_eq rest "" then some values else none

-- `\(([^)]*)\)$`
abbrev pub in_parentheses : String → Option String
in_parentheses text = elim (remove_prefix "(" text) [
  | none ↦ none
  | some rest ↦ inner (split_first b')' rest)
]

abbrev pub then_spaced : Option String → Option String
then_spaced none = none
then_spaced (some rest) = spaced rest

abbrev pub then_parentheses : Option String → Option String
then_parentheses none = none
then_parentheses (some rest) = in_parentheses rest

abbrev pub then_word : String → Option String → Option String
then_word word none = none
then_word word (some rest) = remove_prefix word rest

-- `\s+in\s+\(([^)]*)\)$`, and with `notin`
abbrev pub set_values : String → String → Option String
set_values word rest = then_parentheses (then_spaced (then_word word (spaced rest)))

abbrev pub then_value : Option String → Option String
then_value none = none
then_value (some rest) = value_of rest

abbrev pub or_text : Option String → Option String → Option String
or_text none later = later
or_text (some t) later = some t

-- `=?\s*(.+)$`: with a second equals sign, or else without
abbrev pub second_equals : String → Option String
second_equals rest = or_text (then_value (remove_prefix "=" rest)) (value_of rest)

abbrev pub then_second : Option String → Option String
then_second none = none
then_second (some rest) = second_equals rest

abbrev pub equals_value : String → Option String
equals_value rest = then_second (remove_prefix "=" (strip_start rest))

abbrev pub differs_value : String → Option String
differs_value rest = then_value (remove_prefix "!=" (strip_start rest))

-- What a part adds.
pub data Part : Type 0 where
  ignored : Part
  label : String → String → Part
  expression : Expression → Part

abbrev pub strip_all : List String → List String
strip_all [] = []
strip_all (v ∷ vs) = strip v ∷ strip_all vs

abbrev pub bare_key : String → String → Part
bare_key key rest =
    if str_eq rest ""
    then expression (record { key = key; operator = "exists"; values = [] })
    else ignored

abbrev pub by_equals : String → String → Option String → Part
by_equals key rest (some value) = label key value
by_equals key rest none = bare_key key rest

abbrev pub by_differs : String → String → Option String → Part
by_differs key rest (some value) =
    expression (record { key = key; operator = "!="; values = value ∷ [] })
by_differs key rest none = by_equals key rest (equals_value rest)

abbrev pub by_notin : String → String → Option String → Part
by_notin key rest (some values) =
    expression (record { key = key; operator = "notin"; values = strip_all (split_on b',' values) })
by_notin key rest none = by_differs key rest (differs_value rest)

abbrev pub by_in : String → String → Option String → Part
by_in key rest (some values) =
    expression (record { key = key; operator = "in"; values = strip_all (split_on b',' values) })
by_in key rest none = by_notin key rest (set_values "notin" rest)

abbrev pub absent_key : String × String → Part
absent_key (key, rest) =
    if str_eq key "" || not (str_eq rest "")
    then ignored
    else expression (record { key = key; operator = "!exists"; values = [] })

abbrev pub by_absent : Option String → Part
by_absent none = ignored
by_absent (some rest) = absent_key (scan_key (strip_start rest))

abbrev pub by_scan : String → String × String → Part
by_scan part (key, rest) =
    if str_eq key ""
    then by_absent (remove_prefix "!" part)
    else by_in key rest (set_values "in" rest)

abbrev pub parse_part : String → Part
parse_part part = by_scan part (scan_key part)

abbrev pub add_part : Part → Selector → Selector
add_part ignored s = s
add_part (label key value) s = record {
  match_labels = dict_set key value s.match_labels;
  match_expressions = s.match_expressions;
}
add_part (expression e) s = record {
  match_labels = s.match_labels;
  match_expressions = s.match_expressions ++ e ∷ [];
}

-- The loop over the parts. A blank part adds nothing.
abbrev pub parse_parts : List String → Selector → Selector
parse_parts [] s = s
parse_parts (part ∷ parts) s = parse_parts parts (add_part (parse_part (strip part)) s)

abbrev pub no_selector : Selector
no_selector = record { match_labels = []; match_expressions = [] }

unfoldable pub parse_label_selector : String → Selector
parse_label_selector selector =
    if str_eq (strip selector) ""
    then no_selector
    else parse_parts (split_commas selector) no_selector

abbrev pub label_text : String × String → String
label_text (key, value) = key +++ ("=" +++ value)

abbrev pub join_labels : String × String → List (String × String) → String
join_labels l [] = label_text l
join_labels l (m ∷ ls) = label_text l +++ ("," +++ join_labels m ls)

abbrev pub filter_of : List (String × String) → Option String
filter_of [] = none
filter_of (l ∷ ls) = some (join_labels l ls)

unfoldable pub extract_match_labels_filter : Option String → Option String
unfolding parse_label_selector
extract_match_labels_filter none = none
extract_match_labels_filter (some selector) =
    if str_eq selector "" then none else filter_of (parse_label_selector selector).match_labels

-- `selector_contains` on texts.
unfoldable pub selector_text_contains : String → String → Option Bool
unfolding parse_label_selector selector_contains
selector_text_contains selector requirements =
    if str_eq (strip requirements) ""
    then some true
    else selector_contains (parse_label_selector selector) (parse_label_selector requirements)
