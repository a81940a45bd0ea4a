-- ===== src/Client/Selectors/Filter.antt =====
-- client/selectors.py: the filter that is sent to the server, read back.
use jumpstarter.Client.Selectors.Scans.{
  is_plain, in_filter, strip_same, split_last, label_in_filter, text_in_label, split_comma,
  with_sign, in_filter-append, label_parsed, with_comma,
}
use Prim.Native.Char.{Char}
use jumpstarter.Common.{
  String, List, ◌∷◌, has_key, ◌≡◌, str_eq, Bool, [], arith, false, true, dict_set, ap, ◌++◌, ◌&&◌,
  Bool-cases, some, inl, strip, ◌∙◌, sym, not, append-nil, str_eq_eq, inr, refl, append_assoc,
}
use Prim.Native.String.{◌++◌ as ◌+++◌}
use text.Mathlib.TextLemmas.{cons-append}
use jumpstarter.Client.Selectors.{Selector}
use jumpstarter.Client.Selectors.Parser.{
  label_text, join_labels, extract_match_labels_filter, parse_label_selector, split_commas,
  parse_part, parse_parts, no_selector, label, add_part,
}

text_parsed :
    (k v : String)
    → is_plain k ≡ true
    → is_plain v ≡ true
    → parse_part (strip (label_text (k, v))) ≡ label k v
text_parsed k v h g =
    ap parse_part
      (strip_same (label_text (k, v)) (label_in_filter (label_text (k, v)) (text_in_label k v h g)))
    ∙ ap (λ t. parse_part (k +++ t)) (with_sign v)
    ∙ label_parsed k v h g

abbrev pub all_plain : List (String × String) → Bool
all_plain [] = true
all_plain ((k, v) ∷ ls) = let later = all_plain ls in is_plain k && (is_plain v && later)

abbrev label_texts : List (String × String) → List String
label_texts [] = []
label_texts (l ∷ ls) = label_text l ∷ label_texts ls

joined_in_filter :
    (l : String × String) (ls : List (String × String))
    → all_plain (l ∷ ls) ≡ true
    → in_filter (join_labels l ls) ≡ true
joined_in_filter (k, v) [] h =
    label_in_filter (label_text (k, v)) (text_in_label k v (ground (arith, h)) (ground (arith, h)))
joined_in_filter (k, v) (m ∷ ls) h =
    in_filter-append (label_text (k, v)) ("," +++ join_labels m ls)
      (text_in_label k v (ground (arith, h)) (ground (arith, h)))
      (ap in_filter (with_comma (join_labels m ls)) ∙ joined_in_filter m ls (ground (arith, h)))

joined_split :
    (l : String × String) (ls : List (String × String))
    → all_plain (l ∷ ls) ≡ true
    → split_commas (join_labels l ls) ≡ label_texts (l ∷ ls)
joined_split (k, v) [] h =
    split_last (label_text (k, v)) (text_in_label k v (ground (arith, h)) (ground (arith, h)))
joined_split (k, v) (m ∷ ls) h =
    split_comma (label_text (k, v)) (join_labels m ls)
      (text_in_label k v (ground (arith, h)) (ground (arith, h)))
      (joined_in_filter m ls (ground (arith, h)))
    ∙ ap (λ ts. label_text (k, v) ∷ ts) (joined_split m ls (ground (arith, h)))

-- No key stands twice, nor among those before.
abbrev pub fresh : List (String × String) → List (String × String) → Bool
fresh before [] = true
fresh before ((k, v) ∷ ls) =
    let later = fresh (before ++ (k, v) ∷ []) ls in not (has_key k before) && later

set_new :
    (k v : String) (d : List (String × String))
    → has_key k d ≡ false
    → dict_set k v d ≡ d ++ (k, v) ∷ []
set_new k v [] h = refl
set_new k v ((k', v') ∷ d) h = elim (Bool-cases (str_eq k' k)) [
  | inl e ↦ absurd (ground (arith, rw e at h))
  | inr e ↦ rw e (ap (λ d'. (k', v') ∷ d') (set_new k v d (rw e at h)))
]

abbrev pub labels_only : List (String × String) → Selector
labels_only d = record { match_labels = d; match_expressions = [] }

labels_parsed :
    (before ls : List (String × String))
    → all_plain ls ≡ true
    → fresh before ls ≡ true
    → parse_parts (label_texts ls) (labels_only before) ≡ labels_only (before ++ ls)
labels_parsed before [] h f = ap labels_only (sym (append-nil before))
labels_parsed before ((k, v) ∷ ls) h f =
    ap (λ q. parse_parts (label_texts ls) (add_part q (labels_only before)))
      (text_parsed k v (ground (arith, h)) (ground (arith, h)))
    ∙ ap (λ d. parse_parts (label_texts ls) (labels_only d))
        (set_new k v before (ground (arith, f)))
    ∙ labels_parsed (before ++ (k, v) ∷ []) ls (ground (arith, h)) (ground (arith, f))
    ∙ ap labels_only (append_assoc before ((k, v) ∷ []) ls)

abbrev is_cons : String → Bool
is_cons String.[] = false
is_cons (String.◌∷◌ c cs) = true

cons_not_empty : (c : Char) (t : String) → str_eq (String.◌∷◌ c t) "" ≡ false
cons_not_empty c t = elim (Bool-cases (str_eq (String.◌∷◌ c t) "")) [
  | inl e ↦ absurd (ground (arith, ap is_cons (str_eq_eq (String.◌∷◌ c t) "" e)))
  | inr e ↦ e
]

not_empty : (a b : String) → str_eq a "" ≡ false → str_eq (a +++ b) "" ≡ false
not_empty String.[] b h = absurd (ground (arith, h))
not_empty (String.◌∷◌ c cs) b h =
    ap (λ t. str_eq t "") (cons-append c cs b) ∙ cons_not_empty c (cs +++ b)

joined_not_empty :
    (l : String × String) (ls : List (String × String))
    → all_plain (l ∷ ls) ≡ true
    → str_eq (join_labels l ls) "" ≡ false
joined_not_empty (k, v) [] h = not_empty k ("=" +++ v) (ground (arith, h))
joined_not_empty (k, v) (m ∷ ls) h =
    not_empty (label_text (k, v)) ("," +++ join_labels m ls)
      (not_empty k ("=" +++ v) (ground (arith, h)))

joined_parsed :
    (l : String × String) (ls : List (String × String))
    → all_plain (l ∷ ls) ≡ true
    → fresh [] (l ∷ ls) ≡ true
    → parse_label_selector (join_labels l ls) ≡ labels_only (l ∷ ls)
unfolding parse_label_selector
joined_parsed l ls h f =
    rw (strip_same (join_labels l ls) (joined_in_filter l ls h), joined_not_empty l ls h)
      (ap (λ parts. parse_parts parts no_selector) (joined_split l ls h)
        ∙ labels_parsed [] (l ∷ ls) h f)

abbrev labels_there : List (String × String) → Bool
labels_there [] = false
labels_there (l ∷ ls) = true

no_labels : (l : String × String) (ls : List (String × String)) → [] ≡ l ∷ ls → ⊥
no_labels l ls e = ground (arith, ap labels_there e)

-- The filter for the server of a selector that has labels, each with another key and with no other
-- characters in keys and values than keys have, and none empty: it is there, and it parses to the
-- labels of the selector, with no expressions.
pub extract_match_labels_filter-parsed :
    (selector : String) (l : String × String) (ls : List (String × String))
    → (parse_label_selector selector).match_labels ≡ l ∷ ls
    → all_plain (l ∷ ls) ≡ true
    → fresh [] (l ∷ ls) ≡ true
    → (f : String) × (extract_match_labels_filter (some selector) ≡ some f)
      × (parse_label_selector f ≡ labels_only (l ∷ ls))
unfolding extract_match_labels_filter
extract_match_labels_filter-parsed selector l ls e h f = elim (Bool-cases (str_eq selector "")) [
  | inl empty ↦
      let none_there =
        ap (λ t. (parse_label_selector t).match_labels) (sym (str_eq_eq selector "" empty)) in
      absurd (no_labels l ls (none_there ∙ e))
  | inr full ↦ (join_labels l ls, rw (full, e) refl, joined_parsed l ls h f)
]
