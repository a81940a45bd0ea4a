-- ===== src/Client/Selectors/Scans.antt =====
-- client/selectors.py: the scans of the parser on a label of plain characters.
use Prim.Native.Char.{Char, code}
use jumpstarter.Common.{
  ℕ, String, Bool, ◌≡◌, ◌||◌, ◌∙◌, not, true, ◌==◌, str_eq, remove_prefix, ap, strip_end, strip,
  strip_start, is_space, arith, none, ◌∷◌, some, false, join_end, ◌&&◌, refl, [], prepend_part,
}
use Prim.Native.String.{◌++◌ as ◌+++◌}
use text.Mathlib.TextLemmas.{nil-append, cons-append}
use jumpstarter.Client.Selectors.Parser.{
  label_text, is_key_char, scan_key, has_line_end, next_is_close, split_commas, parse_part,
  value_of, second_equals, label, by_scan, by_equals,
}

-- Texts of the characters that keys have.
abbrev pub all_key : String → Bool
all_key String.[] = true
all_key (String.◌∷◌ c cs) = let later = all_key cs in is_key_char (code c) && later

abbrev pub is_plain : String → Bool
is_plain text = not (str_eq text "") && all_key text

-- The characters of a filter: those of keys, the equals sign and the comma.
abbrev pub in_filter : String → Bool
in_filter String.[] = true
in_filter (String.◌∷◌ c cs) =
    let later = in_filter cs in
    (is_key_char (code c) || (code c == b'=' || code c == b',')) && later

abbrev in_label : String → Bool
in_label String.[] = true
in_label (String.◌∷◌ c cs) =
    let later = in_label cs in (is_key_char (code c) || code c == b'=') && later

no_close : (t : String) → in_filter t ≡ true → next_is_close t ≡ false
no_close String.[] h = refl
no_close (String.◌∷◌ c cs) h = ground (arith, h, no_close cs)

pub in_filter-append :
    (a b : String) → in_label a ≡ true → in_filter b ≡ true → in_filter (a +++ b) ≡ true
in_filter-append String.[] b h g = ap in_filter (nil-append b) ∙ g
in_filter-append (String.◌∷◌ c cs) b h g =
    ap in_filter (cons-append c cs b) ∙ ground (arith, h, in_filter-append cs b)

in_label-append : (a b : String) → all_key a ≡ true → in_label b ≡ true → in_label (a +++ b) ≡ true
in_label-append String.[] b h g = ap in_label (nil-append b) ∙ g
in_label-append (String.◌∷◌ c cs) b h g =
    ap in_label (cons-append c cs b) ∙ ground (arith, h, in_label-append cs b)

key_in_label : (t : String) → all_key t ≡ true → in_label t ≡ true
key_in_label String.[] h = refl
key_in_label (String.◌∷◌ c cs) h = ground (arith, h, key_in_label cs)

abbrev comma : Char
comma = ","

abbrev equals_sign : Char
equals_sign = "="

-- Splitting at the commas.
pub split_last : (a : String) → in_label a ≡ true → split_commas a ≡ a ∷ []
split_last String.[] h = refl
split_last (String.◌∷◌ c cs) h =
    let other : (code c == b',') ≡ false = ground (arith, h) in
    rw other (ap (prepend_part c) (split_last cs (ground (arith, h))))

at_comma :
    (b : String) → in_filter b ≡ true → split_commas (String.◌∷◌ comma b) ≡ "" ∷ split_commas b
at_comma b g = rw (no_close b g) refl

pub split_comma :
    (a b : String)
    → in_label a ≡ true
    → in_filter b ≡ true
    → split_commas (a +++ ("," +++ b)) ≡ a ∷ split_commas b
split_comma String.[] b h g =
    ap split_commas (nil-append ("," +++ b) ∙ cons-append comma "" b)
    ∙ ap (λ t. split_commas (String.◌∷◌ comma t)) (nil-append b)
    ∙ at_comma b g
split_comma (String.◌∷◌ c cs) b h g =
    let other : (code c == b',') ≡ false = ground (arith, h) in
    ap split_commas (cons-append c cs ("," +++ b))
    ∙ rw other (ap (prepend_part c) (split_comma cs b (ground (arith, h)) g))

-- A key, and the equals sign after it.
scanned :
    (k v : String)
    → all_key k ≡ true
    → scan_key (k +++ String.◌∷◌ equals_sign v) ≡ (k, String.◌∷◌ equals_sign v)
scanned String.[] v h = ap scan_key (nil-append (String.◌∷◌ equals_sign v))
scanned (String.◌∷◌ c cs) v h =
    let good : is_key_char (code c) ≡ true = ground (arith, h) in
    ap scan_key (cons-append c cs (String.◌∷◌ equals_sign v))
    ∙ rw (good, scanned cs v (ground (arith, h))) refl

no_space : (c : ℕ) → (is_key_char c || (c == b'=' || c == b',')) ≡ true → is_space c ≡ false
no_space c h = ground (arith, h)

strip_end_same : (t : String) → in_filter t ≡ true → strip_end t ≡ t
strip_end_same String.[] h = refl
strip_end_same (String.◌∷◌ c String.[]) h = rw (no_space (code c) (ground (arith, h))) refl
strip_end_same (String.◌∷◌ c (String.◌∷◌ d ds)) h =
    ap (join_end c) (strip_end_same (String.◌∷◌ d ds) (ground (arith, h)))

strip_start_same : (t : String) → in_filter t ≡ true → strip_start t ≡ t
strip_start_same String.[] h = refl
strip_start_same (String.◌∷◌ c cs) h = rw (no_space (code c) (ground (arith, h))) refl

pub strip_same : (t : String) → in_filter t ≡ true → strip t ≡ t
strip_same t h = ap strip_start (strip_end_same t h) ∙ strip_start_same t h

pub label_in_filter : (t : String) → in_label t ≡ true → in_filter t ≡ true
label_in_filter String.[] h = refl
label_in_filter (String.◌∷◌ c cs) h = ground (arith, h, label_in_filter cs)

no_line_end : (t : String) → all_key t ≡ true → has_line_end t ≡ false
no_line_end String.[] h = refl
no_line_end (String.◌∷◌ c cs) h = ground (arith, h, no_line_end cs)

value_same : (t : String) → is_plain t ≡ true → value_of t ≡ some t
value_same t h =
    let key : all_key t ≡ true = ground (arith, h) in
    let full : str_eq t "" ≡ false = ground (arith, h) in
    let filtered : in_filter t ≡ true = label_in_filter t (key_in_label t key) in
    rw (strip_start_same t filtered, full, no_line_end t key, strip_same t filtered) refl

no_second : (t : String) → all_key t ≡ true → remove_prefix "=" t ≡ none
no_second String.[] h = refl
no_second (String.◌∷◌ c cs) h =
    let other : (b'=' == code c) ≡ false = ground (arith, h) in rw other refl

second_same : (v : String) → is_plain v ≡ true → second_equals v ≡ some v
second_same v g = rw (no_second v (ground (arith, g)), value_same v g) refl

pub label_parsed :
    (k v : String)
    → is_plain k ≡ true
    → is_plain v ≡ true
    → parse_part (k +++ String.◌∷◌ equals_sign v) ≡ label k v
label_parsed k v h g =
    let rest = String.◌∷◌ equals_sign v in
    let full : str_eq k "" ≡ false = ground (arith, h) in
    ap (by_scan (k +++ rest)) (scanned k v (ground (arith, h)))
    ∙ rw full (ap (by_equals k rest) (second_same v g))

pub with_sign : (v : String) → ("=" +++ v) ≡ String.◌∷◌ equals_sign v
with_sign v = cons-append equals_sign "" v ∙ ap (λ t. String.◌∷◌ equals_sign t) (nil-append v)

pub with_comma : (b : String) → ("," +++ b) ≡ String.◌∷◌ comma b
with_comma b = cons-append comma "" b ∙ ap (λ t. String.◌∷◌ comma t) (nil-append b)

pub text_in_label :
    (k v : String) → is_plain k ≡ true → is_plain v ≡ true → in_label (label_text (k, v)) ≡ true
text_in_label k v h g =
    ap (λ t. in_label (k +++ t)) (with_sign v)
    ∙ in_label-append k (String.◌∷◌ equals_sign v) (ground (arith, h))
        (ground (arith, key_in_label v, g))
