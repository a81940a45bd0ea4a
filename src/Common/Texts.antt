-- ===== src/Common/Texts.antt =====
-- Texts: whether one occurs in another, and what `strip` takes off.
use jumpstarter.Common.Tests.{◌==◌, leb, if◌then◌else◌}
use Prim.Native.Char.{Char, code}
use Prim.Native.String.{String}
use Prim.Native.Nat.{ℕ}
use mathlib.Core.Bool.{Bool, true, false, not, ◌&&◌, ◌||◌}
use mathlib.Core.List.{List, [], ◌∷◌}
use mathlib.Core.Option.{Option, none, some}
use text.Mathlib.Text.{◌==◌ as str_eq}

abbrev pub starts_with : String → String → Bool
starts_with String.[] text = true
starts_with (String.◌∷◌ c cs) String.[] = false
starts_with (String.◌∷◌ c cs) (String.◌∷◌ d ds) =
    let rest = starts_with cs ds in code c == code d && rest

abbrev pub occurs_in : String → String → Bool
occurs_in part String.[] = starts_with part ""
occurs_in part (String.◌∷◌ c cs) =
    let rest = occurs_in part cs in starts_with part (String.◌∷◌ c cs) || rest

-- The characters that `str.strip` takes off.
abbrev pub is_space : ℕ → Bool
is_space c =
    leb 9 c && leb c 13
    || leb 28 c && leb c 32
    || c == 133
    || c == 160
    || c == 5760
    || leb 8192 c && leb c 8202
    || c == 8232
    || c == 8233
    || c == 8239
    || c == 8287
    || c == 12288

-- `str.lstrip`, and `str.strip`
abbrev pub strip_start : String → String
strip_start String.[] = ""
strip_start (String.◌∷◌ c cs) =
    let rest = strip_start cs in if is_space (code c) then rest else String.◌∷◌ c cs

abbrev pub join_end : Char → String → String
join_end c String.[] = if is_space (code c) then "" else String.◌∷◌ c ""
join_end c (String.◌∷◌ d ds) = String.◌∷◌ c (String.◌∷◌ d ds)

abbrev pub strip_end : String → String
strip_end String.[] = ""
strip_end (String.◌∷◌ c cs) = join_end c (strip_end cs)

abbrev pub strip : String → String
strip text = strip_start (strip_end text)

-- `str.split` at a character, by its code
abbrev pub prepend_part : Char → List String → List String
prepend_part c [] = String.◌∷◌ c "" ∷ []
prepend_part c (p ∷ ps) = String.◌∷◌ c p ∷ ps

abbrev pub split_on : ℕ → String → List String
split_on sep String.[] = "" ∷ []
split_on sep (String.◌∷◌ c cs) =
    let rest = split_on sep cs in if code c == sep then "" ∷ rest else prepend_part c rest

-- `str.endswith` of a character, `str.rstrip` of one, and `str.split` at the first one.
abbrev pub is_last : ℕ → Char → String → Bool
is_last last c String.[] = code c == last
is_last last c (String.◌∷◌ d ds) = false

abbrev pub ends_at : ℕ → String → Bool
ends_at last String.[] = false
ends_at last (String.◌∷◌ c cs) = let rest = ends_at last cs in is_last last c cs || rest

abbrev pub join_unless : ℕ → Char → String → String
join_unless last c String.[] = if code c == last then "" else String.◌∷◌ c ""
join_unless last c (String.◌∷◌ d ds) = String.◌∷◌ c (String.◌∷◌ d ds)

abbrev pub strip_last : ℕ → String → String
strip_last last String.[] = ""
strip_last last (String.◌∷◌ c cs) = join_unless last c (strip_last last cs)

abbrev pub prepend_first : Char → Option (String × String) → Option (String × String)
prepend_first c none = none
prepend_first c (some (a, b)) = some (String.◌∷◌ c a, b)

abbrev pub split_first : ℕ → String → Option (String × String)
split_first sep String.[] = none
split_first sep (String.◌∷◌ c cs) =
    let rest = split_first sep cs in if code c == sep then some ("", cs) else prepend_first c rest

-- `if text` for a text that may be missing.
abbrev pub truthy : Option String → Bool
truthy none = false
truthy (some t) = not (str_eq t "")

-- `url.startswith(prefix)` and the rest
abbrev pub remove_prefix : String → String → Option String
remove_prefix String.[] url = some url
remove_prefix (String.◌∷◌ p ps) String.[] = none
remove_prefix (String.◌∷◌ p ps) (String.◌∷◌ c cs) =
    let later = remove_prefix ps cs in if code p == code c then later else none
