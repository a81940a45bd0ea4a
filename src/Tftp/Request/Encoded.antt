-- ===== src/Tftp/Request/Encoded.antt =====
-- A request is parsed as it was encoded.
use jumpstarter.Common.{List, length, ◌≡◌, ◌≤◌, false, ◌++◌, true, ◌∷◌, [], arith, refl, ◌∙◌}
use jumpstarter.Tftp.{Bytes, option_bytes}
use jumpstarter.Tftp.Request.{
  parse_request, parse_options, Platform, has_null, Text, split_at, decoded, all_allowed, request,
  set_option,
}

-- A text that has no null, and that the decoder leaves as it is, as it does for ASCII.
abbrev pub Plain : Platform → Text → Type 0
Plain p t = (has_null t ≡ false) × (p.decode t ≡ decoded t)

abbrev pub AllPlain : Platform → List (Text × Text) → Type 0
AllPlain p [] = Unit {0}
AllPlain p ((name, value) ∷ rest) = Plain p name × Plain p value × AllPlain p rest

-- The assignments of options, in their order.
abbrev pub assign_all : Platform → List (Text × Text) → List (Text × Text) → List (Text × Text)
assign_all p [] options = options
assign_all p ((name, value) ∷ rest) options =
    assign_all p rest (set_option (p.lower name) value options)

split_part :
    (t rest : Bytes) → has_null t ≡ false → split_at 0 (t ++ 0 ∷ rest) ≡ t ∷ split_at 0 rest
split_part [] rest h = refl
split_part (c ∷ cs) rest h = ground (arith, split_part cs rest)

parse_options_step :
    (p : Platform) (name value : Bytes) (n v : Text) (rest : List Bytes)
    (options : List (Text × Text))
    → p.decode name ≡ decoded n
    → p.decode value ≡ decoded v
    → parse_options p (name ∷ value ∷ rest) options
      ≡ parse_options p rest (set_option (p.lower n) v options)
unfolding parse_options
parse_options_step p name value n v rest options d e = ground (arith, d, e)

parse_options-split :
    (p : Platform) (os : List (Text × Text)) (options : List (Text × Text))
    → AllPlain p os
    → parse_options p (split_at 0 (option_bytes os)) options ≡ assign_all p os options
unfolding parse_options option_bytes
parse_options-split p [] options h = refl
parse_options-split p ((name, value) ∷ rest) options h =
    rw
      (
        split_part name (value ++ 0 ∷ option_bytes rest) h.0.0,
        split_part value (option_bytes rest) h.1.0,
      )
      (parse_options_step p name value name value (split_at 0 (option_bytes rest)) options h.0.1
          h.1.1
        ∙ parse_options-split p rest (set_option (p.lower name) value options) h.2)

-- A request whose name, mode and options are plain texts, with an allowed name of at most 255
-- characters, is parsed as that name, the mode in lower case, and the options assigned in order.
pub parse_request-encoded :
    (p : Platform) (filename mode : Text) (os : List (Text × Text))
    → Plain p filename
    → Plain p mode
    → AllPlain p os
    → length filename ≤ 255
    → all_allowed p filename ≡ true
    → parse_request p (0 ∷ 1 ∷ (filename ++ 0 ∷ (mode ++ 0 ∷ option_bytes os)))
      ≡ request filename (p.lower mode) (assign_all p os [])
unfolding parse_request
parse_request-encoded p filename mode os f m o short allowed =
    rw
      (
        split_part filename (mode ++ 0 ∷ option_bytes os) f.0,
        split_part mode (option_bytes os) m.0,
        f.1,
        m.1,
        allowed,
        f.0,
        parse_options-split p os [] o,
      )
      (ground arith)
