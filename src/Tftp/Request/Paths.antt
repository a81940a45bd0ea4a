-- ===== src/Tftp/Request/Paths.antt =====
-- Which files a request can reach.
use jumpstarter.Tftp.{Bytes}
use jumpstarter.Common.{
  Bool, List, length, ◌≤◌, ◌≡◌, true, false, arith, ◌∷◌, [], refl, ◌⊎◌, drop, Bool-cases, ltb, inl,
  inr, if_both,
}
use jumpstarter.Tftp.Request.{
  Platform, Text, all_allowed, request_received, transfers, is_file, split_at, any_parent, parts,
  is_parent, parse_parts, Decoded, Parsed, parse_request, parse_mode, parse_filename, serve_request,
  request, undecodable, refuses, decoded, has_null,
}

-- A text without a `/` is one part.
no_slash : (p : Platform) (cs : Text) → all_allowed p cs ≡ true → split_at 47 cs ≡ cs ∷ []
no_slash p [] h = refl
no_slash p (c ∷ cs) h = ground (arith, no_slash p cs)

-- What is known of the name in a request that has been parsed.
abbrev Vetted : Platform → Parsed → Type 0
Vetted p (request filename mode options) = (length filename ≤ 255) × (all_allowed p filename ≡ true)
Vetted p (refuses e) = Unit {0}

parse_mode-Vetted :
    (p : Platform) (f : Text) (m : Decoded) (rest : List Bytes)
    → length f ≤ 255
    → all_allowed p f ≡ true
    → Vetted p (parse_mode p f m rest)
unfolding parse_mode
parse_mode-Vetted p f (decoded m) rest short allowed = (short, allowed)
parse_mode-Vetted p f (undecodable e) rest short allowed = record {}

parse_filename-Vetted :
    (p : Platform) (d : Decoded) (mode : Bytes) (rest : List Bytes)
    → Vetted p (parse_filename p d mode rest)
unfolding parse_filename
parse_filename-Vetted p (undecodable e) mode rest = record {}
parse_filename-Vetted p (decoded f) mode rest = elim (Bool-cases (ltb 255 (length f))) [
  | inl long ↦ rw long (record {})
  | inr short ↦ elim (Bool-cases (all_allowed p f)) [
    | inr reserved ↦ rw (short, reserved) (record {})
    | inl allowed ↦
        rw (short, allowed)
          (if_both (Vetted p) (has_null f) (record {})
            (parse_mode-Vetted p f (p.decode mode) rest (ground arith) allowed))
  ]
]

parse_parts-Vetted : (p : Platform) (parts' : List Bytes) → Vetted p (parse_parts p parts')
unfolding parse_parts
parse_parts-Vetted p [] = record {}
parse_parts-Vetted p (f ∷ []) = record {}
parse_parts-Vetted p (f ∷ mode ∷ rest) = parse_filename-Vetted p (p.decode f) mode rest

one_part :
    (p : Platform) (f : Text)
    → all_allowed p f ≡ true
    → any_parent (parts f) ≡ false
    → (parts f ≡ []) ⊎ ((parts f ≡ f ∷ []) × (is_parent f ≡ false))
one_part p f allowed inside = ground (arith, no_slash p f allowed)

serve_request-inside :
    (p : Platform) (r : Parsed) (filename : Text) (options : List (Text × Text))
    → Vetted p r
    → serve_request p r ≡ transfers filename options
    → (length filename ≤ 255)
      × (p.stat filename ≡ is_file)
      × ((parts filename ≡ []) ⊎ ((parts filename ≡ filename ∷ []) × (is_parent filename ≡ false)))
serve_request-inside p (refuses e) filename options v h = absurd (ground (arith, h))
serve_request-inside p (request f mode o) filename options v h =
    ground (arith, one_part p f v.1, v, h)

-- Whatever is sent to a server, a transfer is begun only for a name of at most 255 characters
-- that the storage has as a file, and whose path is the directory itself or the name alone, which
-- is not `..`: no request reaches a file outside the served directory or below it.
pub request_received-inside :
    (p : Platform) (shutting_down : Bool) (bytes : Bytes) (filename : Text)
    (options : List (Text × Text))
    → request_received p shutting_down bytes ≡ transfers filename options
    → (shutting_down ≡ false)
      × (length filename ≤ 255)
      × (p.stat filename ≡ is_file)
      × ((parts filename ≡ []) ⊎ ((parts filename ≡ filename ∷ []) × (is_parent filename ≡ false)))
unfolding request_received parse_request
request_received-inside p shutting_down bytes filename options h = ground (
  arith,
  h,
  serve_request-inside p (parse_request p bytes) filename options
      (parse_parts-Vetted p (split_at 0 (drop 2 bytes))),
)
