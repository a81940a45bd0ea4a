-- ===== src/Examples/Requests.antt =====
-- Read requests at concrete inputs.
use jumpstarter.Tftp.Request.Encoded.{assign_all, parse_request-encoded}
use jumpstarter.Tftp.Request.Paths.{request_received-inside}
use jumpstarter.Common.{false, ◌∷◌, ◌≡◌, true, [], length, ◌≤◌, ◌⊎◌, refl, ◌++◌, arith}
use jumpstarter.Tftp.{Bytes, option_bytes}
use jumpstarter.Tftp.Request.{
  Platform, request_received, decoded, is_file, parts, is_parent, Text, parse_request, request,
}

-- A platform where every byte is a printable character, and every name a file.
abbrev plain_platform : Platform
plain_platform = record {
  decode = decoded;
  lower = λ text. text;
  is_printable = λ c. true;
  stat = λ name. is_file;
}

-- A request for the file `a`, in mode `octet`.
abbrev request_a : Bytes
request_a = 0 ∷ 1 ∷ 97 ∷ 0 ∷ 111 ∷ 99 ∷ 116 ∷ 101 ∷ 116 ∷ 0 ∷ []

abbrev name_a : Text
name_a = 97 ∷ []

request_received-inside_example :
    (false ≡ false)
    × (length name_a ≤ 255)
    × (plain_platform.stat name_a ≡ is_file)
    × ((parts name_a ≡ []) ⊎ ((parts name_a ≡ name_a ∷ []) × (is_parent name_a ≡ false)))
unfolding request_received
request_received-inside_example =
    request_received-inside plain_platform false request_a name_a [] refl

parse_request-encoded_example :
    parse_request plain_platform
      (0 ∷ 1 ∷ (name_a ++ 0 ∷ (name_a ++ 0 ∷ option_bytes ((98 ∷ [], 99 ∷ []) ∷ []))))
    ≡ request name_a name_a (assign_all plain_platform ((98 ∷ [], 99 ∷ []) ∷ []) [])
parse_request-encoded_example =
    parse_request-encoded plain_platform name_a name_a ((98 ∷ [], 99 ∷ []) ∷ []) (refl, refl)
      (refl, refl) ((refl, refl), (refl, refl), record {}) (omega arith) refl
