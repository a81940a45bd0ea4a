-- ===== src/Tftp/Request.antt =====
-- jumpstarter_driver_tftp/server.py: `TftpServerProtocol`, which turns a datagram into a transfer or
-- an ERROR. A text is the list of its code points. Decoding UTF-8, the tables of Unicode and the
-- storage that files are served from are parameters.
pub mod Paths
pub mod Encoded
use jumpstarter.Common.{
  ℕ, zero, suc, ◌+◌, Bool, true, false, not, ◌&&◌, ◌||◌, Option, none, some, List, [], ◌∷◌, ◌++◌,
  ◌==◌, ltb, length, drop, String, if◌then◌else◌,
}
use jumpstarter.Tftp.{
  Bytes, Opcode, rrq, opcode_of, from_bytes2, TftpErrorCode, not_defined, file_not_found,
  access_violation, illegal_operation,
}

abbrev pub Text : Type 0
Text = List ℕ

-- `bytes.decode("utf-8")`: a text, or a `UnicodeDecodeError` with its message
pub data Decoded : Type 0 where
  decoded : Text → Decoded
  undecodable : String → Decoded

-- What `operator.stat` comes to: a file, something else, `FileNotFoundError`, another exception.
pub data Stat : Type 0 where
  is_file is_other missing : Stat
  stat_fails : String → Stat

pub record Platform : Type 0 where
  pub decode : Bytes → Decoded
  pub lower : Text → Text
  pub is_printable : ℕ → Bool
  pub stat : Text → Stat

abbrev pub text_eq : Text → Text → Bool
text_eq [] [] = true
text_eq [] (y ∷ ys) = false
text_eq (x ∷ xs) [] = false
text_eq (x ∷ xs) (y ∷ ys) = let rest = text_eq xs ys in x == y && rest

abbrev pub prepend : ℕ → List Text → List Text
prepend x [] = (x ∷ []) ∷ []
prepend x (p ∷ ps) = (x ∷ p) ∷ ps

-- `split` at a separator
abbrev pub split_at : ℕ → Text → List Text
split_at sep [] = [] ∷ []
split_at sep (x ∷ xs) = let rest = split_at sep xs in if x == sep then [] ∷ rest else prepend x rest

-- A dictionary of options, by assignment.
abbrev pub set_option : Text → Text → List (Text × Text) → List (Text × Text)
set_option name value [] = (name, value) ∷ []
set_option name value ((n, v) ∷ rest) =
    let later = set_option name value rest in
    if text_eq n name then (name, value) ∷ rest else (n, v) ∷ later

-- `_parse_options`: pairs, up to the first that cannot be decoded
unfoldable pub parse_options : Platform → List Bytes → List (Text × Text) → List (Text × Text)
parse_options p (name ∷ value ∷ rest) options = elim (p.decode name) [
  | decoded n ↦ elim (p.decode value) [
    | decoded v ↦ parse_options p rest (set_option (p.lower n) v options)
    | undecodable e ↦ options
  ]
  | undecodable e ↦ options
]
parse_options p [] options = options
parse_options p (part ∷ []) options = options

-- The characters `<>:"/\|?*`
abbrev pub is_reserved : ℕ → Bool
is_reserved c =
    c == 60 || c == 62 || c == 58 || c == 34 || c == 47 || c == 92 || c == 124 || c == 63 || c == 42

abbrev pub all_allowed : Platform → Text → Bool
all_allowed p [] = true
all_allowed p (c ∷ cs) =
    let rest = all_allowed p cs in p.is_printable c && not (is_reserved c) && rest

abbrev pub has_null : Text → Bool
has_null [] = false
has_null (c ∷ cs) = let rest = has_null cs in c == 0 || rest

-- The result of `_parse_request`, or the exception that it raises, by its message.
pub data Parsed : Type 0 where
  request : Text → Text → List (Text × Text) → Parsed
  refuses : String → Parsed

abbrev pub parse_mode : Platform → Text → Decoded → List Bytes → Parsed
unfolding parse_options
parse_mode p filename (undecodable e) rest = refuses e
parse_mode p filename (decoded mode) rest =
    request filename (p.lower mode) (parse_options p rest [])

abbrev pub parse_filename : Platform → Decoded → Bytes → List Bytes → Parsed
unfolding parse_options
parse_filename p (undecodable e) mode rest = refuses e
parse_filename p (decoded filename) mode rest =
    if ltb 255 (length filename)
    then refuses "Filename too long"
    else if not (all_allowed p filename)
    then refuses "Invalid characters in filename"
    else if has_null filename
    then refuses "Null byte in filename"
    else parse_mode p filename (p.decode mode) rest

abbrev pub parse_parts : Platform → List Bytes → Parsed
unfolding parse_options
parse_parts p (filename ∷ mode ∷ rest) = parse_filename p (p.decode filename) mode rest
parse_parts p _ = refuses "Invalid RRQ format"

unfoldable pub parse_request : Platform → Bytes → Parsed
unfolding parse_options
parse_request p bytes = parse_parts p (split_at 0 (drop 2 bytes))

-- What a datagram comes to: nothing, an ERROR, or a transfer of a file with options.
pub data Handled : Type 0 where
  ignored : Handled
  replies : TftpErrorCode → String → Handled
  transfers : Text → List (Text × Text) → Handled

-- `netascii` and `octet`
abbrev pub is_mode : Text → Bool
is_mode mode =
    text_eq mode (110 ∷ 101 ∷ 116 ∷ 97 ∷ 115 ∷ 99 ∷ 105 ∷ 105 ∷ [])
    || text_eq mode (111 ∷ 99 ∷ 116 ∷ 101 ∷ 116 ∷ [])

abbrev pub is_parent : Text → Bool
is_parent part = text_eq part (46 ∷ 46 ∷ [])

-- The parts of a relative `PurePosixPath`: no empty ones, and no `.`
abbrev pub proper_parts : List Text → List Text
proper_parts [] = []
proper_parts (x ∷ xs) =
    let rest = proper_parts xs in if text_eq x [] || text_eq x (46 ∷ []) then rest else x ∷ rest

abbrev pub parts : Text → List Text
parts path = proper_parts (split_at 47 path)

abbrev pub any_parent : List Text → Bool
any_parent [] = false
any_parent (x ∷ xs) = let rest = any_parent xs in is_parent x || rest

abbrev pub is_absolute : Text → Bool
is_absolute [] = false
is_absolute (c ∷ cs) = c == 47

abbrev pub by_stat : Stat → Text → List (Text × Text) → Handled
by_stat is_file filename options = transfers filename options
by_stat is_other filename options = replies file_not_found "Not a file"
by_stat missing filename options = replies file_not_found "File not found"
by_stat (stat_fails e) filename options = replies not_defined e

-- `_handle_read_request`, after `_parse_request`
abbrev pub serve_request : Platform → Parsed → Handled
serve_request p (refuses e) = replies not_defined e
serve_request p (request filename mode options) =
    if not (is_mode mode)
    then replies illegal_operation "Unsupported transfer mode"
    else if any_parent (parts filename) || is_absolute filename
    then replies access_violation "Access violation"
    else by_stat (p.stat filename) filename options

unfoldable pub handle_read_request : Platform → Bytes → Handled
unfolding parse_request
handle_read_request p bytes = serve_request p (parse_request p bytes)

abbrev pub by_request_opcode : Platform → Bytes → Option Opcode → Handled
unfolding handle_read_request
by_request_opcode p bytes none = replies illegal_operation "Unknown opcode"
by_request_opcode p bytes (some rrq) = handle_read_request p bytes
by_request_opcode p bytes (some _) = replies illegal_operation "Unsupported operation"

-- `TftpServerProtocol.datagram_received`; the request is handled in a task of its own
unfoldable pub request_received : Platform → Bool → Bytes → Handled
unfolding handle_read_request
request_received p shutting_down bytes =
    if ltb (length bytes) 4
    then replies illegal_operation "Malformed packet"
    else if shutting_down
    then ignored
    else by_request_opcode p bytes (opcode_of (from_bytes2 bytes))
