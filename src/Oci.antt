-- ===== src/Oci.antt =====
-- python/packages/jumpstarter/jumpstarter/common/oci.py: the credentials for a registry of images,
-- from the arguments, the environment and the auth files. The files are what reading them gives.
pub mod Complete
pub mod Levels
use Prim.Native.Char.{code}
use jumpstarter.Common.{
  Option, String, if◌then◌else◌, List, none, Bool, false, split_first, some, occurs_in, strip_last,
  not, is_some, ◌&&◌, ◌∷◌, mem_text, ◌||◌, str_eq, true, [], strip, ◌==◌, truthy, remove_prefix,
}

pub record OciCredentials : Type 0 where
  pub username : Option String
  pub password : Option String

abbrev pub no_credentials : OciCredentials
no_credentials = record { username = none; password = none }

-- `_normalize_empty`
abbrev pub normalize_empty : Option String → Option String
normalize_empty none = none
normalize_empty (some v) = if str_eq (strip v) "" then none else some (strip v)

abbrev pub same_test : Bool → Bool → Bool
same_test true b = b
same_test false b = not b

-- `OciCredentials(…)`: none for a `ValidationError`, when just one of the two is there
unfoldable pub make_credentials : Option String → Option String → Option OciCredentials
make_credentials username password =
    if same_test (is_some (normalize_empty username)) (is_some (normalize_empty password))
    then some (record { username = normalize_empty username; password = normalize_empty password })
    else none

abbrev pub is_authenticated : OciCredentials → Bool
is_authenticated c = is_some c.username && is_some c.password

-- A `registries.conf`: no file, one that cannot be opened or is not TOML, or the texts of its list.
-- One that is not UTF-8, or has no list there, is left out.
pub data Conf : Type 0 where
  no_conf bad_conf : Conf
  conf : List String → Conf

abbrev pub non_blank : List String → List String
non_blank [] = []
non_blank (r ∷ rs) = let later = non_blank rs in if str_eq (strip r) "" then later else r ∷ later

abbrev pub or_next : List String → List String → List String
or_next [] later = later
or_next (r ∷ rs) later = r ∷ rs

-- `_get_unqualified_search_registries`
abbrev pub get_unqualified_search_registries : List Conf → List String
get_unqualified_search_registries [] = "docker.io" ∷ []
get_unqualified_search_registries (conf rs ∷ confs) =
    or_next (non_blank rs) (get_unqualified_search_registries confs)
get_unqualified_search_registries (no_conf ∷ confs) = get_unqualified_search_registries confs
get_unqualified_search_registries (bad_conf ∷ confs) = get_unqualified_search_registries confs

-- An entry of `auths`; for "auth", none where it is missing or empty, and else what decoding gives,
-- none where that fails.
pub record AuthEntry : Type 0 where
  pub auth : Option (Option String)
  pub username : Option String
  pub password : Option String

-- An auth file: none there, one that cannot be opened or is not JSON, one that is not UTF-8, JSON that
-- is not of the expected objects, or its entries, none for one that is no object.
pub data AuthFile : Type 0 where
  no_file bad_file not_utf8 not_an_object : AuthFile
  auths : List (String × Option AuthEntry) → AuthFile

-- What the code does of Python: `re.sub` of a digest, the host of a URL, and
-- `str.isdigit`.
pub record Library : Type 0 where
  pub strip_digest : String → String
  pub netloc : String → String
  pub isdigit : String → Bool

abbrev pub before_colon : String → Option (String × String) → String
before_colon text none = text
before_colon text (some (host, rest)) = host

abbrev pub has_prefix_removed : String → Option String → String
has_prefix_removed url none = url
has_prefix_removed url (some rest) = rest

abbrev pub port_of : Option (String × String) → Option String
port_of none = none
port_of (some (host, port)) = some port

abbrev pub has_port : Library → String → Bool
has_port lib registry = elim (port_of (split_first b':' registry)) [
  | none ↦ false
  | some port ↦ lib.isdigit port
]

abbrev pub is_host : String → Bool
is_host registry = occurs_in "." registry || str_eq registry "localhost"

-- The choice of `_parse_registries_for_url`, with no slash and with one.
abbrev pub choose_registries : Library → List Conf → String → Option (String × String) → List String
choose_registries lib confs url none =
    if occurs_in ":" url
    then (if has_port lib url then url ∷ [] else get_unqualified_search_registries confs)
    else (if is_host url then url ∷ [] else get_unqualified_search_registries confs)
choose_registries lib confs url (some (registry, image)) =
    if is_host registry || has_port lib registry
    then registry ∷ []
    else get_unqualified_search_registries confs

unfoldable pub parse_registries_for_url : Library → List Conf → String → List String
parse_registries_for_url lib confs oci_url =
    let url = lib.strip_digest (has_prefix_removed oci_url (remove_prefix "oci://" oci_url)) in
    choose_registries lib confs url (split_first b'/' url)

-- `_normalize_registry`
abbrev pub is_docker_hub : String → Bool
is_docker_hub host =
    mem_text host
      ("index.docker.io" ∷ "registry-1.docker.io" ∷ "registry.hub.docker.com" ∷ "docker.io" ∷ [])

abbrev pub normalize_registry : Library → String → String
normalize_registry lib registry =
    let host =
      strip_last b'/' (if occurs_in "://" registry then lib.netloc registry else registry) in
    if is_docker_hub (before_colon host (split_first b':' host)) then "docker.io" else host

-- The values of two fields that are both truthy, made into credentials: none where one is not, or
-- where the constructor's error is caught.
abbrev pub of_fields : Option String → Option String → Option OciCredentials
unfolding make_credentials
of_fields username password =
    if truthy username && truthy password then make_credentials username password else none

abbrev pub of_pair : Option (String × String) → Option OciCredentials
unfolding make_credentials
of_pair none = none
of_pair (some (username, password)) = of_fields (some username) (some password)

abbrev pub of_decoded : Option (Option String) → Option OciCredentials
unfolding make_credentials
of_decoded none = none
of_decoded (some none) = none
of_decoded (some (some decoded)) = of_pair (split_first b':' decoded)

abbrev pub or_creds : Option OciCredentials → Option OciCredentials → Option OciCredentials
or_creds none later = later
or_creds (some c) later = some c

abbrev pub of_entry : Option AuthEntry → Option OciCredentials
unfolding make_credentials
of_entry none = none
of_entry (some e) = or_creds (of_decoded e.auth) (of_fields e.username e.password)

-- The loop of `_lookup_credentials_in_auth_data`.
abbrev pub lookup_entries :
    Library → List (String × Option AuthEntry) → String → Option OciCredentials
unfolding make_credentials
lookup_entries lib [] registry = none
lookup_entries lib ((key, e) ∷ rest) registry =
    let later = lookup_entries lib rest registry in
    if str_eq (normalize_registry lib key) registry then or_creds (of_entry e) later else later

abbrev pub or_no_credentials : Option OciCredentials → OciCredentials
or_no_credentials none = no_credentials
or_no_credentials (some c) = c

-- `_lookup_credentials_in_auth_data`
unfoldable pub lookup_credentials_in_auth_data :
    Library → List (String × Option AuthEntry) → String → OciCredentials
unfolding make_credentials
lookup_credentials_in_auth_data lib entries registry =
    or_no_credentials (lookup_entries lib entries registry)

-- What the search of the files, or the whole resolution, gives. `unicode_error` is the
-- `UnicodeDecodeError` of `read_text`, which is not among the errors that are caught.
pub data Resolved : Type 0 where
  attribute_error unicode_error value_error : Resolved
  resolved : OciCredentials → Resolved

-- The loop over the files for one registry: none when nothing is found in them.
abbrev pub search_files : Library → String → List AuthFile → Option Resolved
unfolding lookup_credentials_in_auth_data
search_files lib registry [] = none
search_files lib registry (no_file ∷ files) = search_files lib registry files
search_files lib registry (bad_file ∷ files) = search_files lib registry files
search_files lib registry (not_utf8 ∷ files) = some unicode_error
search_files lib registry (not_an_object ∷ files) = some attribute_error
search_files lib registry (auths entries ∷ files) =
    let creds = lookup_credentials_in_auth_data lib entries registry in
    let later = search_files lib registry files in
    if is_authenticated creds then some (resolved creds) else later

abbrev pub or_result : Option Resolved → Option Resolved → Option Resolved
or_result none later = later
or_result (some r) later = some r

abbrev pub search_registries : Library → List String → List AuthFile → Option Resolved
unfolding lookup_credentials_in_auth_data
search_registries lib [] files = none
search_registries lib (r ∷ rs) files =
    or_result (search_files lib (normalize_registry lib r) files) (search_registries lib rs files)

abbrev pub or_nothing : Option Resolved → Resolved
or_nothing none = resolved no_credentials
or_nothing (some r) = r

unfoldable pub read_auth_file_credentials : Library → List Conf → List AuthFile → String → Resolved
unfolding lookup_credentials_in_auth_data parse_registries_for_url
read_auth_file_credentials lib confs files oci_url =
    or_nothing (search_registries lib (parse_registries_for_url lib confs oci_url) files)

abbrev pub is_given : Option String → Option String → Bool
is_given username password = is_some username || is_some password

-- The credentials of one level, if they are complete.
abbrev pub or_lower : OciCredentials → Resolved → Resolved
or_lower c lower = if is_authenticated c then resolved c else lower

abbrev pub or_value_error : Option OciCredentials → Resolved → Resolved
or_value_error none lower = value_error
or_value_error (some c) lower = or_lower c lower

abbrev pub or_ignore : Option OciCredentials → Resolved → Resolved
or_ignore none lower = lower
or_ignore (some c) lower = or_lower c lower

abbrev pub from_environment : Option String → Option String → Resolved → Resolved
unfolding make_credentials
from_environment username password files =
    if is_given username password
    then or_ignore (make_credentials username password) files
    else files

abbrev pub from_arguments : Option String → Option String → Resolved → Resolved
unfolding make_credentials
from_arguments username password lower =
    if is_given username password
    then or_value_error (make_credentials username password) lower
    else lower

-- `resolve_oci_credentials`, with the arguments and then the environment's variables
unfoldable pub resolve_oci_credentials :
    Library
    → List Conf
    → List AuthFile
    → String
    → Option String × Option String
    → Option String × Option String
    → Resolved
unfolding make_credentials read_auth_file_credentials
resolve_oci_credentials lib confs files oci_url (username, password) (env_username, env_password) =
    from_arguments username password (
      from_environment env_username env_password
        (read_auth_file_credentials lib confs files oci_url))
