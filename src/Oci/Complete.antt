-- ===== src/Oci/Complete.antt =====
-- oci.py: the credentials that are resolved are complete.
use jumpstarter.Common.{
  Bool, Option, true, String, ◌≡◌, if◌then◌else◌, List, is_some, some, split_first, ◌&&◌, if_both,
  none, not, Bool-cases, str_eq, arith, ◌∷◌, refl, strip, inl, [], inr, ap, sym, ◌∙◌, truthy,
}
use jumpstarter.Oci.{
  OciCredentials, Resolved, resolve_oci_credentials, Library, make_credentials, of_entry, of_pair,
  of_decoded, lookup_entries, search_files, AuthEntry, same_test, search_registries,
  normalize_empty, or_no_credentials, or_lower, or_creds, or_nothing, of_fields,
  lookup_credentials_in_auth_data, resolved, or_result, AuthFile, attribute_error, unicode_error,
  value_error, is_authenticated, auths, normalize_registry, no_file, bad_file, not_utf8,
  not_an_object, from_environment, from_arguments, or_ignore, read_auth_file_credentials,
  or_value_error, is_given, Conf, parse_registries_for_url,
}

abbrev pub non_empty : Option String → Bool
non_empty none = true
non_empty (some t) = not (str_eq t "")

-- Both are there, and neither is empty, or neither is there.
abbrev pub is_complete : OciCredentials → Bool
is_complete c =
    same_test (is_some c.username) (is_some c.password)
    && (non_empty c.username && non_empty c.password)

abbrev all_complete : Option OciCredentials → Bool
all_complete none = true
all_complete (some c) = is_complete c

abbrev gives_complete : Resolved → Bool
gives_complete attribute_error = true
gives_complete unicode_error = true
gives_complete value_error = true
gives_complete (resolved c) = is_complete c

abbrev maybe_complete : Option Resolved → Bool
maybe_complete none = true
maybe_complete (some r) = gives_complete r

normalized : (v : Option String) → non_empty (normalize_empty v) ≡ true
normalized none = refl
normalized (some v) = elim (Bool-cases (str_eq (strip v) "")) [
  | inl e ↦ rw e refl
  | inr e ↦ rw (e, e) refl
]

made :
    (u p : Option String)
    → non_empty u ≡ true
    → non_empty p ≡ true
    → all_complete (
        if same_test (is_some u) (is_some p)
        then some (record { username = u; password = p })
        else none)
      ≡ true
made none none h g = refl
made none (some p) h g = refl
made (some u) none h g = refl
made (some u) (some p) h g = ground (arith, h, g)

make_credentials_complete : (u p : Option String) → all_complete (make_credentials u p) ≡ true
unfolding make_credentials
make_credentials_complete u p =
    made (normalize_empty u) (normalize_empty p) (normalized u) (normalized p)

fields_complete : (u p : Option String) → all_complete (of_fields u p) ≡ true
unfolding of_fields
fields_complete u p =
    if_both (λ (o : Option OciCredentials). all_complete o ≡ true) (truthy u && truthy p)
      (make_credentials_complete u p) refl

or_creds_complete :
    (o later : Option OciCredentials)
    → all_complete o ≡ true
    → all_complete later ≡ true
    → all_complete (or_creds o later) ≡ true
or_creds_complete none later h g = g
or_creds_complete (some c) later h g = h

pair_complete : (p : Option (String × String)) → all_complete (of_pair p) ≡ true
unfolding of_pair
pair_complete none = refl
pair_complete (some (u, p)) = fields_complete (some u) (some p)

decoded_complete : (d : Option (Option String)) → all_complete (of_decoded d) ≡ true
unfolding of_decoded
decoded_complete none = refl
decoded_complete (some none) = refl
decoded_complete (some (some d)) = pair_complete (split_first b':' d)

entry_complete : (e : Option AuthEntry) → all_complete (of_entry e) ≡ true
unfolding of_entry
entry_complete none = refl
entry_complete (some e) =
    or_creds_complete (of_decoded e.auth) (of_fields e.username e.password)
      (decoded_complete e.auth) (fields_complete e.username e.password)

module _ (lib : Library) where
  entries_complete :
      (entries : List (String × Option AuthEntry)) (registry : String)
      → all_complete (lookup_entries lib entries registry) ≡ true
  unfolding lookup_entries
  entries_complete [] registry = refl
  entries_complete ((key, e) ∷ rest) registry =
      let later = entries_complete rest registry in
      if_both (λ (o : Option OciCredentials). all_complete o ≡ true)
        (str_eq (normalize_registry lib key) registry)
        (or_creds_complete (of_entry e) (lookup_entries lib rest registry) (entry_complete e) later)
        later

  or_none_complete :
      (o : Option OciCredentials) → all_complete o ≡ true → is_complete (or_no_credentials o) ≡ true
  or_none_complete none h = refl
  or_none_complete (some c) h = h

  files_complete :
      (registry : String) (files : List AuthFile)
      → maybe_complete (search_files lib registry files) ≡ true
  unfolding search_files lookup_credentials_in_auth_data
  files_complete registry [] = refl
  files_complete registry (no_file ∷ files) = files_complete registry files
  files_complete registry (bad_file ∷ files) = files_complete registry files
  files_complete registry (not_utf8 ∷ files) = refl
  files_complete registry (not_an_object ∷ files) = refl
  files_complete registry (auths entries ∷ files) =
      if_both (λ (o : Option Resolved). maybe_complete o ≡ true)
        (is_authenticated (lookup_credentials_in_auth_data lib entries registry))
        (or_none_complete (lookup_entries lib entries registry) (entries_complete entries registry))
        (files_complete registry files)

  either_complete :
      (o later : Option Resolved)
      → maybe_complete o ≡ true
      → maybe_complete later ≡ true
      → maybe_complete (or_result o later) ≡ true
  either_complete none later h g = g
  either_complete (some r) later h g = h

  registries_complete :
      (rs : List String) (files : List AuthFile)
      → maybe_complete (search_registries lib rs files) ≡ true
  unfolding search_registries
  registries_complete [] files = refl
  registries_complete (r ∷ rs) files =
      either_complete (search_files lib (normalize_registry lib r) files)
        (search_registries lib rs files) (files_complete (normalize_registry lib r) files)
        (registries_complete rs files)

  nothing_complete :
      (o : Option Resolved) → maybe_complete o ≡ true → gives_complete (or_nothing o) ≡ true
  nothing_complete none h = refl
  nothing_complete (some r) h = h

  lower_complete :
      (c : OciCredentials) (lower : Resolved)
      → is_complete c ≡ true
      → gives_complete lower ≡ true
      → gives_complete (or_lower c lower) ≡ true
  lower_complete c lower h g =
      if_both (λ (r : Resolved). gives_complete r ≡ true) (is_authenticated c) h g

  error_complete :
      (o : Option OciCredentials) (lower : Resolved)
      → all_complete o ≡ true
      → gives_complete lower ≡ true
      → gives_complete (or_value_error o lower) ≡ true
  error_complete none lower h g = refl
  error_complete (some c) lower h g = lower_complete c lower h g

  ignore_complete :
      (o : Option OciCredentials) (lower : Resolved)
      → all_complete o ≡ true
      → gives_complete lower ≡ true
      → gives_complete (or_ignore o lower) ≡ true
  ignore_complete none lower h g = g
  ignore_complete (some c) lower h g = lower_complete c lower h g

  environment_complete :
      (u p : Option String) (files : Resolved)
      → gives_complete files ≡ true
      → gives_complete (from_environment u p files) ≡ true
  unfolding from_environment
  environment_complete u p files h =
      if_both (λ (r : Resolved). gives_complete r ≡ true) (is_given u p)
        (ignore_complete (make_credentials u p) files (make_credentials_complete u p) h) h

  arguments_complete :
      (u p : Option String) (lower : Resolved)
      → gives_complete lower ≡ true
      → gives_complete (from_arguments u p lower) ≡ true
  unfolding from_arguments
  arguments_complete u p lower h =
      if_both (λ (r : Resolved). gives_complete r ≡ true) (is_given u p)
        (error_complete (make_credentials u p) lower (make_credentials_complete u p) h) h

  -- Credentials that are resolved, from whichever level, are a username and a password that are both
  -- there and not empty, or neither of the two.
  pub resolve_oci_credentials_complete :
      (confs : List Conf) (files : List AuthFile) (oci_url : String)
      (args env : Option String × Option String) (c : OciCredentials)
      → resolve_oci_credentials lib confs files oci_url args env ≡ resolved c
      → is_complete c ≡ true
  unfolding resolve_oci_credentials read_auth_file_credentials
  resolve_oci_credentials_complete confs files oci_url args env c h =
      let read =
        nothing_complete (search_registries lib (parse_registries_for_url lib confs oci_url) files)
          (registries_complete (parse_registries_for_url lib confs oci_url) files) in
      ap gives_complete (sym h)
      ∙ arguments_complete args.0 args.1
          (from_environment env.0 env.1 (read_auth_file_credentials lib confs files oci_url))
          (environment_complete env.0 env.1 (read_auth_file_credentials lib confs files oci_url)
            read)
