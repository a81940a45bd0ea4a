-- ===== src/Oci/Levels.antt =====
-- oci.py: the levels of the resolution, and the auth files that stop it.
use jumpstarter.Common.{
  List, Bool, String, Option, true, ◌≡◌, false, ◌∷◌, ◌++◌, ◌&&◌, refl, [], is_some, if_both, some,
  occurs_in, none, ◌||◌, arith, ap, split_first,
}
use jumpstarter.Oci.{
  Resolved, resolve_oci_credentials, make_credentials, AuthFile, Library, search_files,
  read_auth_file_credentials, parse_registries_for_url, Conf, get_unqualified_search_registries,
  or_next, choose_registries, same_test, not_an_object, not_utf8, no_file, conf, bad_file,
  non_blank, normalize_empty, has_port, no_conf, attribute_error, bad_conf, is_host, auths,
  search_registries, has_prefix_removed, from_environment, from_arguments, or_result, remove_prefix,
  is_given, normalize_registry, or_ignore, or_nothing,
}

next_there :
    (rs later : List String)
    → (x : String) × (xs : List String) × (later ≡ x ∷ xs)
    → (x : String) × (xs : List String) × (or_next rs later ≡ x ∷ xs)
next_there [] later h = h
next_there (r ∷ rs) later h = (r, rs, refl)

-- There is a registry to search.
unqualified_there :
    (confs : List Conf)
    → (x : String) × (xs : List String) × (get_unqualified_search_registries confs ≡ x ∷ xs)
unqualified_there [] = ("docker.io", [], refl)
unqualified_there (conf rs ∷ confs) =
    next_there (non_blank rs) (get_unqualified_search_registries confs) (unqualified_there confs)
unqualified_there (no_conf ∷ confs) = unqualified_there confs
unqualified_there (bad_conf ∷ confs) = unqualified_there confs

abbrev Some : List String → Type 0
Some rs = (x : String) × (xs : List String) × (rs ≡ x ∷ xs)

choose_there :
    (lib : Library) (confs : List Conf) (url : String) (parts : Option (String × String))
    → Some (choose_registries lib confs url parts)
choose_there lib confs url none =
    if_both (λ (rs : List String). Some rs) (occurs_in ":" url)
      (if_both (λ (rs : List String). Some rs) (has_port lib url) (url, [], refl)
        (unqualified_there confs))
      (if_both (λ (rs : List String). Some rs) (is_host url) (url, [], refl)
        (unqualified_there confs))
choose_there lib confs url (some (registry, image)) =
    if_both (λ (rs : List String). Some rs) (is_host registry || has_port lib registry)
      (registry, [], refl) (unqualified_there confs)

-- A file that is skipped: not there, or one that cannot be opened or is not JSON.
abbrev pub is_skipped : AuthFile → Bool
is_skipped no_file = true
is_skipped bad_file = true
is_skipped f = false

abbrev pub all_skipped : List AuthFile → Bool
all_skipped [] = true
all_skipped (f ∷ files) = let later = all_skipped files in is_skipped f && later

stops :
    (lib : Library) (registry : String) (skipped files : List AuthFile)
    → all_skipped skipped ≡ true
    → search_files lib registry (skipped ++ not_an_object ∷ files) ≡ some attribute_error
unfolding search_files
stops lib registry [] files h = refl
stops lib registry (no_file ∷ skipped) files h = stops lib registry skipped files h
stops lib registry (bad_file ∷ skipped) files h = stops lib registry skipped files h
stops lib registry (not_utf8 ∷ skipped) files h = absurd (ground (arith, h))
stops lib registry (not_an_object ∷ skipped) files h = refl
stops lib registry (auths entries ∷ skipped) files h = absurd (ground (arith, h))

stops_all :
    (lib : Library) (rs : List String)
    → Some rs
    → (skipped files : List AuthFile) → all_skipped skipped ≡ true
    → search_registries lib rs (skipped ++ not_an_object ∷ files) ≡ some attribute_error
unfolding search_registries
stops_all lib rs (x, xs, e) skipped files h = rw e (
    ap (λ o. or_result o (search_registries lib xs (skipped ++ not_an_object ∷ files)))
      (stops lib (normalize_registry lib x) skipped files h))

partial_skipped :
    (files : Resolved) (u p : Option String)
    → same_test (is_some (normalize_empty u)) (is_some (normalize_empty p)) ≡ false
    → from_environment u p files ≡ files
unfolding from_environment make_credentials
partial_skipped files u p h =
    if_both (λ (r : Resolved). r ≡ files) (is_given u p)
      {x = or_ignore (make_credentials u p) files} {y = files} (rw h refl) refl

-- With no arguments and no variables, an auth file with JSON of another form than the expected
-- objects, where the files before it are missing, cannot be opened or are not JSON, stops the
-- resolution with an error: the files after it are not looked at.
pub resolve_oci_credentials-not_an_object :
    (lib : Library) (confs : List Conf) (skipped files : List AuthFile) (oci_url : String)
    → all_skipped skipped ≡ true
    → resolve_oci_credentials lib confs
        (skipped ++ not_an_object ∷ files)
        oci_url
        (none, none)
        (none, none)
      ≡ attribute_error
unfolding resolve_oci_credentials read_auth_file_credentials parse_registries_for_url
resolve_oci_credentials-not_an_object lib confs skipped files oci_url h =
    let url = lib.strip_digest (has_prefix_removed oci_url (remove_prefix "oci://" oci_url)) in
    let some_registry = choose_there lib confs url (split_first b'/' url) in
    ap or_nothing (
      stops_all lib (choose_registries lib confs url (split_first b'/' url)) some_registry skipped
        files h)

-- Where just one of the two variables is there and not blank, they count as if neither were set: the
-- resolution is the same, with no error.
pub resolve_oci_credentials-partial_env :
    (lib : Library) (confs : List Conf) (files : List AuthFile) (oci_url : String)
    (args : Option String × Option String) (u p : Option String)
    → same_test (is_some (normalize_empty u)) (is_some (normalize_empty p)) ≡ false
    → resolve_oci_credentials lib confs files oci_url args (u, p)
      ≡ resolve_oci_credentials lib confs files oci_url args (none, none)
unfolding resolve_oci_credentials make_credentials
resolve_oci_credentials-partial_env lib confs files oci_url args u p h =
    ap (from_arguments args.0 args.1)
      (partial_skipped (read_auth_file_credentials lib confs files oci_url) u p h)
