-- ===== src/Examples/Mocking.antt =====
-- The proxy's mock endpoints, a shell's token and an image's credentials at concrete inputs.
use Prim.Native.String.{count}
use jumpstarter.Mock.Rules.{Rule, handle_rules, serve}
use jumpstarter.Shell.{
  attempt_token_recovery, Answers, monitor_token_expiry, ShellState, no_warnings,
}
use jumpstarter.Oci.{
  Library, OciCredentials, resolve_oci_credentials, AuthFile, auths, no_file, not_an_object,
  attribute_error,
}
use jumpstarter.Common.{
  ℕ, String, [], get_elem?, List, none, some, ◌∷◌, ◌≡◌, Option, true, str_eq, refl, replicate, ◌++◌,
  arith, false, ◌||◌, leb,
}
use jumpstarter.Mock.Conditions.{Request, ProxyLibrary, MatchRules, matches_conditions}
use jumpstarter.Mock.Endpoints.{pos, negsuc, Endpoint, Candidate, find_endpoint, ltz}
use jumpstarter.Mock.Endpoints.Order.{In}
use jumpstarter.Mock.Endpoints.Best.{answers, find_endpoint-best}
use jumpstarter.Mock.Sequences.{SequenceStep, no_progress, handle_sequence_timed, counted_step}
use jumpstarter.Mock.Sequences.Served.{serve_all, script, serve_all-script}
use jumpstarter.Mock.Sequences.Timing.{elapsed_steps, last_or, handle_sequence_timed-elapsed}
use jumpstarter.Mock.Sequences.Overlap.{overlapping, overlapping_repeats, arrived, sent}
use jumpstarter.Mock.Rules.Sharing.{rules_share_calls}
use jumpstarter.Shell.Recovery.{RecoveryEnds, attempt_token_recovery-RecoveryEnds}
use jumpstarter.Shell.Warnings.{said_expired, said_once, monitor_token_expiry-told}
use jumpstarter.Oci.Complete.{is_complete, resolve_oci_credentials_complete}
use jumpstarter.Oci.Levels.{resolve_oci_credentials-not_an_object}

abbrev platform : ProxyLibrary
platform = record { loads = λ text. none; int_of = λ text. none; lower = λ text. text }

abbrev get_speed : Request
get_speed = record {
  method = "GET";
  path = "/api/speed";
  header = λ name. none;
  query = λ name. none;
  content = none;
}

abbrev endpoints : List (String × Endpoint ℕ)
endpoints =
    ("GET /api/speed", record { priority = pos 0; matching = none; definition = 1 })
    ∷ ("* /*", record { priority = pos 5; matching = none; definition = 2 })
    ∷ ("GET /api/*", record { priority = negsuc 0; matching = none; definition = 3 })
    ∷ []

find_endpoint-best_example :
    (d : Candidate ℕ) × (find_endpoint platform endpoints "GET" "/api/speed" get_speed ≡ some d)
    × (answers platform endpoints "GET" "/api/speed" get_speed d.0 d.1 ≡ true)
    × In d endpoints
    × (ltz d.1.priority (pos 0) ≡ false)
    × ((ltz (pos 0) d.1.priority || leb 14 (count d.0)) ≡ true)
unfolding matches_conditions
find_endpoint-best_example =
    find_endpoint-best platform endpoints "GET" "/api/speed" get_speed "GET /api/speed"
      (record { priority = pos 0; matching = none; definition = 1 }) refl refl

abbrev boots : List (SequenceStep String)
boots =
    record { repeat = some 2; delay_ms = none; response = "booting" }
    ∷ record { repeat = some 1; delay_ms = none; response = "ready" }
    ∷ []

serve_all-script_example :
    get_elem? (serve_all 5 "GET /state" boots no_progress).0 4 ≡ some (get_elem? (script 5 boots) 4)
serve_all-script_example = serve_all-script 5 4 "GET /state" boots (omega arith)

abbrev at_once : SequenceStep String
at_once = record { repeat = none; delay_ms = none; response = "parked" }

abbrev later_steps : List (SequenceStep String)
later_steps =
    record { repeat = none; delay_ms = some 500; response = "starting" }
    ∷ record { repeat = none; delay_ms = some 2000; response = "driving" }
    ∷ []

handle_sequence_timed-elapsed_example :
    (handle_sequence_timed 1700 "GET /car"
      (at_once ∷ later_steps)
      (handle_sequence_timed 1000 "GET /car" (at_once ∷ later_steps) no_progress).1).0
    ≡ some (last_or at_once (elapsed_steps 1000 1700 (at_once ∷ later_steps)))
handle_sequence_timed-elapsed_example =
    handle_sequence_timed-elapsed 1000 1700 "GET /car" at_once later_steps no_progress refl refl

overlapping_repeats_example :
    overlapping "GET /state"
      (record { repeat = some 1; delay_ms = none; response = "one" } ∷ boots)
      (replicate 2 arrived ++ (replicate 2 sent ++ arrived ∷ []))
      no_progress
    ≡ replicate 2
        (counted_step 0 (record { repeat = some 1; delay_ms = none; response = "one" } ∷ boots))
      ++ counted_step 2 (record { repeat = some 1; delay_ms = none; response = "one" } ∷ boots) ∷ []
overlapping_repeats_example =
    overlapping_repeats 2 "GET /state"
      (record { repeat = some 1; delay_ms = none; response = "one" }) boots no_progress

-- A rule for the requests that ask for one user, and one for all others.
abbrev for_user : MatchRules
for_user = record {
  headers = [];
  headers_absent = [];
  query = ("user", "me") ∷ [];
  body_contains = "";
  body_json = [];
}

abbrev user_rule : Rule String
user_rule = record { matching = some for_user; sequence = some boots; response = "" }

abbrev booted : SequenceStep String
booted = record { repeat = some 1; delay_ms = none; response = "booted" }

abbrev ready : SequenceStep String
ready = record { repeat = none; delay_ms = none; response = "ready" }

abbrev any_rule : Rule String
any_rule = record { matching = none; sequence = some (booted ∷ ready ∷ []); response = "" }

abbrev get_mine : Request
get_mine = record {
  method = "GET";
  path = "/api/speed";
  header = λ name. none;
  query = λ name. some "me";
  content = none;
}

rules_share_calls_example :
    (handle_rules platform 0 get_speed "GET /api/speed"
      (user_rule ∷ any_rule ∷ [])
      (handle_rules platform 0 get_mine "GET /api/speed"
        (user_rule ∷ any_rule ∷ [])
        no_progress).1).0
    ≡ serve ready
unfolding matches_conditions
rules_share_calls_example =
    rules_share_calls platform 0 "GET /api/speed" get_mine get_speed user_rule any_rule
      (record { repeat = some 2; delay_ms = none; response = "booting" }) booted ready
      (record { repeat = some 1; delay_ms = none; response = "ready" } ∷ []) [] refl refl refl refl
      refl refl refl refl refl

-- A refresh that fails, and a login in another terminal.
abbrev login : Answers
login = record {
  issuer = some "issuer";
  refresh_token_grant = none;
  disk_config = some (some "new", some "renew");
  disk_remaining = some 3600;
  has_path = true;
  channel = true;
}

abbrev refused : Answers
refused = record {
  issuer = none;
  refresh_token_grant = none;
  disk_config = none;
  disk_remaining = none;
  has_path = true;
  channel = true;
}

abbrev old_shell : ShellState
old_shell = record {
  config = record { token = "old"; refresh_token = some "expired" };
  channel_token = some "old";
}

attempt_token_recovery-RecoveryEnds_example :
    RecoveryEnds login old_shell (attempt_token_recovery login old_shell)
attempt_token_recovery-RecoveryEnds_example = attempt_token_recovery-RecoveryEnds login old_shell

abbrev turns : List (Answers × Option ℕ)
turns = (refused, some 60) ∷ (refused, some 0) ∷ (refused, some 0) ∷ (login, some 0) ∷ []

monitor_token_expiry-told_example :
    ((monitor_token_expiry turns (old_shell, no_warnings)).1.expired_unrecovered
      ≡ said_expired false (monitor_token_expiry turns (old_shell, no_warnings)).2)
    × (said_once false (monitor_token_expiry turns (old_shell, no_warnings)).2 ≡ true)
monitor_token_expiry-told_example = monitor_token_expiry-told turns old_shell

abbrev library : Library
library = record {
  strip_digest = λ url. url;
  netloc = λ url. url;
  isdigit = λ text. str_eq text "5000";
}

abbrev auth_file : AuthFile
auth_file = auths (
    (
      "quay.io",
      some (record { auth = some (some "robot:secret"); username = none; password = none }),
    )
    ∷ [])

abbrev robot : OciCredentials
robot = record { username = some "robot"; password = some "secret" }

resolve_oci_credentials_complete_example : is_complete robot ≡ true
unfolding resolve_oci_credentials
resolve_oci_credentials_complete_example =
    resolve_oci_credentials_complete library [] (no_file ∷ auth_file ∷ []) "oci://quay.io/org/image"
      (none, none) (some "half", none) robot refl

resolve_oci_credentials-not_an_object_example :
    resolve_oci_credentials library []
      ((no_file ∷ []) ++ not_an_object ∷ auth_file ∷ [])
      "oci://quay.io/org/image"
      (none, none)
      (none, none)
    ≡ attribute_error
resolve_oci_credentials-not_an_object_example =
    resolve_oci_credentials-not_an_object library [] (no_file ∷ []) (auth_file ∷ [])
      "oci://quay.io/org/image" refl
