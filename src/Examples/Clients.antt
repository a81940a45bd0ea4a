-- ===== src/Examples/Clients.antt =====
-- A client's lease and an exporter's restarts at concrete inputs.
use jumpstarter.Client.Acquire.Requests.{Rests, request-acquired}
use jumpstarter.Client.Conditions.{condition_true, condition_present_and_equal}
use jumpstarter.Exporter.Streams.Forwards.{is_empty, retry_stream-forwards}
use jumpstarter.Rpc.{failed_precondition, unavailable}
use jumpstarter.Supervisor.Restarts.{AllRestart, serve_with_exc_handling-rapid}
use jumpstarter.Client.Acquire.{
  Wanted, Controller, LeaseInfo, got, create_fails, request, acquire_from, judge,
}
use jumpstarter.Common.{
  ℕ, List, some, ◌≡◌, false, ◌∷◌, true, [], none, refl, arith, ◌++◌, ◌||◌, suc, zero,
}
use jumpstarter.Client.Dial.{DialWorld, DialAnswer, dial_with_retry, dial_error, dialled}
use jumpstarter.Client.Dial.Ends.{Told, dial_with_retry_ends}
use jumpstarter.Exporter.Streams.{retry_stream, Opening, fails}
use jumpstarter.Supervisor.{handle_parent, FailureDetection, serve_with_exc_handling, Child, exited}

-- The exporter is not ready twice and then answers.
abbrev slow_answers : ℕ → DialAnswer
slow_answers zero = dial_error failed_precondition "exporter not ready"
slow_answers (suc zero) = dial_error unavailable ""
slow_answers _ = dialled

abbrev slow_exporter : DialWorld
slow_exporter = record {
  lower = λ text. text;
  answer = slow_answers;
  took = λ n. 10;
  late = λ n. 0;
}

dial_with_retry_ends_example :
    Told slow_exporter 60000 0 200 (dial_with_retry 201 slow_exporter 60000)
dial_with_retry_ends_example = dial_with_retry_ends slow_exporter 60000 200 (omega arith)

abbrev ready_info : LeaseInfo
ready_info = record {
  conditions = record { type_name = "Ready"; status = "True"; reason = ""; message = "" } ∷ [];
  exporter = "board";
  client = "me";
  selector = "";
  effective_end_time = none;
}

-- Every poll finds the lease ready; nothing is created.
abbrev willing : Controller
willing = record { poll = λ n name. got ready_info; create = λ n name. create_fails }

abbrev wanted : Wanted
wanted = record { name = some "mine"; client_name = some "me"; selector = none }

request-acquired_example : Rests 3 willing wanted "mine" "board" (got ready_info)
unfolding request acquire_from judge condition_true condition_present_and_equal
request-acquired_example = request-acquired 3 willing wanted "mine" "board" (got ready_info) refl

abbrev detection : FailureDetection
detection = record { max_rapid_failures = 2; rapid_failure_window = 60 }

abbrev crashes : List Child
crashes =
    record { status = exited 0; elapsed = 1000 }
    ∷ record { status = exited 0; elapsed = 70000 }
    ∷ record { status = exited 0; elapsed = 1000 }
    ∷ record { status = exited 0; elapsed = 1000 }
    ∷ []

crashes-AllRestart : AllRestart crashes
unfolding handle_parent
crashes-AllRestart = (refl, (refl, (refl, (refl, record {}))))

serve_with_exc_handling-rapid_example : serve_with_exc_handling detection false crashes ≡ some 1
serve_with_exc_handling-rapid_example =
    serve_with_exc_handling-rapid detection crashes crashes-AllRestart (omega arith)

-- A stream that brings two items and fails, and then fails twice.
abbrev broken : List (Opening ℕ)
broken =
    record { items = 1 ∷ 2 ∷ []; ends = fails "UNAVAILABLE" }
    ∷ record { items = []; ends = fails "" }
    ∷ record { items = []; ends = fails "" }
    ∷ []

retry_stream-forwards_example :
    ((retry_stream 2 1000 broken).raised ≡ true)
    × (rest : List ℕ) × ((retry_stream 2 1000 broken).sent ++ rest ≡ 1 ∷ 2 ∷ [])
    × (((retry_stream 2 1000 broken).raised || is_empty rest) ≡ true)
retry_stream-forwards_example = retry_stream-forwards 2 1000 broken (omega arith)
