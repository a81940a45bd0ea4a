-- ===== src/Client/Acquire.antt =====
-- client/lease.py, `Lease`: the request of a lease and the wait until it is acquired. The
-- controller's answers are parameters; the retries of `_get_with_retry` on a lost connection are
-- tenacity's and only take time. The spinner is not modelled.
pub mod Decides
pub mod Requests
use jumpstarter.Common.{
  ℕ, zero, suc, ◌+◌, Bool, true, false, not, ◌&&◌, Option, none, some, List, String, str_eq,
  is_some, if◌then◌else◌,
}
use jumpstarter.Client.Conditions.{
  Condition, condition_true, condition_false, condition_message, condition_present_and_equal,
}

-- `client.grpc.Lease`, the fields that are read; times are numbers.
pub record LeaseInfo : Type 0 where
  pub conditions : List Condition
  pub exporter : String
  pub client : String
  pub selector : String
  pub effective_end_time : Option ℕ

-- `_get_with_retry`: a lease, or an exception other than a lost connection.
pub data Poll : Type 0 where
  got : LeaseInfo → Poll
  get_fails : Poll

-- `CreateLease`: the name of the new lease, or an exception.
pub data Creation : Type 0 where
  created : String → Creation
  create_fails : Creation

-- The `LeaseError`s, an exception of the controller's, or the lease with its exporter.
pub data Acquired : Type 0 where
  acquired : String → String → Acquired
  unsatisfiable invalid ended_early : Option String → Acquired
  not_pending timed_out already_ended not_owner failed : Acquired

-- What one poll says of the lease.
pub data Verdict : Type 0 where
  ready : String → Verdict
  no_exporter waits : Verdict
  stops : Acquired → Verdict

unfoldable pub judge : LeaseInfo → Verdict
unfolding condition_true condition_false condition_message condition_present_and_equal
judge info =
    if condition_true info.conditions "Ready"
    then ready info.exporter
    else if condition_true info.conditions "Unsatisfiable"
    then (if condition_present_and_equal info.conditions "Unsatisfiable" "True" (some "NoExporter")
        then no_exporter
        else stops (unsatisfiable (condition_message info.conditions "Unsatisfiable" none)))
    else if condition_true info.conditions "Invalid"
    then stops (invalid (condition_message info.conditions "Invalid" none))
    else if condition_false info.conditions "Pending"
    then stops not_pending
    else if condition_false info.conditions "Ready"
    then stops (ended_early (condition_message info.conditions "Ready" none))
    else waits

-- The controller: the answer to the nth poll, for the lease named, and to the nth creation.
pub record Controller : Type 0 where
  pub poll : ℕ → String → Poll
  pub create : ℕ → Option String → Creation

abbrev pub judge_poll : Poll → Verdict
unfolding judge
judge_poll (got info) = judge info
judge_poll get_fails = stops failed

-- `_acquire`: the polls that the acquisition timeout leaves time for are `left`; `n` is the number
-- of the next one, and the name is the lease's, which a creation gives anew.
unfoldable pub acquire_from : ℕ → ℕ → Controller → String → Acquired
unfolding judge
acquire_from zero n c name = timed_out
acquire_from (suc left) n c name = elim (judge_poll (c.poll n name)) [
  | ready exporter ↦ acquired name exporter
  | stops outcome ↦ outcome
  | waits ↦ acquire_from left (n + 1) c name
  | no_exporter ↦ elim (c.create (n + 1) (some name)) [
    | created name' ↦ acquire_from left (n + 1) c name'
    | create_fails ↦ failed
  ]
]

-- What the client asks for: `Lease.name`, `client_name` and `selector`.
pub record Wanted : Type 0 where
  pub name : Option String
  pub client_name : Option String
  pub selector : Option String

-- `_create` and then `_acquire`
abbrev pub acquire_created : ℕ → Controller → Creation → Acquired
unfolding acquire_from
acquire_created polls c (created name) = acquire_from polls 0 c name
acquire_created polls c create_fails = failed

-- `client_name` is falsy when it is empty.
abbrev pub other_owner : Option String → String → Bool
other_owner none owner = false
other_owner (some name) owner = not (str_eq name "") && not (str_eq owner name)

abbrev pub other_selector : Option String → String → Bool
other_selector none selector = false
other_selector (some wanted) selector = not (str_eq selector wanted)

abbrev pub use_existing : ℕ → Controller → Wanted → String → Poll → Acquired
unfolding acquire_from
use_existing polls c wanted name get_fails = failed
use_existing polls c wanted name (got info) =
    if is_some info.effective_end_time
    then already_ended
    else if other_owner wanted.client_name info.client
    then not_owner
    else if other_selector wanted.selector info.selector
    then acquire_created polls c (c.create 0 none)
    else acquire_from polls 0 c name

abbrev pub has_name : Option String → Option String
has_name none = none
has_name (some name) = if str_eq name "" then none else some name

abbrev pub request_named : ℕ → Controller → Wanted → Poll → Option String → Acquired
unfolding acquire_from
request_named polls c wanted existing none = acquire_created polls c (c.create 0 wanted.name)
request_named polls c wanted existing (some name) = use_existing polls c wanted name existing

-- `request_async`; `existing` is the answer of `get` for a lease that has a name already
unfoldable pub request : ℕ → Controller → Wanted → Poll → Acquired
unfolding acquire_from
request polls c wanted existing = request_named polls c wanted existing (has_name wanted.name)
