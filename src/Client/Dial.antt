-- ===== src/Client/Dial.antt =====
-- client/lease.py, `_dial_with_retry`: the controller is asked for the exporter until it is ready.
-- Times are in milliseconds from the first call. The controller's answers, the time that each call
-- takes and the time by which each sleep is late are parameters.
pub mod Ends
use jumpstarter.Common.{
  ℕ, zero, suc, ◌+◌, ◌-◌, ◌*◌, ◌^◌, min, Bool, true, false, ◌&&◌, ◌||◌, Option, none, some, leb,
  String, if◌then◌else◌, occurs_in,
}
use jumpstarter.Rpc.{StatusCode, failed_precondition, unavailable}

-- What one `Dial` comes to: a response, an `AioRpcError`, or another exception.
pub data DialAnswer : Type 0 where
  dialled : DialAnswer
  dial_error : StatusCode → String → DialAnswer
  dial_raises : DialAnswer

-- The response, or the `ExporterUnreachableError` by its message; `raises` passes on another
-- exception.
pub data DialResult : Type 0 where
  connected not_ready_in_time unavailable_in_time transferred lost raises : DialResult

abbrev pub is_failed_precondition : StatusCode → Bool
is_failed_precondition failed_precondition = true
is_failed_precondition _ = false

abbrev pub is_unavailable_code : StatusCode → Bool
is_unavailable_code unavailable = true
is_unavailable_code _ = false

abbrev pub is_not_ready : StatusCode → String → Bool
is_not_ready code details = is_failed_precondition code && occurs_in "not ready" details

-- `lower` is `str.lower`.
abbrev pub other_error : (String → String) → String → DialResult
other_error lower details =
    if occurs_in "permission denied" (lower details) then transferred else lost

-- The two branches that sleep differ in their messages.
abbrev pub error_result : (String → String) → StatusCode → String → DialResult
error_result lower code details =
    if is_not_ready code details
    then not_ready_in_time
    else if is_unavailable_code code
    then unavailable_in_time
    else other_error lower details

-- `min(base_delay * (2 ** min(attempt, 10)), max_delay, remaining)`
abbrev pub dial_delay : ℕ → ℕ → ℕ
dial_delay attempt remaining = min (min (300 * 2 ^ min attempt 10) 2000) remaining

-- `result` is none for a loop that is out of fuel. `lease_transferred` is the lease's flag, `slept`
-- the time asked of `sleep`, and `ended` the time at which the loop was left.
pub record DialRun : Type 0 where
  pub result : Option DialResult
  pub lease_transferred : Bool
  pub attempts : ℕ
  pub slept : ℕ
  pub ended : ℕ

abbrev pub is_transferred : DialResult → Bool
is_transferred transferred = true
is_transferred _ = false

abbrev pub dial_ends : DialResult → ℕ → ℕ → ℕ → DialRun
dial_ends r attempt slept now = record {
  result = some r;
  lease_transferred = is_transferred r;
  attempts = attempt + 1;
  slept = slept;
  ended = now;
}

-- What the code does of its surroundings: the answers, the times of the calls and of late sleeps.
pub record DialWorld : Type 0 where
  pub lower : String → String
  pub answer : ℕ → DialAnswer
  pub took : ℕ → ℕ
  pub late : ℕ → ℕ

-- The `while` loop from an attempt on, entered at `now`, with `timeout` the deadline.
unfoldable pub dial_from : ℕ → DialWorld → ℕ → ℕ → ℕ → ℕ → DialRun
dial_from zero w timeout attempt slept now = record {
  result = none;
  lease_transferred = false;
  attempts = attempt;
  slept = slept;
  ended = now;
}
dial_from (suc fuel) w timeout attempt slept now =
    let now = now + w.took attempt in
    elim (w.answer attempt) [
      | dialled ↦ dial_ends connected attempt slept now
      | dial_raises ↦ dial_ends raises attempt slept now
      | dial_error code details ↦
          let delay = dial_delay attempt (timeout - now) in
          let rest =
            dial_from fuel w timeout (attempt + 1) (slept + delay) (now + delay + w.late attempt) in
          let result = error_result w.lower code details in
          if is_not_ready code details || is_unavailable_code code
          then (if leb timeout now then dial_ends result attempt slept now else rest)
          else dial_ends result attempt slept now
    ]

-- `_dial_with_retry`
unfoldable pub dial_with_retry : ℕ → DialWorld → ℕ → DialRun
dial_with_retry fuel w timeout = dial_from fuel w timeout 0 0 0
