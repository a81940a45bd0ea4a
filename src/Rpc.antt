-- ===== src/Rpc.antt =====
-- exporter/exporter.py, `_retry_rpc`: a unary gRPC call with exponential backoff. The stub and the
-- channel are gRPC's, so the answer to each attempt is a parameter. All delays are whole seconds.
pub mod Retry
use jumpstarter.Common.{
  ℕ, zero, suc, ◌+◌, ◌*◌, ◌^◌, min, Bool, true, false, Option, none, some, ◌&&◌, ltb, if◌then◌else◌,
}

-- The members of gRPC's `StatusCode` that the program names; `other_code` is any other one.
pub data StatusCode : Type 0 where
  unavailable deadline_exceeded permission_denied invalid_argument : StatusCode
  unauthenticated unimplemented failed_precondition : StatusCode
  other_code : ℕ → StatusCode

-- What one attempt comes to: it returns, raises an `AioRpcError` with a code, or raises another
-- exception.
pub data RpcOutcome : Type 0 where
  success : RpcOutcome
  rpc_error : StatusCode → RpcOutcome
  raised : RpcOutcome

-- _TRANSIENT_GRPC_CODES
abbrev pub is_transient : StatusCode → Bool
is_transient unavailable = true
is_transient deadline_exceeded = true
is_transient _ = false

-- _RPC_MAX_RETRIES
abbrev pub rpc_max_retries : ℕ
rpc_max_retries = 20

-- _RPC_BACKOFF_BASE
abbrev pub rpc_backoff_base : ℕ
rpc_backoff_base = 1

-- _RPC_BACKOFF_CAP
abbrev pub rpc_backoff_cap : ℕ
rpc_backoff_cap = 30

-- `ok` and `code` are the returned pair; `attempts` and `slept` record the calls made and the
-- seconds slept, and `fell_through` a loop that ends with no return.
pub record RpcResult : Type 0 where
  pub ok : Bool
  pub code : Option StatusCode
  pub attempts : ℕ
  pub slept : ℕ
  pub fell_through : Bool

abbrev pub backoff_delay : ℕ → ℕ
backoff_delay attempt = min (rpc_backoff_base * 2 ^ attempt) rpc_backoff_cap

abbrev pub returned : Bool → Option StatusCode → ℕ → ℕ → RpcResult
returned ok code attempt slept = record {
  ok = ok;
  code = code;
  attempts = attempt + 1;
  slept = slept;
  fell_through = false;
}

-- The `for` loop with `left` rounds to go, the next being `attempt`.
unfoldable pub retry_from : ℕ → ℕ → (ℕ → RpcOutcome) → (StatusCode → Bool) → ℕ → RpcResult
retry_from zero attempt answer non_retryable slept = record {
  ok = false;
  code = none;
  attempts = attempt;
  slept = slept;
  fell_through = true;
}
retry_from (suc left) attempt answer non_retryable slept = elim (answer attempt) [
  | success ↦ returned true none attempt slept
  | rpc_error code ↦
      let again =
        retry_from left (attempt + 1) answer non_retryable (slept + backoff_delay attempt) in
      if non_retryable code
      then returned false (some code) attempt slept
      else if is_transient code && ltb attempt rpc_max_retries
      then again
      else returned false (some code) attempt slept
  | raised ↦ returned false none attempt slept
]

unfoldable pub retry_rpc : (ℕ → RpcOutcome) → (StatusCode → Bool) → RpcResult
retry_rpc answer non_retryable = retry_from (rpc_max_retries + 1) 0 answer non_retryable 0
