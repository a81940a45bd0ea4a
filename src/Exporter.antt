-- ===== src/Exporter.antt =====
-- exporter/exporter.py: the fields of an `Exporter` that its methods change, and the channels,
-- tasks and calls that the methods reach. The tasks of one event loop change this state in turn;
-- what they do while a method waits is a parameter (`World`).
pub mod Reports
pub mod Keeps
pub mod Release
pub mod Events
pub mod Hooks
pub mod Ending
pub mod Control
pub mod Streams
pub mod Handling
use jumpstarter.Common.{
  ℕ, ◌+◌, Bool, true, false, Option, none, some, List, [], ◌∷◌, ◌++◌, String, update, not, ◌&&◌,
  ◌||◌, if◌then◌else◌,
}
use jumpstarter.Status.{ExporterStatus, offline}
use jumpstarter.Rpc.{StatusCode, RpcOutcome, RpcResult, retry_rpc}
use jumpstarter.Lease.{LeaseContext, new_lease_context}

-- `jumpstarter_pb2.StatusResponse`, without the log context
pub record StatusResponse : Type 0 where
  pub leased : Bool
  pub lease_name : String
  pub client_name : String

-- `jumpstarter_pb2.ReportStatusRequest`
pub record StatusRequest : Type 0 where
  pub status : ExporterStatus
  pub message : String
  pub release_lease : Bool

-- The calls made of the controller.
pub data Rpc : Type 0 where
  report_status_call : StatusRequest → Rpc
  release_lease_call : String → Rpc

-- What travels on the control-plane channel: a status tick, or `LeaseFinished` with the address
-- of its lease.
pub data Message : Type 0 where
  tick : StatusResponse → Message
  lease_finished : ℕ → Message

-- `_control_tx`
pub data ControlTx : Type 0 where
  absent closed open_channel : ControlTx

-- What `start_soon` starts, with the address of the lease.
pub data Task : Type 0 where
  run_before_lease_hook handle_lease lease_finished_watchdog : ℕ → Task

-- HookInstanceConfigV1Alpha1.on_failure
pub data OnFailure : Type 0 where
  warn end_lease exit_exporter : OnFailure

-- HookInstanceConfigV1Alpha1; `timeout` in seconds
pub record HookInstance : Type 0 where
  pub script : String
  pub timeout : ℕ
  pub on_failure : OnFailure

-- HookConfigV1Alpha1
pub record HookConfig : Type 0 where
  pub before_lease : Option HookInstance
  pub after_lease : Option HookInstance

-- `tg` is whether the task group is set, `cancelled` whether its scope was cancelled. `inbox` is
-- the unread part of the channel, `tasks` what was started in the task group, `rpcs` the calls
-- made with `attempts` the attempts at them, and `awaits` the number of times a method has waited.
pub record Exporter : Type 0 where
  pub exit_on_lease_end : Bool
  pub hook_executor : Option HookConfig
  pub standalone : Bool
  pub registered : Bool
  pub unregister : Bool
  pub stop_requested : Bool
  pub deferred_unregister : Bool
  pub started : Bool
  pub tg : Bool
  pub cancelled : Bool
  pub status : ExporterStatus
  pub exit_code : Option ℕ
  pub last_completed_lease : Option String
  pub pending_lease_status : Option StatusResponse
  pub control_tx : ControlTx
  pub lease_context : Option ℕ
  pub release_lease_unsupported : Bool
  pub status_drain_active : Bool
  pub pending_status_request : Option StatusRequest
  pub status_rpc_event : Bool
  pub leases : ℕ → LeaseContext
  pub next_lease : ℕ
  pub inbox : List Message
  pub tasks : List Task
  pub rpcs : List Rpc
  pub attempts : ℕ
  pub awaits : ℕ

-- An exporter whose control plane has been started (`_run_control_plane`), before any message.
abbrev pub serving : Bool → Option HookConfig → Exporter
serving exit_on_lease_end hooks = record {
  exit_on_lease_end = exit_on_lease_end;
  hook_executor = hooks;
  standalone = false;
  registered = true;
  unregister = false;
  stop_requested = false;
  deferred_unregister = true;
  started = false;
  tg = true;
  cancelled = false;
  status = offline;
  exit_code = none;
  last_completed_lease = none;
  pending_lease_status = none;
  control_tx = open_channel;
  lease_context = none;
  release_lease_unsupported = false;
  status_drain_active = true;
  pending_status_request = none;
  status_rpc_event = false;
  leases = λ _. new_lease_context "";
  next_lease = 0;
  inbox = [];
  tasks = [];
  rpcs = [];
  attempts = 0;
  awaits = 0;
}

-- A change of the lease at an address.
abbrev pub change_lease : ℕ → (LeaseContext → LeaseContext) → Exporter → Exporter
change_lease i f s = record s { leases = update s.leases i (f (s.leases i)) }

-- What the methods do not decide: the answer to each attempt at a call, and what the other tasks
-- do to the state during each wait.
pub record World : Type 0 where
  pub answer : ℕ → Rpc → RpcOutcome
  pub others : ℕ → Exporter → Exporter

-- A wait: the other tasks run.
unfoldable pub await : World → Exporter → Exporter
await w s = record (w.others s.awaits s) { awaits = s.awaits + 1 }

-- `self._retry_rpc(...)`: the call is made with its attempts, and the caller waits for it.
unfoldable pub call : World → Rpc → (StatusCode → Bool) → Exporter → Exporter × RpcResult
call w rpc non_retryable s =
    let result = retry_rpc (λ k. w.answer (s.attempts + k) rpc) non_retryable in
    (
      await w (record s { rpcs = s.rpcs ++ rpc ∷ []; attempts = s.attempts + result.attempts }),
      result,
    )

abbrev pub set_exit_code : Option ℕ → Exporter → Exporter
set_exit_code none s = s
set_exit_code (some c) s = record s { exit_code = some c }

-- `stop(wait_for_lease_exit, should_unregister, exit_code)`
unfoldable pub stop : Bool → Bool → Option ℕ → Exporter → Exporter
stop wait_for_lease_exit should_unregister code s =
    let s = set_exit_code code s in
    if (not s.started || not wait_for_lease_exit) && s.tg
    then record s { unregister = should_unregister; cancelled = true }
    else if not s.stop_requested
    then record s { stop_requested = true; deferred_unregister = should_unregister }
    else s

-- `_check_stop_requested`
unfoldable pub check_stop_requested : Exporter → Exporter × Bool
unfolding stop
check_stop_requested s =
    if s.stop_requested then (stop false s.deferred_unregister none s, true) else (s, false)
