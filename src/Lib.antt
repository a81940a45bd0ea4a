-- ===== src/Lib.antt =====
-- Jumpstarter: the exporter's lease cycle with the process that keeps it running, a client's
-- lease, its shell and its view of the exporter, the credentials for images, and parts of four
-- drivers, the TFTP server, the traffic filter, the demuxer manager and the mock addon of the HTTP
-- proxy.
--
-- An exporter (python/packages/jumpstarter/jumpstarter/exporter) serves one lease at a time to
-- clients. The controller streams statuses to it; one loop, `_run_control_plane`, takes them from
-- a channel together with the `LeaseFinished` messages of the leases that have been torn down, and
-- is the only writer of the slot `_lease_context`. A lease is served by `handle_lease`, with the
-- beforeLease hook before clients are let through and the afterLease hook at its end; EndSession
-- calls and the cleanup of `handle_lease` race for the latter. Statuses are reported to the
-- controller in the background and shown to clients by the session, which a client follows with a
-- `StatusMonitor`. A client first requests its `Lease` of the controller, polls it until it is
-- ready, and dials the exporter until it answers. `jmp run` starts the exporter in a child
-- process, and starts it again when it ends, so the exit code that a hook sets decides what the
-- supervisor does.
--
-- The files and the code that they model:
-- - Status: `ExporterStatus` of common/enums.py.
-- - Rpc, Rpc/Retry: `_retry_rpc` of exporter/exporter.py, with its constants.
-- - Session, Session/Versions: the status of a `Session`, exporter/session.py.
-- - Lease: `LeaseContext`, exporter/lease_context.py, and `EndSession` of exporter/session.py.
-- - Exporter: the fields of `Exporter`, `stop` and `_check_stop_requested`, exporter/exporter.py.
--   Its children: Reports (`_report_status`, `_send_report_status_rpc`, `_drain_status_reports`);
--   Release (`_request_lease_release`, `_send_compat_release`); Control (`_apply_status`,
--   `_on_lease_acquired`, `_on_lease_update`, `_on_lease_released`, `_on_lease_finished`, the end
--   of `handle_lease`), with Control/System for the loop and the tasks around it as a step
--   relation; Ending (`_handle_end_session`, `_cleanup_after_lease`, `_skip_stale_lease`);
--   Handling (`handle_lease`); Hooks (`HookExecutor` of exporter/hooks.py:
--   `run_before_lease_hook`, `run_after_lease_hook`, `_wait_for_lease_ready`, `_execute_hook`,
--   `_handle_hook_failure`); Events, the order on states in which events are only ever set; Keeps,
--   what the other tasks leave as it is in a wait, with `_drain_status_reports` at work.
-- - Exporter/Streams: `_retry_stream` of exporter/exporter.py. Exporter/Control/Slot: the abstract
--   view of the control plane, a slot that is free or has a lease.
-- - Supervisor: `_handle_parent`, `_serve_with_exc_handling` and the exit code of `_handle_child`,
--   of python/packages/jumpstarter-cli/jumpstarter_cli/run.py.
-- - Client/Conditions: common/condition.py. Client/Acquire: `request_async`, `_create`, `_acquire`
--   and `_handle_no_exporter_retry` of client/lease.py. Client/Dial: `_dial_with_retry`, and
--   Client/Expiry: `monitor_async`, of the same file. Client/Selectors: client/selectors.py.
-- - Demuxer, Demuxer/Steps: `DemuxerManager` of
--   python/packages/jumpstarter-driver-pyserial/jumpstarter_driver_pyserial/nvdemux/manager.py,
--   its threads as a step relation.
-- - Monitor, Monitor/Waits: `StatusMonitor` of client/status_monitor.py.
-- - Tftp, Tftp/Request, Tftp/Start, Tftp/Transfer: packets; `TftpServerProtocol` from a datagram
--   to a request and its checks; the negotiation of options with the start of a transfer; and
--   `TftpReadTransfer` with its protocol, of
--   python/packages/jumpstarter-driver-tftp/jumpstarter_driver_tftp/server.py. What arrives from
--   the client is a parameter, by the attempt in which it arrives, as are the decoder of UTF-8,
--   the tables of Unicode and the storage.
-- - DutNetwork: `FilterRule`, `FilterDirection` and `FilterConfig` of driver.py, and
--   `_render_filter_rule` and `_build_forward_chain` of nftables.py, of
--   python/packages/jumpstarter-driver-dut-network/jumpstarter_driver_dut_network.
-- - Mock: the addon of the proxy,
--   python/packages/jumpstarter-driver-mitmproxy/jumpstarter_driver_mitmproxy/bundled_addon.py.
--   Its children: Json (`_resolve_dotted_path`, and `==` on JSON); Conditions
--   (`_matches_conditions`); Endpoints (`_find_endpoint`, `_collect_wildcard_matches`); Sequences
--   (`_handle_sequence` and its two modes); Rules (`_handle_rules`, and `request` as
--   `request_hook`).
-- - Shell: the token of a running shell, from `_try_refresh_token` to `_monitor_token_expiry` of
--   python/packages/jumpstarter-cli/jumpstarter_cli/shell.py.
-- - Oci: `resolve_oci_credentials` and what it calls, of common/oci.py.
-- - Common has the shared names and tests; Examples applies theorems to concrete inputs.
--
-- How the code corresponds. Objects that several tasks share stand in a store by address: a lease
-- is a number, and the slot holds the number of its lease. A method is a function on the
-- exporter's state. The tasks of one event loop take turns where a method waits: a wait applies
-- `World.others`, what the other tasks do meanwhile, which is a parameter, as is the controller's
-- answer to each attempt at a call (`World.answer`). Theorems say what they ask of it: `Steady`,
-- no event is cleared; `Keeps`, the slot, the drain, the names, the exit code and a requested stop
-- are left alone, while calls may be made, as `_drain_status_reports` does; `Silent`, no calls are
-- made either, as when no status waits to be sent; or `SlotKept`, the slot alone. An anyio `Event`
-- is a Boolean that is set and never cleared. The process of a hook is a parameter too
-- (`Processes`), and so are the answers of the controller to a client (`Controller`, `DialWorld`
-- and `MonitorWorld` with the time that calls and sleeps take), what becomes of each child
-- (`Child`), what each opening of a stream comes to (`Opening`), what happens to the task of a
-- lease (`Course`), what the calls of an attempt at a token give (`Answers`), what reading an auth
-- file gives (`AuthFile`), and what the code takes of Python and mitmproxy (`ProxyLibrary`,
-- `Library`). Logs, telemetry, log contexts, sockets and the message of the day are left out.
--
-- Bounds and fuel. `_retry_rpc` has 21 rounds, its constant. `_wait_for_lease_ready` adds 0.1 to a
-- float until it is at least 30: 300 polls, then the last look. The poll loop of the monitor runs
-- over the list of its answers; its sleeps are left out, so it says nothing of time. A transfer
-- has a round for each block that it tries to send. The acquisition of a lease has as many polls
-- as its timeout leaves time for, whatever their number. The dial loop counts milliseconds; each
-- round but the last takes 300 ms or reaches the deadline, so a round for each 300 ms of the
-- timeout and one more are enough. The monitor of a lease has as many checks as are asked for. The
-- supervisor, a retried stream and the token monitor run over the lists of their children,
-- openings and turns. The time that a token has left is in seconds, rounded up, and 0 when it is
-- expired, which leaves every test of the code as it is; delays of mock steps are in milliseconds.
-- Numbers are unbounded but for block numbers, which wrap at 65536.
--
-- Not modelled: the gRPC streams and servers, registration, the client's sockets and its tree of
-- drivers, the drivers but TFTP, the traffic filter, the demuxer and the mock addon, whose
-- patches, templates and custom addons are left out, the command line but the supervisor and the
-- shell's token, the Kubernetes client, generated code, and the controller, a program of its own.
pub mod Common
pub mod Status
pub mod Rpc
pub mod Session
pub mod Lease
pub mod Exporter
pub mod Monitor
pub mod Client
pub mod Supervisor
pub mod Mock
pub mod Shell
pub mod Oci
pub mod Demuxer
pub mod DutNetwork
pub mod Tftp
pub mod Examples
