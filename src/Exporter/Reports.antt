-- ===== src/Exporter/Reports.antt =====
-- exporter/exporter.py: `_send_report_status_rpc`, `_drain_status_reports`, `_report_status`.
use jumpstarter.Common.{ℕ, Bool, true, false, Option, none, some, String, if◌then◌else◌}
use jumpstarter.Status.{ExporterStatus}
use jumpstarter.Rpc.{StatusCode, unimplemented}
use jumpstarter.Lease
use jumpstarter.Exporter.{Exporter, World, StatusRequest, report_status_call, change_lease, call}

-- frozenset({grpc.StatusCode.UNIMPLEMENTED})
abbrev pub is_unimplemented : StatusCode → Bool
is_unimplemented unimplemented = true
is_unimplemented _ = false

unfoldable pub send_report_status_rpc : World → StatusRequest → Exporter → Exporter × Bool
send_report_status_rpc w request s =
    let (s', result) = call w (report_status_call request) is_unimplemented s in (s', result.ok)

abbrev pub send_pending : World → Option StatusRequest → Exporter → Exporter
send_pending w none s = s
send_pending w (some request) s = (send_report_status_rpc w request s).0

-- One round of the task's loop; with the event not set it waits.
unfoldable pub drain_status_reports : World → Exporter → Exporter
drain_status_reports w s =
    if s.status_rpc_event
    then send_pending w s.pending_status_request (record s { status_rpc_event = false })
    else s

-- `if self._lease_context: self._lease_context.update_status(...)`
abbrev pub show_status : ExporterStatus → String → Option ℕ → Exporter → Exporter
show_status status message none s = s
show_status status message (some i) s = change_lease i (Lease.update_status status message) s

-- The request that `_report_status` makes.
abbrev pub request_for : ExporterStatus → String → StatusRequest
request_for status message = record { status = status; message = message; release_lease = false }

unfoldable pub report_status : World → ExporterStatus → String → Exporter → Exporter
report_status w status message s =
    let s = record s { status = status } in
    let s = show_status status message s.lease_context s in
    let request = request_for status message in
    if s.standalone
    then s
    else if s.status_drain_active
    then record s { pending_status_request = some request; status_rpc_event = true }
    else (send_report_status_rpc w request s).0
