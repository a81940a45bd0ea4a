-- ===== src/Exporter/Release.antt =====
-- exporter/exporter.py: `_send_compat_release` and `_request_lease_release`, by which the exporter
-- asks the controller to release its lease, with the fallback for controllers that refuse.
pub mod Calls
pub mod Outcome
use jumpstarter.Common.{
  ℕ, Bool, true, false, ◌||◌, Option, none, some, String, str_eq, if◌then◌else◌,
}
use jumpstarter.Status.{ExporterStatus, available, after_lease_hook, status_eq}
use jumpstarter.Rpc.{
  StatusCode, permission_denied, invalid_argument, unauthenticated, unimplemented,
}
use jumpstarter.Exporter.{
  Exporter, World, StatusRequest, release_lease_call, HookConfig, change_lease, call,
}
use jumpstarter.Exporter.Reports.{send_report_status_rpc, report_status}

-- _RELEASE_LEASE_UNSUPPORTED_CODES
abbrev pub is_release_unsupported : StatusCode → Bool
is_release_unsupported permission_denied = true
is_release_unsupported invalid_argument = true
is_release_unsupported unauthenticated = true
is_release_unsupported unimplemented = true
is_release_unsupported _ = false

abbrev pub is_unsupported : Option StatusCode → Bool
is_unsupported none = false
is_unsupported (some code) = is_release_unsupported code

-- The status that the compat release reports: never AVAILABLE, so that no lease is assigned yet.
abbrev pub compat_status : ExporterStatus → ExporterStatus
compat_status status = if status_eq status available then after_lease_hook else status

abbrev pub compat_request : Exporter → StatusRequest
compat_request s = record {
  status = compat_status s.status;
  message = "Lease released (compat: ReportStatus with release_lease)";
  release_lease = true;
}

unfoldable pub send_compat_release : World → Exporter → Exporter
send_compat_release w s = (send_report_status_rpc w (compat_request s) s).0

-- The ReleaseLease call and what follows from its result.
unfoldable pub release_by_rpc : World → String → Exporter → Exporter
release_by_rpc w lease_name s =
    let (s, result) = call w (release_lease_call lease_name) is_release_unsupported s in
    if result.ok
    then s
    else if is_unsupported result.code
    then send_compat_release w (record s { release_lease_unsupported = true })
    else s

abbrev pub end_context : Option ℕ → Exporter → Exporter
end_context none s = s
end_context (some i) s = change_lease i (λ l. record l { lease_ended = true }) s

-- What follows the calls: AVAILABLE is reported and the lease in the slot is ended.
abbrev pub conclude : World → Exporter → Exporter
conclude w r =
    let shown = report_status w available "Exporter available after lease release" r in
    end_context shown.lease_context shown

abbrev pub request_release_of : World → Option ℕ → Exporter → Exporter
request_release_of w none s = s
request_release_of w (some i) s =
    let name = (s.leases i).lease_name in
    if str_eq name "" || (s.leases i).lease_ended
    then s
    else if s.standalone
    then end_context (some i) s
    else if s.release_lease_unsupported
    then conclude w (send_compat_release w s)
    else conclude w (release_by_rpc w name s)

-- `_request_lease_release`
unfoldable pub request_lease_release : World → Exporter → Exporter
request_lease_release w s = request_release_of w s.lease_context s
