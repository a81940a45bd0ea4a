-- ===== src/Session.antt =====
-- exporter/session.py: the status that a session shows to its clients, with the version by which
-- they notice transitions, and the gate on driver calls. Drivers, sockets and logs are not modelled.
pub mod Versions
use jumpstarter.Common.{ℕ, ◌+◌, Bool, ◌||◌, Option, none, some, String}
use jumpstarter.Status.{
  ExporterStatus, available, before_lease_hook, lease_ready, after_lease_hook, to_proto, status_eq,
}

-- `lease_context` is the address of the lease. `status_updates` counts the events that
-- `update_status` has set and replaced.
pub record Session : Type 0 where
  pub lease_context : Option ℕ
  pub current_status : ExporterStatus
  pub status_message : String
  pub status_version : ℕ
  pub previous_status : Option ExporterStatus
  pub status_updates : ℕ

abbrev pub new_session : Session
new_session = record {
  lease_context = none;
  current_status = available;
  status_message = "";
  status_version = 0;
  previous_status = none;
  status_updates = 0;
}

unfoldable pub update_status : ExporterStatus → String → Session → Session
update_status status message s = record s {
  previous_status = some s.current_status;
  current_status = status;
  status_message = message;
  status_version = s.status_version + 1;
  status_updates = s.status_updates + 1;
}

-- `_check_status_for_driver_call`: false is the abort with FAILED_PRECONDITION
unfoldable pub check_status_for_driver_call : Session → Bool
check_status_for_driver_call s =
    status_eq s.current_status lease_ready
    || status_eq s.current_status before_lease_hook
    || status_eq s.current_status after_lease_hook

-- The fields of a `GetStatusResponse`.
pub record StatusReply : Type 0 where
  pub status : ℕ
  pub message : String
  pub version : ℕ
  pub previous : Option ℕ

abbrev pub proto_of : Option ExporterStatus → Option ℕ
proto_of none = none
proto_of (some s) = some (to_proto s)

unfoldable pub get_status : Session → StatusReply
get_status s = record {
  status = to_proto s.current_status;
  message = s.status_message;
  version = s.status_version;
  previous = proto_of s.previous_status;
}
