-- ===== src/Lease.antt =====
-- exporter/lease_context.py: what the tasks of one lease share. An anyio `Event` is a Boolean that
-- is set and never cleared. Exactly one session refers to a lease, so it stands in its lease.
use jumpstarter.Common.{Bool, true, false, not, ◌&&◌, Option, none, some, String, str_eq, is_some}
use jumpstarter.Status.{ExporterStatus, available}
use jumpstarter.Session
use jumpstarter.Session.{Session}

pub record LeaseContext : Type 0 where
  pub lease_name : String
  pub before_lease_hook : Bool
  pub end_session_requested : Bool
  pub after_lease_hook_started : Bool
  pub after_lease_hook_done : Bool
  pub lease_ended : Bool
  pub session : Option Session
  pub socket_path : String
  pub hook_socket_path : String
  pub client_name : String
  pub current_status : ExporterStatus
  pub status_message : String
  pub skip_after_lease_hook : Bool

-- `LeaseContext(lease_name=…, before_lease_hook=Event())`
abbrev pub new_lease_context : String → LeaseContext
new_lease_context name = record {
  lease_name = name;
  before_lease_hook = false;
  end_session_requested = false;
  after_lease_hook_started = false;
  after_lease_hook_done = false;
  lease_ended = false;
  session = none;
  socket_path = "";
  hook_socket_path = "";
  client_name = "";
  current_status = available;
  status_message = "";
  skip_after_lease_hook = false;
}

unfoldable pub is_ready : LeaseContext → Bool
is_ready l = is_some l.session && not (str_eq l.socket_path "")

unfoldable pub is_active : LeaseContext → Bool
is_active l = not (str_eq l.lease_name "")

unfoldable pub has_client : LeaseContext → Bool
has_client l = not (str_eq l.client_name "")

unfoldable pub update_client : String → LeaseContext → LeaseContext
update_client client_name l = record l { client_name = client_name }

unfoldable pub clear_client : LeaseContext → LeaseContext
clear_client l = record l { client_name = "" }

abbrev pub update_session : ExporterStatus → String → Option Session → Option Session
update_session status message none = none
update_session status message (some s) = some (Session.update_status status message s)

unfoldable pub update_status : ExporterStatus → String → LeaseContext → LeaseContext
update_status status message l = record l {
  current_status = status;
  status_message = message;
  session = update_session status message l.session;
}

unfoldable pub drivers_ready : LeaseContext → Bool
drivers_ready l = l.before_lease_hook

-- `Session.EndSession`, for a session whose lease is `l`; the answer is `success`
unfoldable pub end_session : Option LeaseContext → Option LeaseContext × Bool
end_session none = (none, false)
end_session (some l) = (some (record l { end_session_requested = true }), true)
