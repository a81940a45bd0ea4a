-- ===== src/Exporter/Handling.antt =====
-- exporter/exporter.py: `handle_lease`, the task of one lease from its start to the message that
-- hands the slot back. What its surroundings do to it is a parameter (`Course`): the cancellation of
-- its first wait, what becomes of the session's servers, and how its task group of connections ends.
-- The Listen stream, the connections and the EndSession task, which it starts, are other tasks.
pub mod Slots
pub mod Ends
use jumpstarter.Common.{ℕ, Bool, true, false, Option, none, some, String, if◌then◌else◌}
use jumpstarter.Status.{lease_ready}
use jumpstarter.Session
use jumpstarter.Session.{new_session}
use jumpstarter.Lease.{LeaseContext}
use jumpstarter.Exporter.{Exporter, World, HookConfig, change_lease, await}
use jumpstarter.Exporter.Reports.{report_status}
use jumpstarter.Exporter.Hooks.{Processes, open_drivers}
use jumpstarter.Exporter.Ending.{skip_stale_lease, cleanup_after_lease}
use jumpstarter.Exporter.Control.{hand_back}

-- `session_for_lease`: the paths of its two sockets, or an exception.
pub data Opened : Type 0 where
  opens : String → String → Opened
  open_fails : Opened

-- `reaches_ready` tells whether the task group gets to its last statements before it is cancelled,
-- `group_raises` whether it ends by an exception.
pub record Course : Type 0 where
  pub cancelled : Bool
  pub session : Opened
  pub reaches_ready : Bool
  pub group_raises : Bool

-- How the method is left.
pub data Left : Type 0 where
  returned raised : Left

-- The session in the lease, with the status that the lease has.
abbrev pub link_session : String → String → LeaseContext → LeaseContext
link_session main hook l = record l {
  session = some (Session.update_status l.current_status l.status_message new_session);
  socket_path = main;
  hook_socket_path = hook;
}

-- `if not self.hook_executor`, at the end of the task group
abbrev pub report_ready : World → ℕ → Option HookConfig → Exporter → Exporter
report_ready w i none s = open_drivers i (report_status w lease_ready "Ready for commands" s)
report_ready w i (some config) s = s

-- `if not self.hook_executor and not lease_scope.before_lease_hook.is_set()`
abbrev pub open_if_no_hooks : ℕ → Option HookConfig → Exporter → Exporter
open_if_no_hooks i none s = open_drivers i s
open_if_no_hooks i (some config) s = s

-- The task group of connections, until the lease ends or the task is cancelled, up to the cleanup.
unfoldable pub serve_connections : World → Course → ℕ → Exporter → Exporter
serve_connections w course i s =
    let s = (if course.reaches_ready then report_ready w i s.hook_executor s else s) in
    let s = await w s in open_if_no_hooks i s.hook_executor s

abbrev pub left_by : Bool → Left
left_by true = raised
left_by false = returned

-- The body with the session there, and the wait until it has closed.
unfoldable pub with_session :
    World → Processes → Course → String → String → ℕ → Exporter → Exporter × Left
with_session w processes course main hook i s =
    let (s, stale) = skip_stale_lease w i (change_lease i (link_session main hook) s) in
    if stale then (await w s, returned) else (
      await w (cleanup_after_lease w processes i (serve_connections w course i s)),
      left_by course.group_raises,
    )

abbrev pub open_session : World → Processes → Course → Opened → ℕ → Exporter → Exporter × Left
unfolding with_session
open_session w processes course open_fails i s = (s, raised)
open_session w processes course (opens main hook) i s =
    with_session w processes course main hook i s

-- The outer `try` block.
unfoldable pub handle_lease_body : World → Processes → Course → ℕ → Exporter → Exporter × Left
unfolding with_session
handle_lease_body w processes course i s =
    let s = await w s in
    if course.cancelled
    then (s, raised)
    else (let (s, stale) = skip_stale_lease w i s in
        if stale
        then (s, returned)
        else open_session w processes course course.session i (await w s))

-- `handle_lease`
unfoldable pub handle_lease : World → Processes → Course → ℕ → Exporter → Exporter × Left
unfolding handle_lease_body
handle_lease w processes course i s =
    let (s, left) = handle_lease_body w processes course i s in (hand_back i s, left)
