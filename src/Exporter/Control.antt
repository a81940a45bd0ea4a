-- ===== src/Exporter/Control.antt =====
-- exporter/exporter.py: the control-plane loop, the only writer of `_lease_context`, and the end of
-- `handle_lease`, which gives the slot back by a message. Log contexts are not modelled.
pub mod System
pub mod Ownership
pub mod Handover
pub mod Slot
use jumpstarter.Common.{
  ℕ, ◌+◌, Bool, true, false, not, Option, none, some, ◌==◌, str_eq, List, [], ◌∷◌, ◌++◌, String,
  update, if◌then◌else◌,
}
use jumpstarter.Lease
use jumpstarter.Lease.{LeaseContext, new_lease_context}
use jumpstarter.Exporter.{
  Exporter, StatusResponse, Message, tick, lease_finished, ControlTx, absent, closed, open_channel,
  run_before_lease_hook, handle_lease, lease_finished_watchdog, HookConfig, change_lease,
  check_stop_requested,
}

-- `start_soon` of the beforeLease hook, if a hook executor is configured
abbrev pub start_hook : Option HookConfig → ℕ → Exporter → Exporter
start_hook none i s = s
start_hook (some _) i s = record s { tasks = s.tasks ++ run_before_lease_hook i ∷ [] }

unfoldable pub on_lease_acquired : StatusResponse → Exporter → Exporter
on_lease_acquired status s =
    let i = s.next_lease in
    let s = record s {
      started = true;
      leases = update s.leases i (new_lease_context status.lease_name);
      next_lease = i + 1;
      lease_context = some i;
    } in
    let s = start_hook s.hook_executor i s in record s { tasks = s.tasks ++ handle_lease i ∷ [] }

abbrev pub show_client : Option ℕ → String → Exporter → Exporter
show_client none client s = s
show_client (some i) client s = change_lease i (Lease.update_client client) s

unfoldable pub on_lease_update : StatusResponse → Exporter → Exporter
unfolding Lease.update_client
on_lease_update status s = show_client s.lease_context status.client_name s

-- `lease_ended.set()` and the watchdog, unless the lease has ended already
abbrev pub signal_lease_end : ℕ → Exporter → Exporter
signal_lease_end i s =
    if not (s.leases i).lease_ended
    then (let s = change_lease i (λ l. record l { lease_ended = true }) s in
        record s { tasks = s.tasks ++ lease_finished_watchdog i ∷ [] })
    else s

abbrev pub release_slot_of : Option ℕ → Exporter → Exporter
release_slot_of none s = s
release_slot_of (some i) s =
    signal_lease_end i (if s.exit_on_lease_end then record s { stop_requested = true } else s)

-- The state is LEASED exactly when the slot is taken, so `previous_state` is read off the slot.
unfoldable pub on_lease_released : Exporter → Exporter
on_lease_released s = release_slot_of s.lease_context s

abbrev pub is_lease : Option String → String → Bool
is_lease none name = false
is_lease (some n) name = str_eq name n

-- The branch `current_leased`, by the slot.
abbrev pub apply_leased : Option ℕ → StatusResponse → Exporter → Exporter
unfolding on_lease_acquired on_lease_update
apply_leased none status s =
    if str_eq status.lease_name ""
    then on_lease_update status s
    else if is_lease s.last_completed_lease status.lease_name
    then s
    else on_lease_update status (on_lease_acquired status s)
apply_leased (some i) status s =
    if str_eq (s.leases i).lease_name status.lease_name
    then on_lease_update status s
    else signal_lease_end i (record s { pending_lease_status = some status })

-- The branch `not current_leased`, after `_on_lease_released`.
abbrev pub stop_if_idle : Option ℕ → Exporter → Exporter × Bool
unfolding check_stop_requested
stop_if_idle none s = check_stop_requested s
stop_if_idle (some i) s = (s, false)

-- `_apply_status`; the Boolean tells the loop to stop
unfoldable pub apply_status : StatusResponse → Exporter → Exporter × Bool
unfolding on_lease_acquired on_lease_update on_lease_released check_stop_requested
apply_status status s =
    if status.leased
    then (apply_leased s.lease_context status s, false)
    else (let s = on_lease_released (record s { last_completed_lease = none }) in
        stop_if_idle s.lease_context s)

abbrev pub post : ControlTx → Message → Exporter → Exporter
post open_channel m s = record s { inbox = s.inbox ++ m ∷ [] }
post absent m s = s
post closed m s = s

-- The stashed status goes back into the channel.
abbrev pub replay : Option StatusResponse → Exporter → Exporter
replay none s = s
replay (some pending) s =
    post s.control_tx (tick pending) (record s { pending_lease_status = none })

abbrev pub is_slot : Option ℕ → ℕ → Bool
is_slot none i = false
is_slot (some j) i = j == i

-- `_on_lease_finished`, with the address of the finished lease
unfoldable pub on_lease_finished : ℕ → Exporter → Exporter × Bool
unfolding check_stop_requested
on_lease_finished i s =
    if is_slot s.lease_context i
    then (let s = record s {
      last_completed_lease = some (s.leases i).lease_name;
      lease_context = none;
    } in
        let s = (if s.exit_on_lease_end then record s { stop_requested = true } else s) in
        check_stop_requested (replay s.pending_lease_status s))
    else check_stop_requested s

-- One message of the loop.
unfoldable pub handle_message : Message → Exporter → Exporter × Bool
unfolding apply_status on_lease_finished
handle_message (tick status) s = apply_status status s
handle_message (lease_finished i) s = on_lease_finished i s

abbrev pub set_events : LeaseContext → LeaseContext
set_events l = record l { before_lease_hook = true; after_lease_hook_done = true }

-- The outer `finally` of `handle_lease`.
unfoldable pub hand_back : ℕ → Exporter → Exporter
hand_back i s = let s = change_lease i set_events s in post s.control_tx (lease_finished i) s
