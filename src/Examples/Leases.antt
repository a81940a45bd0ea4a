-- ===== src/Examples/Leases.antt =====
-- The control plane and the release of a lease at concrete inputs.
use jumpstarter.Exporter.Control.Slot.{Runs, slot_of, Moves, control_plane-refines}
use jumpstarter.Exporter.Control.System.{Step}
use jumpstarter.Exporter.Control.Ownership.{finished_owns_slot, slot_owner}
use jumpstarter.Lease.{new_lease_context}
use jumpstarter.Exporter.Control.Handover.{withdrawn_lease_is_acquired, handover}
use jumpstarter.Rpc.{RpcOutcome, rpc_error, unimplemented, success}
use jumpstarter.Exporter.Release.Calls.{Silent}
use jumpstarter.Exporter.Keeps.{Kept-refl}
use jumpstarter.Exporter.Release.Outcome.{Outcome, request_lease_release_ends}
use jumpstarter.Exporter.Release.{request_lease_release}
use jumpstarter.Exporter.Control.System.{
  count_handlers, System, take_message, Reach, count_finished, next, begin, receive, finish, handle,
}
use jumpstarter.Common.{Bool, refl, true, false, ◌+◌, ◌≡◌, ◌++◌, [], some, none, ◌∷◌, ◌≤◌, ◌↔◌}
use jumpstarter.Exporter.Control.{on_lease_finished, handle_message, apply_status, hand_back}
use jumpstarter.Exporter.{
  World, StatusResponse, Exporter, serving, Rpc, tick, release_lease_call, lease_finished,
  handle_lease, report_status_call,
}

abbrev status_a : StatusResponse
status_a = record { leased = true; lease_name = "a"; client_name = "client" }

abbrev status_b : StatusResponse
status_b = record { leased = true; lease_name = "b"; client_name = "other" }

abbrev unleased : StatusResponse
unleased = record { leased = false; lease_name = ""; client_name = "" }

-- The lease `a` in the slot, served by its handler.
abbrev busy : Bool → Exporter
busy exits = record (serving exits none) {
  started = true;
  lease_context = some 0;
  leases = λ _. new_lease_context "a";
  next_lease = 1;
  tasks = handle_lease 0 ∷ [];
}

abbrev waiting : Exporter
waiting = record (busy false) { pending_lease_status = some status_b }

handover_example :
    let f = (on_lease_finished 0 waiting).0 in
    let g = (apply_status status_b f).0 in
    ((on_lease_finished 0 waiting).1 ≡ false)
    × (f.lease_context ≡ none)
    × (f.pending_lease_status ≡ none)
    × (f.inbox ≡ waiting.inbox ++ tick status_b ∷ [])
    × (g.lease_context ≡ some 1)
    × ((g.leases 1).lease_name ≡ "b")
    × ((g.leases 1).client_name ≡ "other")
    × ((g.leases 1).lease_ended ≡ false)
handover_example = handover waiting 0 status_b refl refl refl refl refl refl refl refl

withdrawn_lease_is_acquired_example :
    let f = (on_lease_finished 0 (apply_status unleased waiting).0).0 in
    (f.inbox ≡ waiting.inbox ++ tick status_b ∷ [])
    × ((apply_status status_b f).0.lease_context ≡ some 1)
    × (((apply_status status_b f).0.leases 1).lease_name ≡ "b")
withdrawn_lease_is_acquired_example =
    withdrawn_lease_is_acquired waiting 0 status_b unleased refl refl refl refl refl refl refl refl
      refl

-- The control plane from its start: the status of lease `a` arrives and is handled, and the handler
-- of the lease ends.
abbrev at_start : System
at_start = record { looping = true; exporter = serving false none }

abbrev leased : System
leased = take_message (tick status_a) [] at_start.exporter

abbrev handed_back : System
handed_back = record {
  looping = true;
  exporter = hand_back 0 (record leased.exporter { tasks = [] });
}

abbrev to_leased : Reach false none leased
unfolding handle_message
to_leased = next (next begin (receive status_a refl)) (handle (tick status_a) [] refl refl refl)

slot_owner_example :
    (count_handlers 0 leased.exporter.tasks + count_finished 0 leased.exporter.inbox ≤ 1)
    × ((count_handlers 0 leased.exporter.tasks + count_finished 0 leased.exporter.inbox ≡ 1)
        ↔ (leased.exporter.lease_context ≡ some 0))
slot_owner_example = slot_owner to_leased 0

finished_owns_slot_example :
    (handed_back.exporter.lease_context ≡ some 0)
    × ((take_message (lease_finished 0) [] handed_back.exporter).exporter.lease_context ≡ none)
    × ((take_message (lease_finished 0) [] handed_back.exporter).exporter.last_completed_lease
        ≡ some (handed_back.exporter.leases 0).lease_name)
unfolding handle_message hand_back
finished_owns_slot_example =
    finished_owns_slot (next to_leased (finish 0 [] [] refl refl)) 0 [] refl

-- A controller that does not know ReleaseLease, and other tasks that do nothing.
abbrev refusing : World
refusing = record { answer = λ n rpc. by_call rpc; others = λ n s. s }
  where
    by_call : Rpc → RpcOutcome
    by_call (release_lease_call name) = rpc_error unimplemented
    by_call (report_status_call request) = success

refusing-Silent : Silent refusing
refusing-Silent = record { keeps = λ n s. Kept-refl s; calls = λ n s. refl; support = λ n s. refl }

request_lease_release_ends_example :
    Outcome refusing refusing-Silent (busy false) 0 (request_lease_release refusing (busy false))
request_lease_release_ends_example =
    request_lease_release_ends refusing refusing-Silent (busy false) 0 refl refl refl refl refl

control_plane-refines_example :
    Runs (slot_of leased) × ((t : System) → Step leased t → Moves (slot_of leased) (slot_of t))
control_plane-refines_example = control_plane-refines to_leased
