-- ===== src/Exporter/Control/Slot.antt =====
-- The control plane seen from outside: a slot that is taken for a new lease and given back.
use jumpstarter.Common.{
  ℕ, ◌+◌, ◌≡◌, Option, none, some, ◌⊎◌, ◌++◌, Bool, inl, inr, refl, arith, Bool,
}
use jumpstarter.Exporter.{Exporter, StatusResponse, tick, lease_finished, HookConfig}
use jumpstarter.Exporter.Control.{hand_back, apply_status, on_lease_finished, handle_message}
use jumpstarter.Exporter.Control.System.{
  System, Step, receive, handle, finish, work, Reach, begin, next,
}

-- The slot, and how many leases there have been.
pub record Slot : Type 0 where
  pub holder : Option ℕ
  pub leases : ℕ

abbrev pub slot_of : System → Slot
slot_of s = record { holder = s.exporter.lease_context; leases = s.exporter.next_lease }

-- A free slot is taken for a lease that there has not been yet; the lease that has it gives it
-- back; or nothing is seen.
pub data Moves (s t : Slot) : Type 0 where
  acquires : s.holder ≡ none → t.holder ≡ some s.leases → t.leases ≡ s.leases + 1 → Moves s t
  releases : (i : ℕ) → s.holder ≡ some i → t.holder ≡ none → t.leases ≡ s.leases → Moves s t
  stays : t.holder ≡ s.holder → t.leases ≡ s.leases → Moves s t

-- From a slot that is free, before any lease.
pub data Runs : Slot → Type 0 where
  free : Runs (record { holder = none; leases = 0 })
  moves : {s t : Slot} → Runs s → Moves s t → Runs t

apply_status-slot :
    (status : StatusResponse) (e : Exporter)
    → let f = (apply_status status e).0 in
      ((f.lease_context ≡ e.lease_context) × (f.next_lease ≡ e.next_lease))
      ⊎ ((e.lease_context ≡ none)
          × (f.lease_context ≡ some e.next_lease)
          × (f.next_lease ≡ e.next_lease + 1))
unfolding apply_status
apply_status-slot status e = ground arith

on_lease_finished-slot :
    (i : ℕ) (e : Exporter)
    → let f = (on_lease_finished i e).0 in
      ((f.lease_context ≡ e.lease_context) × (f.next_lease ≡ e.next_lease))
      ⊎ ((e.lease_context ≡ some i) × (f.lease_context ≡ none) × (f.next_lease ≡ e.next_lease))
unfolding on_lease_finished
on_lease_finished-slot i e = ground arith

hand_back-slot :
    (i : ℕ) (e : Exporter)
    → ((hand_back i e).lease_context ≡ e.lease_context)
      × ((hand_back i e).next_lease ≡ e.next_lease)
unfolding hand_back
hand_back-slot i e = ground arith

-- Every step of the control plane is one of the slot's moves.
Step-Moves : {s t : System} → Step s t → Moves (slot_of s) (slot_of t)
unfolding handle_message
Step-Moves (receive status e) = rw e (stays refl refl)
Step-Moves {s} (handle (tick status) rest l h e) =
    rw e (elim (apply_status-slot status (record s.exporter { inbox = rest })) [
      | inl same ↦ stays same.0 same.1
      | inr new ↦ acquires new.0 new.1 new.2
    ])
Step-Moves {s} (handle (lease_finished i) rest l h e) =
    rw e (elim (on_lease_finished-slot i (record s.exporter { inbox = rest })) [
      | inl same ↦ stays same.0 same.1
      | inr back ↦ releases i back.0 back.1 back.2
    ])
Step-Moves {s} (finish i before after h e) =
    let same = hand_back-slot i (record s.exporter { tasks = before ++ after }) in
    rw e (stays same.0 same.1)
Step-Moves (work same l) = stays same.slot same.next

Reach-Runs :
    {exits : Bool} {hooks : Option HookConfig} {s : System} → Reach exits hooks s → Runs (slot_of s)
Reach-Runs begin = free
Reach-Runs (next r st) = moves (Reach-Runs r) (Step-Moves st)

-- The control plane implements the slot: what is seen of a reachable state is reached by moves of
-- the slot alone, and each step from there, of whichever task, is one move. So the slot never goes
-- from one lease to another without being free in between.
pub control_plane-refines :
    {exits : Bool} {hooks : Option HookConfig} {s : System}
    → Reach exits hooks s
    → Runs (slot_of s) × ((t : System) → Step s t → Moves (slot_of s) (slot_of t))
control_plane-refines r = (Reach-Runs r, λ t st. Step-Moves st)
