-- ===== src/Exporter/Control/System.antt =====
-- The control plane with the tasks around it, as a step relation: the controller's status stream,
-- the loop, the ends of `handle_lease`, and whatever else the exporter's tasks do.
use jumpstarter.Common.{
  ℕ, ◌+◌, ◌≡◌, Bool, true, not, Option, ◌==◌, List, [], ◌∷◌, ◌++◌, if◌then◌else◌,
}
use jumpstarter.Exporter.{
  Exporter, StatusResponse, Message, tick, lease_finished, Task, handle_lease,
  run_before_lease_hook, lease_finished_watchdog, HookConfig, serving,
}
use jumpstarter.Exporter.Control.{handle_message, hand_back}

-- `looping` is whether the loop has not been left by a `break`.
pub record System : Type 0 where
  pub looping : Bool
  pub exporter : Exporter

abbrev pub count_handlers : ℕ → List Task → ℕ
count_handlers i [] = 0
count_handlers i (handle_lease j ∷ ts) =
    let rest = count_handlers i ts in if j == i then rest + 1 else rest
count_handlers i (run_before_lease_hook j ∷ ts) = count_handlers i ts
count_handlers i (lease_finished_watchdog j ∷ ts) = count_handlers i ts

abbrev pub count_finished : ℕ → List Message → ℕ
count_finished i [] = 0
count_finished i (tick status ∷ ms) = count_finished i ms
count_finished i (lease_finished j ∷ ms) =
    let rest = count_finished i ms in if j == i then rest + 1 else rest

-- What a task other than the loop and the end of `handle_lease` leaves alone: the slot, the
-- channel, the handlers and the names of leases. The events, statuses and flags may change.
pub record SameSlot (e e' : Exporter) : Type 0 where
  pub slot : e'.lease_context ≡ e.lease_context
  pub channel : e'.control_tx ≡ e.control_tx
  pub inbox : e'.inbox ≡ e.inbox
  pub next : e'.next_lease ≡ e.next_lease
  pub handlers : (i : ℕ) → count_handlers i e'.tasks ≡ count_handlers i e.tasks
  pub names : (i : ℕ) → (e'.leases i).lease_name ≡ (e.leases i).lease_name

abbrev pub take_message : Message → List Message → Exporter → System
take_message m rest e =
    let (e', stops) = handle_message m (record e { inbox = rest }) in
    record { looping = not stops; exporter = e' }

pub data Step (s t : System) : Type 0 where
  receive :
      (status : StatusResponse)
      → t
        ≡ record s { exporter = record s.exporter { inbox = s.exporter.inbox ++ tick status ∷ [] } }
      → Step s t
  handle :
      (m : Message) (rest : List Message)
      → s.looping ≡ true
      → s.exporter.inbox ≡ m ∷ rest
      → t ≡ take_message m rest s.exporter
      → Step s t
  finish :
      (i : ℕ) (before after : List Task)
      → s.exporter.tasks ≡ before ++ handle_lease i ∷ after
      → t ≡ record s { exporter = hand_back i (record s.exporter { tasks = before ++ after }) }
      → Step s t
  work : SameSlot s.exporter t.exporter → t.looping ≡ s.looping → Step s t

-- From a control plane that has just started.
pub data Reach (exits : Bool) (hooks : Option HookConfig) : System → Type 0 where
  begin : Reach exits hooks (record { looping = true; exporter = serving exits hooks })
  next : {s t : System} → Reach exits hooks s → Step s t → Reach exits hooks t
