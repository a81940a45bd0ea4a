-- ===== src/Exporter/Control/Ownership.antt =====
-- Who holds the slot: between a lease's acquisition and the release of its slot there is exactly
-- one `handle_lease` task or `LeaseFinished` message for it, and there is none for any other.
use jumpstarter.Common.{
  ℕ, ◌+◌, ◌≡◌, refl, Bool, Option, none, some, ◌==◌, List, [], ◌∷◌, ◌++◌, if◌then◌else◌, arith, ◌∙◌,
  ◌≤◌, ◌↔◌,
}
use jumpstarter.Exporter.{
  Exporter, StatusResponse, Message, tick, lease_finished, Task, handle_lease,
  run_before_lease_hook, lease_finished_watchdog, open_channel, HookConfig,
}
use jumpstarter.Exporter.Control.{handle_message, apply_status, on_lease_finished, hand_back}
use jumpstarter.Exporter.Control.System.{
  System, count_handlers, count_finished, Step, receive, handle, finish, work, Reach, begin, next,
  take_message,
}

abbrev pub owns : Option ℕ → ℕ → ℕ
owns none i = 0
owns (some j) i = if j == i then 1 else 0

pub record Owned (e : Exporter) : Type 0 where
  pub channel : e.control_tx ≡ open_channel
  pub held : (i : ℕ) → count_handlers i e.tasks + count_finished i e.inbox ≡ owns e.lease_context i

count_handlers-append :
    (i : ℕ) (ts us : List Task)
    → count_handlers i (ts ++ us) ≡ count_handlers i ts + count_handlers i us
count_handlers-append i [] us = omega arith
count_handlers-append i (handle_lease j ∷ ts) us = ground (arith, count_handlers-append i ts us)
count_handlers-append i (run_before_lease_hook j ∷ ts) us = count_handlers-append i ts us
count_handlers-append i (lease_finished_watchdog j ∷ ts) us = count_handlers-append i ts us

count_finished-append :
    (i : ℕ) (ms ns : List Message)
    → count_finished i (ms ++ ns) ≡ count_finished i ms + count_finished i ns
count_finished-append i [] ns = omega arith
count_finished-append i (tick s ∷ ms) ns = count_finished-append i ms ns
count_finished-append i (lease_finished j ∷ ms) ns = ground (arith, count_finished-append i ms ns)

-- A status tick keeps the ownership.
apply_status-Owned :
    (status : StatusResponse) (e : Exporter) → Owned e → Owned (apply_status status e).0
unfolding apply_status
apply_status-Owned status e h = record {
  channel = ground (arith, h.channel);
  held = λ i. grind (arith, count_handlers-append, h.held);
}

on_lease_finished-Owned :
    (j : ℕ) (e : Exporter)
    → e.control_tx ≡ open_channel
    → ((i : ℕ)
        → count_handlers i e.tasks + count_finished i e.inbox + owns (some j) i
          ≡ owns e.lease_context i)
    → Owned (on_lease_finished j e).0
unfolding on_lease_finished
on_lease_finished-Owned j e c h = record {
  channel = ground (arith, c);
  held = λ i. grind (arith, count_finished-append, h);
}

handle_message-Owned :
    (m : Message) (rest : List Message) (e : Exporter)
    → e.inbox ≡ m ∷ rest
    → Owned e
    → Owned (handle_message m (record e { inbox = rest })).0
unfolding handle_message
handle_message-Owned (tick status) rest e h o =
    apply_status-Owned status (record e { inbox = rest })
      (record { channel = o.channel; held = λ i. ground (arith, o.held i) })
handle_message-Owned (lease_finished j) rest e h o =
    on_lease_finished-Owned j (record e { inbox = rest }) o.channel (λ i. ground (arith, o.held i))

hand_back-Owned :
    (i : ℕ) (before after : List Task) (e : Exporter)
    → e.tasks ≡ before ++ handle_lease i ∷ after
    → Owned e
    → Owned (hand_back i (record e { tasks = before ++ after }))
unfolding hand_back
hand_back-Owned i before after e h o = record {
  channel = ground (arith, o.channel);
  held = λ j. ground (
    arith,
    o.held j,
    o.channel,
    count_handlers-append j before after,
    count_handlers-append j before (handle_lease i ∷ after),
    count_finished-append j e.inbox (lease_finished i ∷ []),
  );
}

Step-Owned : {s t : System} → Step s t → Owned s.exporter → Owned t.exporter
Step-Owned {s} (receive status e) o = rw e (record {
  channel = o.channel;
  held = λ i. ground (arith, o.held i, count_finished-append i s.exporter.inbox (tick status ∷ []));
})
Step-Owned {s} (handle m rest l h e) o = rw e (handle_message-Owned m rest s.exporter h o)
Step-Owned {s} (finish i before after h e) o = rw e (hand_back-Owned i before after s.exporter h o)
Step-Owned (work same l) o = record {
  channel = same.channel ∙ o.channel;
  held = λ i. ground (arith, o.held i, same.handlers i, same.slot, same.inbox);
}

Reach-Owned :
    {exits : Bool} {hooks : Option HookConfig} {s : System} → Reach exits hooks s → Owned s.exporter
Reach-Owned begin = record { channel = refl; held = λ i. refl }
Reach-Owned (next r st) = Step-Owned st (Reach-Owned r)

module _ {exits : Bool} {hooks : Option HookConfig} {s : System} (r : Reach exits hooks s) where
  -- In every reachable state of the control plane, for every lease: its `handle_lease` tasks and
  -- its `LeaseFinished` messages are together at most one, and one exactly when the lease holds
  -- the slot. So two leases are never served at once.
  pub slot_owner :
      (i : ℕ)
      → (count_handlers i s.exporter.tasks + count_finished i s.exporter.inbox ≤ 1)
        × ((count_handlers i s.exporter.tasks + count_finished i s.exporter.inbox ≡ 1)
            ↔ (s.exporter.lease_context ≡ some i))
  slot_owner i = ground (arith, (Reach-Owned r).held i)

  -- When the loop takes a `LeaseFinished` from the channel in a reachable state, the slot is still
  -- that lease's: the test for another owner never fails, the slot is released, and the lease is
  -- remembered as the last completed one.
  pub finished_owns_slot :
      (i : ℕ) (rest : List Message)
      → s.exporter.inbox ≡ lease_finished i ∷ rest
      → (s.exporter.lease_context ≡ some i)
        × ((take_message (lease_finished i) rest s.exporter).exporter.lease_context ≡ none)
        × ((take_message (lease_finished i) rest s.exporter).exporter.last_completed_lease
            ≡ some (s.exporter.leases i).lease_name)
  unfolding handle_message
  finished_owns_slot i rest h = (
    ground (arith, (Reach-Owned r).held i),
    ground (arith, (Reach-Owned r).held i),
    ground (arith, (Reach-Owned r).held i),
  )
