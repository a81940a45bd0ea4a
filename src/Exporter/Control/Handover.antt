-- ===== src/Exporter/Control/Handover.antt =====
-- What the control plane does with the controller's statuses, from one lease to the next.
use jumpstarter.Exporter.{Exporter, StatusResponse, open_channel, tick}
use jumpstarter.Common.{ℕ, ◌≡◌, true, false, some, none, str_eq, arith, ◌++◌, ◌∷◌, [], ◌∙◌, ap, sym}
use jumpstarter.Exporter.Control.{apply_status, on_lease_finished}

module _ (e : Exporter) (i : ℕ) (b : StatusResponse) where
  -- A status that names another lease than the one in the slot, with the slot's lease still live:
  -- it is put aside, the lease in the slot is told to end and keeps the slot, and a watchdog is
  -- started. Nothing stops.
  reassigned :
      e.lease_context ≡ some i
      → b.leased ≡ true
      → str_eq (e.leases i).lease_name b.lease_name ≡ false
      → (e.leases i).lease_ended ≡ false
      → ((apply_status b e).1 ≡ false)
        × ((apply_status b e).0.lease_context ≡ some i)
        × (((apply_status b e).0.leases i).lease_ended ≡ true)
        × ((apply_status b e).0.pending_lease_status ≡ some b)
  unfolding apply_status
  reassigned slot leased other live = ground arith

  -- When the lease in the slot is finished and a status for another lease was put aside: the slot is
  -- released, the lease is remembered as completed, and the status goes back to the end of the
  -- channel, once. Applied there, it takes the slot for a new lease of its name and client.
  pub handover :
      e.lease_context ≡ some i
      → e.pending_lease_status ≡ some b
      → e.control_tx ≡ open_channel
      → e.exit_on_lease_end ≡ false
      → e.stop_requested ≡ false
      → b.leased ≡ true
      → str_eq b.lease_name "" ≡ false
      → str_eq b.lease_name (e.leases i).lease_name ≡ false
      → let f = (on_lease_finished i e).0 in
        let g = (apply_status b f).0 in
        ((on_lease_finished i e).1 ≡ false)
        × (f.lease_context ≡ none)
        × (f.pending_lease_status ≡ none)
        × (f.inbox ≡ e.inbox ++ tick b ∷ [])
        × (g.lease_context ≡ some e.next_lease)
        × ((g.leases e.next_lease).lease_name ≡ b.lease_name)
        × ((g.leases e.next_lease).client_name ≡ b.client_name)
        × ((g.leases e.next_lease).lease_ended ≡ false)
  unfolding on_lease_finished apply_status
  handover slot pending channel exits stops leased named other = ground arith

-- An exporter that exits with its lease: a not-leased status for the lease in the slot asks for the
-- stop and tells the lease to end but goes on, so that the lease can be torn down; the loop stops
-- when the lease is finished, with its task group cancelled and the slot released.
exit_on_lease_end-stops :
    (e : Exporter) (i : ℕ) (status : StatusResponse)
    → e.exit_on_lease_end ≡ true
    → e.lease_context ≡ some i
    → e.tg ≡ true
    → status.leased ≡ false
    → ((apply_status status e).1 ≡ false)
      × ((apply_status status e).0.stop_requested ≡ true)
      × ((apply_status status e).0.cancelled ≡ e.cancelled)
      × ((apply_status status e).0.lease_context ≡ some i)
      × (((apply_status status e).0.leases i).lease_ended ≡ true)
      × ((on_lease_finished i e).1 ≡ true)
      × ((on_lease_finished i e).0.cancelled ≡ true)
      × ((on_lease_finished i e).0.lease_context ≡ none)
unfolding apply_status on_lease_finished
exit_on_lease_end-stops e i status exits slot group leased = ground arith

-- What a not-leased status leaves of an exporter with a lease in its slot and a status put aside.
unleased_keeps :
    (e : Exporter) (i : ℕ) (status : StatusResponse)
    → e.lease_context ≡ some i
    → e.exit_on_lease_end ≡ false
    → status.leased ≡ false
    → let f = (apply_status status e).0 in
      (f.lease_context ≡ some i)
      × (f.pending_lease_status ≡ e.pending_lease_status)
      × (f.control_tx ≡ e.control_tx)
      × (f.exit_on_lease_end ≡ e.exit_on_lease_end)
      × (f.stop_requested ≡ e.stop_requested)
      × ((f.leases i).lease_name ≡ (e.leases i).lease_name)
      × (f.inbox ≡ e.inbox)
      × (f.next_lease ≡ e.next_lease)
unfolding apply_status
unleased_keeps e i status slot exits leased = ground arith

-- A status put aside outlives the controller's word that the exporter is no longer leased: while
-- the lease in the slot is torn down, a not-leased status leaves it there, and when that lease is
-- finished the exporter takes up the lease again that the controller has withdrawn.
pub withdrawn_lease_is_acquired :
    (e : Exporter) (i : ℕ) (b status : StatusResponse)
    → e.lease_context ≡ some i
    → e.pending_lease_status ≡ some b
    → e.control_tx ≡ open_channel
    → e.exit_on_lease_end ≡ false
    → e.stop_requested ≡ false
    → b.leased ≡ true
    → str_eq b.lease_name "" ≡ false
    → str_eq b.lease_name (e.leases i).lease_name ≡ false
    → status.leased ≡ false
    → let f = (on_lease_finished i (apply_status status e).0).0 in
      (f.inbox ≡ e.inbox ++ tick b ∷ [])
      × ((apply_status b f).0.lease_context ≡ some e.next_lease)
      × (((apply_status b f).0.leases e.next_lease).lease_name ≡ b.lease_name)
withdrawn_lease_is_acquired e i b status slot pending channel exits stops leased named other free =
    let f = (apply_status status e).0 in
    let k = unleased_keeps e i status slot exits free in
    let h =
      handover f i b k.0 (k.1 ∙ pending) (k.2 ∙ channel) (k.3 ∙ exits) (k.4 ∙ stops) leased named
        (ap (str_eq b.lease_name) k.5 ∙ other) in
    (
      h.3 ∙ ap (λ m. m ++ tick b ∷ []) k.6,
      h.4 ∙ ap some k.7,
      ap (λ n. ((apply_status b (on_lease_finished i f).0).0.leases n).lease_name) (sym k.7) ∙ h.5,
    )
