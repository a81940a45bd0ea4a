-- ===== src/Exporter/Keeps.antt =====
-- exporter/exporter.py: what the other tasks leave as it is while a method waits, the task of
-- `_drain_status_reports` among them.
use jumpstarter.Common.{ℕ, ◌≡◌, refl, Bool, true, false, Option, none, some, ◌∙◌, if_both}
use jumpstarter.Rpc.{StatusCode}
use jumpstarter.Exporter.{Exporter, World, Rpc, StatusRequest, await, call}
use jumpstarter.Exporter.Reports.{drain_status_reports, send_report_status_rpc, send_pending}

-- From a state to a later one, the slot, the serving of statuses, the leases' names and the exit
-- code are the same, and a stop that was requested still is. More calls may have been made.
pub record Kept (s t : Exporter) : Type 0 where
  pub slot : t.lease_context ≡ s.lease_context
  pub drain : t.status_drain_active ≡ s.status_drain_active
  pub alone : t.standalone ≡ s.standalone
  pub exit : t.exit_code ≡ s.exit_code
  pub stopping : s.stop_requested ≡ true → t.stop_requested ≡ true
  pub names : (j : ℕ) → (t.leases j).lease_name ≡ (s.leases j).lease_name

pub Kept-refl : (s : Exporter) → Kept s s
Kept-refl s = record {
  slot = refl;
  drain = refl;
  alone = refl;
  exit = refl;
  stopping = λ h. h;
  names = λ j. refl;
}

pub Kept-trans : {s t u : Exporter} → Kept s t → Kept t u → Kept s u
Kept-trans a b = record {
  slot = b.slot ∙ a.slot;
  drain = b.drain ∙ a.drain;
  alone = b.alone ∙ a.alone;
  exit = b.exit ∙ a.exit;
  stopping = λ h. b.stopping (a.stopping h);
  names = λ j. b.names j ∙ a.names j;
}

-- That a controller was found not to support the ReleaseLease call changes none of these.
pub Kept-unsupported : (s : Exporter) → Kept s (record s { release_lease_unsupported = true })
Kept-unsupported s = record {
  slot = refl;
  drain = refl;
  alone = refl;
  exit = refl;
  stopping = λ h. h;
  names = λ j. refl;
}

-- What the other tasks do in each wait keeps these.
abbrev pub Keeps : World → Type 0
Keeps w = (n : ℕ) (s : Exporter) → Kept s (w.others n s)

-- A world in which a round of `_drain_status_reports` follows what the other tasks do in each wait.
unfoldable pub draining : World → World
unfolding drain_status_reports
draining w = record { answer = w.answer; others = λ n s. drain_status_reports w (w.others n s) }

module _ (w : World) (k : Keeps w) where
  pub await-Kept : (s : Exporter) → Kept s (await w s)
  unfolding await
  await-Kept s = record {
    slot = (k s.awaits s).slot;
    drain = (k s.awaits s).drain;
    alone = (k s.awaits s).alone;
    exit = (k s.awaits s).exit;
    stopping = (k s.awaits s).stopping;
    names = (k s.awaits s).names;
  }

  pub call-Kept : (rpc : Rpc) (nr : StatusCode → Bool) (s : Exporter) → Kept s (call w rpc nr s).0
  unfolding call
  call-Kept rpc nr s =
      let a = await-Kept _ in
      record {
        slot = a.slot;
        drain = a.drain;
        alone = a.alone;
        exit = a.exit;
        stopping = a.stopping;
        names = a.names;
      }

  pending-Kept : (o : Option StatusRequest) (s : Exporter) → Kept s (send_pending w o s)
  unfolding send_report_status_rpc
  pending-Kept none s = Kept-refl s
  pending-Kept (some request) s = call-Kept _ _ s

  drain_status_reports-Kept : (s : Exporter) → Kept s (drain_status_reports w s)
  unfolding drain_status_reports
  drain_status_reports-Kept s =
      let cleared = record s { status_rpc_event = false } in
      let c : Kept s cleared = record {
        slot = refl;
        drain = refl;
        alone = refl;
        exit = refl;
        stopping = λ h. h;
        names = λ j. refl;
      } in
      if_both (λ (t : Exporter). Kept s t) s.status_rpc_event
        (Kept-trans c (pending-Kept s.pending_status_request cleared)) (Kept-refl s)

  -- With the reports that the task sends meanwhile, the waits keep what they kept without it.
  pub draining-Keeps : Keeps (draining w)
  unfolding draining drain_status_reports
  draining-Keeps n s = Kept-trans (k n s) (drain_status_reports-Kept (w.others n s))
