-- ===== src/Monitor/Polls.antt =====
-- What runs of the poll loop leave: the transitions counted as missed, and the lost connection.
use jumpstarter.Rpc.{deadline_exceeded, unavailable}
use mathlib.Core.Path.{subst}
use jumpstarter.Session.{proto_of}
use jumpstarter.Status.{ExporterStatus, to_proto}
use jumpstarter.Common.{
  ℕ, ◌≡◌, ◌+◌, ◌≤◌, ◌<◌, true, false, some, arith, leb, List, [], ◌∷◌, if◌then◌else◌, suc, not,
  String, ltb, ◌∙◌, Option, refl, Bool-cases, sym, inl, inr,
}
use jumpstarter.Monitor.{
  poll, poll_all, Monitor, Answer, responds, missed_between, grpc_error, lose_connection,
}

-- A response of known statuses: the number of its status, its version and its message.
pub record Shown : Type 0 where
  pub status : ExporterStatus
  pub message : String
  pub version : ℕ
  pub previous : Option ExporterStatus

abbrev pub response : Shown → Answer
response r = responds (record {
  status = to_proto r.status;
  message = r.message;
  status_version = r.version;
  previous_status = proto_of r.previous;
})

abbrev pub responses : List Shown → List Answer
responses [] = []
responses (r ∷ rs) = response r ∷ responses rs

-- The versions never fall, from `v` on.
abbrev pub Rising : ℕ → List Shown → Type 0
Rising v [] = Unit {0}
Rising v (r ∷ rs) = (v ≤ r.version) × Rising r.version rs

-- How many of the polls find a newer version than the one before.
abbrev pub rises : ℕ → List Shown → ℕ
rises v [] = 0
rises v (r ∷ rs) = let rest = rises r.version rs in if ltb v r.version then rest + 1 else rest

poll-response :
    (r : Shown) (m : Monitor)
    → ((poll (response r) m).0.status_version ≡ r.version)
      × ((poll (response r) m).0.current_status ≡ some r.status)
      × ((poll (response r) m).0.running ≡ m.running)
      × ((poll (response r) m).0.connection_lost ≡ false)
      × ((poll (response r) m).0.deadline_retries ≡ 0)
      × ((poll (response r) m).0.missed_transitions
          ≡ m.missed_transitions + missed_between m.status_version r.version)
unfolding poll
poll-response r m = ground arith

-- While the monitor runs and has seen a version, over polls whose versions never fall: the
-- transitions that it has seen and those that it counts as missed add up to the growth of the
-- version, so none is lost track of.
pub missed-add-rises :
    (rs : List Shown) (m : Monitor)
    → m.running ≡ true
    → 0 < m.status_version
    → Rising m.status_version rs
    → (poll_all (responses rs) m).missed_transitions + rises m.status_version rs + m.status_version
      ≡ m.missed_transitions + (poll_all (responses rs) m).status_version
unfolding poll_all
missed-add-rises [] m run seen up = omega arith
missed-add-rises (r ∷ rs) m run seen up =
    let m' = (poll (response r) m).0 in
    let p = poll-response r m in
    ground (
      arith,
      p,
      run,
      missed-add-rises rs m' (p.2 ∙ run) (omega (arith, p.0, up.0))
          (subst (λ v. Rising v rs) (sym p.0) up.1),
    )

poll_all_stopped : (as' : List Answer) (m : Monitor) → m.running ≡ false → poll_all as' m ≡ m
unfolding poll_all
poll_all_stopped [] m h = refl
poll_all_stopped (a ∷ as') m h = rw h

-- Polls that time out or find the server unavailable.
pub data Trouble : Type 0 where
  times_out is_unavailable : Trouble

abbrev pub troubles : List Trouble → List Answer
troubles [] = []
troubles (times_out ∷ ts) = grpc_error deadline_exceeded ∷ troubles ts
troubles (is_unavailable ∷ ts) = grpc_error unavailable ∷ troubles ts

abbrev pub timeouts : List Trouble → ℕ
timeouts [] = 0
timeouts (times_out ∷ ts) = suc (timeouts ts)
timeouts (is_unavailable ∷ ts) = timeouts ts

-- From a running monitor with a connection and fewer than 20 timeouts counted, over polls that all
-- time out or find the server unavailable: the connection is given up, and the loop stopped,
-- exactly when the timeouts reach 20 in all, whether or not they follow one another.
pub lost-iff-timeouts :
    (ts : List Trouble) (m : Monitor)
    → m.running ≡ true
    → m.connection_lost ≡ false
    → m.deadline_retries < 20
    → ((poll_all (troubles ts) m).connection_lost ≡ leb 20 (m.deadline_retries + timeouts ts))
      × ((poll_all (troubles ts) m).running ≡ not (leb 20 (m.deadline_retries + timeouts ts)))
unfolding poll_all poll
lost-iff-timeouts [] m run live few = ground arith
lost-iff-timeouts (times_out ∷ ts) m run live few =
    let late = record m { unavailable_retries = 0; deadline_retries = m.deadline_retries + 1 } in
    elim (Bool-cases (leb 20 (m.deadline_retries + 1))) [
      | inl over ↦ ground (arith, run, over, poll_all_stopped (troubles ts) (lose_connection late))
      | inr under ↦ ground (arith, run, under, lost-iff-timeouts ts late)
    ]
lost-iff-timeouts (is_unavailable ∷ ts) m run live few = ground (
  arith,
  run,
  lost-iff-timeouts ts (record m { unavailable_retries = m.unavailable_retries + 1 }),
)
