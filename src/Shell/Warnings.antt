-- ===== src/Shell/Warnings.antt =====
-- shell.py: the warnings of the token monitor.
use jumpstarter.Common.{
  Bool, List, true, ◌++◌, false, ◌∷◌, ◌≡◌, not, ◌&&◌, [], refl, ℕ, Option, if_both, some, leb, none,
  suc, zero, if◌then◌else◌, ◌∙◌, ap, str_eq, sym, arith,
}
use jumpstarter.Shell.{
  Notice, recovered, expired_and_failed, expires_and_failed, expires_in, monitor_turns, WarnState,
  check_token, warn_failed, handle_token_refresh, Answers, warn_expiry, ShellState, Recovered,
  warn_or_reset, refresh_threshold, expiry_warning, attempt_token_recovery, monitor_token_expiry,
  no_warnings,
}

-- What the flags say of the messages until now: whether the token was said to be expired since the
-- last recovery.
abbrev pub said_expired : Bool → List Notice → Bool
said_expired b [] = b
said_expired b (recovered how ∷ rest) = said_expired false rest
said_expired b (expired_and_failed ∷ rest) = said_expired true rest
said_expired b (expires_and_failed n ∷ rest) = said_expired b rest
said_expired b (expires_in n ∷ rest) = said_expired b rest

-- No message says that the token is expired where that was said since the last recovery.
abbrev pub said_once : Bool → List Notice → Bool
said_once b [] = true
said_once b (recovered how ∷ rest) = said_once false rest
said_once b (expired_and_failed ∷ rest) = not b && said_once true rest
said_once b (expires_and_failed n ∷ rest) = said_once b rest
said_once b (expires_in n ∷ rest) = said_once b rest

said_expired-append :
    (b : Bool) (ms ns : List Notice)
    → said_expired b (ms ++ ns) ≡ said_expired (said_expired b ms) ns
said_expired-append b [] ns = refl
said_expired-append b (recovered how ∷ ms) ns = said_expired-append false ms ns
said_expired-append b (expired_and_failed ∷ ms) ns = said_expired-append true ms ns
said_expired-append b (expires_and_failed n ∷ ms) ns = said_expired-append b ms ns
said_expired-append b (expires_in n ∷ ms) ns = said_expired-append b ms ns

said_once-append :
    (b : Bool) (ms ns : List Notice)
    → said_once b (ms ++ ns) ≡ (said_once b ms && said_once (said_expired b ms) ns)
said_once-append b [] ns = refl
said_once-append b (recovered how ∷ ms) ns = said_once-append false ms ns
said_once-append true (expired_and_failed ∷ ms) ns = refl
said_once-append false (expired_and_failed ∷ ms) ns = said_once-append true ms ns
said_once-append b (expires_and_failed n ∷ ms) ns = said_once-append b ms ns
said_once-append b (expires_in n ∷ ms) ns = said_once-append b ms ns

-- The flags are what the messages say, if they were before, and no message repeats another.
abbrev Tracks : WarnState → WarnState × List Notice → Type 0
Tracks w (w', ms) =
    (w'.expired_unrecovered ≡ w'.token_expired)
    × (w'.token_expired ≡ said_expired w.token_expired ms)
    × (said_once w.token_expired ms ≡ true)

expired-Tracks :
    (w : WarnState) (b : Bool)
    → w.token_expired ≡ b
    → w.expired_unrecovered ≡ w.token_expired
    → Tracks w (
        if b then (w, []) else (
          record {
            expiry = w.expiry;
            refresh_failed = w.refresh_failed;
            token_expired = true;
            expired_unrecovered = true;
          },
          expired_and_failed ∷ [],
        ))
expired-Tracks w true e same = (same, refl, refl)
expired-Tracks w false e same = (refl, refl, ap (λ b. not b && true) e)

warn_failed-Tracks :
    (remaining : ℕ) (w : WarnState)
    → w.expired_unrecovered ≡ w.token_expired
    → Tracks w (warn_failed remaining w)
warn_failed-Tracks zero w same = expired-Tracks w w.token_expired refl same
warn_failed-Tracks (suc n) w same =
    if_both (λ (r : WarnState × List Notice). Tracks w r) w.refresh_failed (same, refl, refl)
      (same, refl, refl)

warn_or_reset-Tracks :
    (remaining : ℕ) (how : Option Recovered) (w : WarnState)
    → w.expired_unrecovered ≡ w.token_expired
    → Tracks w (warn_or_reset remaining how w)
warn_or_reset-Tracks remaining none w same = warn_failed-Tracks remaining w same
warn_or_reset-Tracks remaining (some how) w same = (refl, refl, refl)

warn_expiry-Tracks :
    (remaining : ℕ) (w : WarnState)
    → w.expired_unrecovered ≡ w.token_expired
    → Tracks w (warn_expiry remaining w)
warn_expiry-Tracks remaining w same =
    if_both (λ (r : WarnState × List Notice). Tracks w r)
      (leb remaining expiry_warning && not w.expiry) (same, refl, refl) (same, refl, refl)

check_token-Tracks :
    (a : Answers) (remaining : ℕ) (s : ShellState) (w : WarnState)
    → w.expired_unrecovered ≡ w.token_expired
    → Tracks w ((check_token a remaining (s, w)).1, (check_token a remaining (s, w)).2)
unfolding check_token handle_token_refresh
check_token-Tracks a remaining s w same =
    if_both (λ (r : ShellState × WarnState × List Notice). Tracks w (r.1, r.2))
      (leb remaining refresh_threshold)
      (warn_or_reset-Tracks remaining (attempt_token_recovery a s).0 w same)
      (warn_expiry-Tracks remaining w same)

-- Two runs in a row.
join-Tracks :
    (w w' w'' : WarnState) (ms ns : List Notice)
    → Tracks w (w', ms)
    → Tracks w' (w'', ns)
    → Tracks w (w'', ms ++ ns)
join-Tracks w w' w'' ms ns (same, now, once) (same', later, once') = (
  same',
  later ∙ ap (λ b. said_expired b ns) now ∙ sym (said_expired-append w.token_expired ms ns),
  said_once-append w.token_expired ms ns
      ∙ ground (arith, once, ap (λ b. said_once b ns) now, once'),
)

monitor_turns-Tracks :
    (turns : List (Answers × Option ℕ)) (s : ShellState) (w : WarnState)
    → w.expired_unrecovered ≡ w.token_expired
    → Tracks w ((monitor_turns turns (s, w)).1, (monitor_turns turns (s, w)).2)
unfolding monitor_turns
monitor_turns-Tracks [] s w same = (same, refl, refl)
monitor_turns-Tracks ((a, none) ∷ turns) s w same = (same, refl, refl)
monitor_turns-Tracks ((a, some remaining) ∷ turns) s w same =
    let turn = check_token a remaining (s, w) in
    let first = check_token-Tracks a remaining s w same in
    let rest = monitor_turns turns (turn.0, turn.1) in
    join-Tracks w turn.1 rest.1 turn.2 rest.2 first
      (monitor_turns-Tracks turns turn.0 turn.1 first.0)

-- In every run of the monitor, from its start: the flag that tells the shell that its token is
-- expired and not recovered is set just when the user was told of it and no recovery came after, and
-- the user is not told of it a second time before a recovery.
pub monitor_token_expiry-told :
    (turns : List (Answers × Option ℕ)) (s : ShellState)
    → ((monitor_token_expiry turns (s, no_warnings)).1.expired_unrecovered
        ≡ said_expired false (monitor_token_expiry turns (s, no_warnings)).2)
      × (said_once false (monitor_token_expiry turns (s, no_warnings)).2 ≡ true)
unfolding monitor_token_expiry
monitor_token_expiry-told turns s =
    let (same, now, once) = monitor_turns-Tracks turns s no_warnings refl in
    if_both
      (λ (r : ShellState × WarnState × List Notice).
        (r.1.expired_unrecovered ≡ said_expired false r.2) × (said_once false r.2 ≡ true))
      (str_eq s.config.token "") {x = (s, no_warnings, [])}
      {y = monitor_turns turns (s, no_warnings)} (refl, refl) (same ∙ now, once)
