-- ===== src/Shell.antt =====
-- python/packages/jumpstarter-cli/jumpstarter_cli/shell.py: the token of a running shell, its
-- recovery, and the monitor that warns of its expiry. Time left is in seconds, rounded up, and 0 when
-- the token is expired.
pub mod Recovery
pub mod Warnings
use jumpstarter.Common.{
  Bool, false, String, ℕ, List, Option, some, if◌then◌else◌, [], none, ltb, not, true, ◌∷◌, leb,
  str_eq, ◌||◌, ◌++◌, suc, is_some, ◌&&◌, zero, truthy,
}

-- The client's configuration; an empty token is no token.
pub record Tokens : Type 0 where
  pub token : String
  pub refresh_token : Option String

-- The configuration, and the token with which the lease's channel is made, if there is a lease.
pub record ShellState : Type 0 where
  pub config : Tokens
  pub channel_token : Option String

-- What the calls of one attempt give: none for an exception. The refresh gives the new access token
-- and perhaps a refresh token; the file's configuration comes with the time that its token has
-- left, where it can be read; the last is whether a channel is made.
pub record Answers : Type 0 where
  pub issuer : Option String
  pub refresh_token_grant : Option (String × Option String)
  pub disk_config : Option (Option String × Option String)
  pub disk_remaining : Option ℕ
  pub has_path : Bool
  pub channel : Bool

-- A body that raises, and one that returns.
pub data Ran : Type 0 where
  raised : Ran
  gave : Bool → ShellState → Ran

abbrev pub with_config : Tokens → ShellState → ShellState
with_config c s = record { config = c; channel_token = s.channel_token }

-- `_update_lease_channel`: whether it raises, and the lease's channel
abbrev pub renewed : String → Option String → Option String
renewed token none = none
renewed token (some old) = some token

abbrev pub update_lease_channel : Answers → ShellState → Option ShellState
update_lease_channel a s =
    if a.channel || not (is_some s.channel_token)
    then some (record { config = s.config; channel_token = renewed s.config.token s.channel_token })
    else none

-- `return True` after the channel is there
abbrev pub then_true : Option ShellState → Ran
then_true none = raised
then_true (some s) = gave true s

-- The handler restores both tokens; the channel stays as the body left it.
abbrev pub restore : ShellState → Ran → Bool × ShellState
restore s raised = (false, s)
restore s (gave b s') = (b, s')

abbrev pub or_else : Option String → Option String → Option String
or_else none old = old
or_else (some t) old = some t

abbrev pub granted : Answers → Option (String × Option String) → ShellState → Ran
granted a none s = raised
granted a (some (access, refresh)) s = then_true (
    update_lease_channel a (
      with_config
        (record { token = access; refresh_token = or_else refresh s.config.refresh_token }) s))

abbrev pub refresh_body : Answers → Option String → ShellState → Ran
refresh_body a none s = raised
refresh_body a (some issuer) s = granted a a.refresh_token_grant s

-- `_try_refresh_token`; that the new token is saved or not makes no difference
unfoldable pub try_refresh_token : Answers → ShellState → Bool × ShellState
try_refresh_token a s =
    if truthy s.config.refresh_token then restore s (refresh_body a a.issuer s) else (false, s)

abbrev pub is_left : Option ℕ → Bool
is_left none = false
is_left (some n) = ltb 0 n

abbrev pub use_disk_token : Answers → Option String → Option String → ShellState → Ran
use_disk_token a none refresh s = gave false s
use_disk_token a (some token) refresh s =
    let used = then_true (
      update_lease_channel a (with_config (record { token = token; refresh_token = refresh }) s)) in
    if str_eq token "" || (str_eq token s.config.token || not (is_left a.disk_remaining))
    then gave false s
    else used

abbrev pub reload_body : Answers → Option (Option String × Option String) → ShellState → Ran
reload_body a none s = raised
reload_body a (some (token, refresh)) s = use_disk_token a token refresh s

-- `_try_reload_token_from_disk`
unfoldable pub try_reload_token_from_disk : Answers → ShellState → Bool × ShellState
try_reload_token_from_disk a s =
    if a.has_path then restore s (reload_body a a.disk_config s) else (false, s)

-- The two messages of `_attempt_token_recovery`.
pub data Recovered : Type 0 where
  token_refreshed token_reloaded : Recovered

abbrev pub reloaded : Bool × ShellState → Option Recovered × ShellState
reloaded (true, s) = (some token_reloaded, s)
reloaded (false, s) = (none, s)

abbrev pub or_reload : Answers → Bool × ShellState → Option Recovered × ShellState
unfolding try_reload_token_from_disk
or_reload a (true, s) = (some token_refreshed, s)
or_reload a (false, s) = reloaded (try_reload_token_from_disk a s)

unfoldable pub attempt_token_recovery : Answers → ShellState → Option Recovered × ShellState
unfolding try_refresh_token try_reload_token_from_disk
attempt_token_recovery a s = or_reload a (try_refresh_token a s)

-- `warn_state`, and the `expired_unrecovered` of `token_state`
pub record WarnState : Type 0 where
  pub expiry : Bool
  pub refresh_failed : Bool
  pub token_expired : Bool
  pub expired_unrecovered : Bool

-- What is written to the terminal.
pub data Notice : Type 0 where
  recovered : Recovered → Notice
  expired_and_failed : Notice
  expires_and_failed : ℕ → Notice
  expires_in : ℕ → Notice

abbrev pub no_warnings : WarnState
no_warnings = record {
  expiry = false;
  refresh_failed = false;
  token_expired = false;
  expired_unrecovered = false;
}

abbrev pub warn_failed : ℕ → WarnState → WarnState × List Notice
warn_failed zero w = if w.token_expired then (w, []) else (
  record {
    expiry = w.expiry;
    refresh_failed = w.refresh_failed;
    token_expired = true;
    expired_unrecovered = true;
  },
  expired_and_failed ∷ [],
)
warn_failed (suc n) w = if w.refresh_failed then (w, []) else (
  record {
    expiry = w.expiry;
    refresh_failed = true;
    token_expired = w.token_expired;
    expired_unrecovered = w.expired_unrecovered;
  },
  expires_and_failed (suc n) ∷ [],
)

abbrev pub warn_or_reset : ℕ → Option Recovered → WarnState → WarnState × List Notice
warn_or_reset remaining (some how) w = (no_warnings, recovered how ∷ [])
warn_or_reset remaining none w = warn_failed remaining w

-- `_handle_token_refresh`
unfoldable pub handle_token_refresh :
    Answers → ℕ → ShellState × WarnState → ShellState × WarnState × List Notice
unfolding attempt_token_recovery
handle_token_refresh a remaining (s, w) =
    let (how, s') = attempt_token_recovery a s in
    let (w', written) = warn_or_reset remaining how w in (s', w', written)

abbrev pub refresh_threshold : ℕ
refresh_threshold = 120

abbrev pub expiry_warning : ℕ
expiry_warning = 300

abbrev pub warn_expiry : ℕ → WarnState → WarnState × List Notice
warn_expiry remaining w =
    if leb remaining expiry_warning && not w.expiry
    then (
      record {
        expiry = true;
        refresh_failed = w.refresh_failed;
        token_expired = w.token_expired;
        expired_unrecovered = w.expired_unrecovered;
      },
      expires_in remaining ∷ [],
    )
    else (w, [])

-- One turn of the loop of `_monitor_token_expiry`, with the time that the token has left.
unfoldable pub check_token :
    Answers → ℕ → ShellState × WarnState → ShellState × WarnState × List Notice
unfolding handle_token_refresh
check_token a remaining (s, w) =
    let refreshed = handle_token_refresh a remaining (s, w) in
    let (w', written) = warn_expiry remaining w in
    if leb remaining refresh_threshold then refreshed else (s, w', written)

-- The loop of `_monitor_token_expiry`: the turns until the shell ends, each with the time left; none
-- for a token whose time cannot be told, at which the monitor ends.
unfoldable pub monitor_turns :
    List (Answers × Option ℕ) → ShellState × WarnState → ShellState × WarnState × List Notice
unfolding check_token
monitor_turns [] (s, w) = (s, w, [])
monitor_turns ((a, none) ∷ turns) (s, w) = (s, w, [])
monitor_turns ((a, some remaining) ∷ turns) (s, w) =
    let (s', w', first) = check_token a remaining (s, w) in
    let (s'', w'', later) = monitor_turns turns (s', w') in (s'', w'', first ++ later)

-- `_monitor_token_expiry`; with no token it returns at once
unfoldable pub monitor_token_expiry :
    List (Answers × Option ℕ) → ShellState × WarnState → ShellState × WarnState × List Notice
unfolding monitor_turns
monitor_token_expiry turns (s, w) =
    let monitored = monitor_turns turns (s, w) in
    if str_eq s.config.token "" then (s, w, []) else monitored
