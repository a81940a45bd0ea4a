-- ===== src/Shell/Recovery.antt =====
-- shell.py: what an attempt at a new token leaves.
use jumpstarter.Common.{
  Bool, if_both, String, Option, inl, ◌≡◌, ◌||◌, none, false, some, arith, not, refl, true, ◌⊎◌,
  inr, is_some, Bool-cases, str_eq, truthy,
}
use jumpstarter.Shell.{
  Answers, ShellState, try_refresh_token, try_reload_token_from_disk, restore, Recovered, reloaded,
  renewed, reload_body, refresh_body, granted, then_true, use_disk_token, or_else, token_refreshed,
  token_reloaded, is_left, attempt_token_recovery, or_reload,
}

-- The state with other tokens, and the lease's channel made anew with them.
abbrev pub moved_to : String → Option String → ShellState → ShellState
moved_to token refresh s = record {
  config = record { token = token; refresh_token = refresh };
  channel_token = renewed token s.channel_token;
}

abbrev Refreshed : Answers → ShellState → Bool × ShellState → Type 0
Refreshed a s r =
    ((r.0 ≡ false) × (r.1 ≡ s))
    ⊎ ((r.0 ≡ true)
        × (g : String × Option String) × (a.refresh_token_grant ≡ some g)
        × (r.1 ≡ moved_to g.0 (or_else g.1 s.config.refresh_token) s))

granted-Refreshed :
    (a : Answers) (s : ShellState) (g : Option (String × Option String))
    → a.refresh_token_grant ≡ g
    → Refreshed a s (restore s (granted a g s))
granted-Refreshed a s none e = inl (refl, refl)
granted-Refreshed a s (some (access, refresh)) e =
    if_both (λ (o : Option ShellState). Refreshed a s (restore s (then_true o)))
      (a.channel || not (is_some s.channel_token)) (inr (refl, (access, refresh), e, refl))
      (inl (refl, refl))

body-Refreshed :
    (a : Answers) (s : ShellState) (issuer : Option String)
    → Refreshed a s (restore s (refresh_body a issuer s))
body-Refreshed a s none = inl (refl, refl)
body-Refreshed a s (some issuer) = granted-Refreshed a s a.refresh_token_grant refl

try_refresh_token-Refreshed : (a : Answers) (s : ShellState) → Refreshed a s (try_refresh_token a s)
unfolding try_refresh_token
try_refresh_token-Refreshed a s =
    if_both (λ (r : Bool × ShellState). Refreshed a s r) (truthy s.config.refresh_token)
      (body-Refreshed a s a.issuer) (inl (refl, refl))

second_false : (x y z : Bool) → (x || (y || not z)) ≡ false → y ≡ false
second_false x y z h = ground (arith, h)

third_true : (x y z : Bool) → (x || (y || not z)) ≡ false → z ≡ true
third_true x y z h = ground (arith, h)

abbrev Reloaded : Answers → ShellState → Bool × ShellState → Type 0
Reloaded a s r =
    ((r.0 ≡ false) × (r.1 ≡ s))
    ⊎ ((r.0 ≡ true)
        × (d : String × Option String) × (a.disk_config ≡ some (some d.0, d.1))
        × (str_eq d.0 s.config.token ≡ false)
        × (is_left a.disk_remaining ≡ true)
        × (r.1 ≡ moved_to d.0 d.1 s))

use_disk-Reloaded :
    (a : Answers) (s : ShellState) (token : Option String) (refresh : Option String)
    → a.disk_config ≡ some (token, refresh)
    → Reloaded a s (restore s (use_disk_token a token refresh s))
use_disk-Reloaded a s none refresh e = inl (refl, refl)
use_disk-Reloaded a s (some token) refresh e =
    elim (Bool-cases
      (str_eq token "" || (str_eq token s.config.token || not (is_left a.disk_remaining)))) [
        | inl h ↦ rw h (inl (refl, refl))
        | inr h ↦ rw h (
            if_both (λ (o : Option ShellState). Reloaded a s (restore s (then_true o)))
              (a.channel || not (is_some s.channel_token))
              (inr (
                refl,
                (token, refresh),
                e,
                second_false (str_eq token "") (str_eq token s.config.token)
                    (is_left a.disk_remaining) h,
                third_true (str_eq token "") (str_eq token s.config.token)
                    (is_left a.disk_remaining) h,
                refl,
              ))
              (inl (refl, refl)))
      ]

body-Reloaded :
    (a : Answers) (s : ShellState) (d : Option (Option String × Option String))
    → a.disk_config ≡ d
    → Reloaded a s (restore s (reload_body a d s))
body-Reloaded a s none e = inl (refl, refl)
body-Reloaded a s (some (token, refresh)) e = use_disk-Reloaded a s token refresh e

try_reload_token_from_disk-Reloaded :
    (a : Answers) (s : ShellState) → Reloaded a s (try_reload_token_from_disk a s)
unfolding try_reload_token_from_disk
try_reload_token_from_disk-Reloaded a s =
    if_both (λ (r : Bool × ShellState). Reloaded a s r) a.has_path
      (body-Reloaded a s a.disk_config refl) (inl (refl, refl))

abbrev pub RecoveryEnds : Answers → ShellState → Option Recovered × ShellState → Type 0
RecoveryEnds a s r =
    ((r.0 ≡ none) × (r.1 ≡ s))
    ⊎ ((r.0 ≡ some token_refreshed)
        × (g : String × Option String) × (a.refresh_token_grant ≡ some g)
        × (r.1 ≡ moved_to g.0 (or_else g.1 s.config.refresh_token) s))
    ⊎ ((r.0 ≡ some token_reloaded)
        × (d : String × Option String) × (a.disk_config ≡ some (some d.0, d.1))
        × (str_eq d.0 s.config.token ≡ false)
        × (is_left a.disk_remaining ≡ true)
        × (r.1 ≡ moved_to d.0 d.1 s))

reloaded-RecoveryEnds :
    (a : Answers) (s : ShellState) (r : Bool × ShellState)
    → Reloaded a s r
    → RecoveryEnds a s (reloaded r)
reloaded-RecoveryEnds a s (false, s') (inl (b, e)) = inl (refl, e)
reloaded-RecoveryEnds a s (true, s') (inl (b, e)) = absurd (ground (arith, b))
reloaded-RecoveryEnds a s (false, s') (inr r) = absurd (ground (arith, r.0))
reloaded-RecoveryEnds a s (true, s') (inr (b, d, file, new, left, e)) =
    inr (inr (refl, d, file, new, left, e))

tried-RecoveryEnds :
    (a : Answers) (s : ShellState) (r : Bool × ShellState)
    → Refreshed a s r
    → RecoveryEnds a s (or_reload a r)
unfolding or_reload
tried-RecoveryEnds a s (false, s') (inl (b, e)) = rw e (
    reloaded-RecoveryEnds a s (try_reload_token_from_disk a s)
      (try_reload_token_from_disk-Reloaded a s))
tried-RecoveryEnds a s (true, s') (inl (b, e)) = absurd (ground (arith, b))
tried-RecoveryEnds a s (false, s') (inr r) = absurd (ground (arith, r.0))
tried-RecoveryEnds a s (true, s') (inr (b, g, grant, e)) = inr (inl (refl, g, grant, e))

-- An attempt ends in one of three ways. It fails, and leaves both tokens and the lease's channel as
-- they were. Or it is by a refresh: the access token that the grant gave is in the configuration,
-- with the refresh token that it gave or else the old one. Or it is by the file: its token differs
-- from the one in use and has time left, and it is in the configuration, with the file's refresh
-- token. In the last two, the lease's channel, if there is a lease, is made with the new token.
pub attempt_token_recovery-RecoveryEnds :
    (a : Answers) (s : ShellState) → RecoveryEnds a s (attempt_token_recovery a s)
unfolding attempt_token_recovery or_reload
attempt_token_recovery-RecoveryEnds a s =
    tried-RecoveryEnds a s (try_refresh_token a s) (try_refresh_token-Refreshed a s)
