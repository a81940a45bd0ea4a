-- ===== src/DutNetwork.antt =====
-- python/packages/jumpstarter-driver-dut-network/jumpstarter_driver_dut_network: the traffic filter of
-- driver.py and the forward chain that nftables.py renders for it. Texts of addresses are checked by
-- the library `ipaddress` and ports are printed by Python: both are parameters.
pub mod Chain
pub mod Layout
use Prim.Native.String.{◌++◌ as ◌+++◌}
use jumpstarter.Common.{
  ℕ, Bool, true, not, ◌&&◌, ◌||◌, Option, none, some, List, [], ◌∷◌, ◌++◌, String, str_eq, is_some,
}

pub record FilterRule : Type 0 where
  pub action : String
  pub destination : Option String
  pub source : Option String
  pub port : Option ℕ
  pub protocol : Option String

pub record FilterDirection : Type 0 where
  pub policy : String
  pub rules : List FilterRule

pub record FilterConfig : Type 0 where
  pub egress : Option FilterDirection
  pub ingress : Option FilterDirection

-- `ipaddress.ip_network` takes the text, and `str` of a number.
pub record Texts : Type 0 where
  pub is_network : String → Bool
  pub printed : ℕ → String

-- _VALID_ACTIONS, and _VALID_POLICIES
abbrev pub is_action : String → Bool
is_action a = str_eq a "accept" || str_eq a "drop"

abbrev pub is_protocol : String → Bool
is_protocol p = str_eq p "tcp" || str_eq p "udp"

abbrev pub all_of {ℓ} : {A : Type ℓ} → (A → Bool) → Option A → Bool
all_of test none = true
all_of test (some a) = test a

-- `FilterRule.__post_init__` raises nothing.
unfoldable pub is_valid_rule : Texts → FilterRule → Bool
is_valid_rule x r =
    is_action r.action
    && (all_of x.is_network r.destination
        && (all_of x.is_network r.source
            && ((not (is_some r.port) || is_some r.protocol) && all_of is_protocol r.protocol)))

abbrev pub all_valid : Texts → List FilterRule → Bool
unfolding is_valid_rule
all_valid x [] = true
all_valid x (r ∷ rs) = let rest = all_valid x rs in is_valid_rule x r && rest

-- `FilterDirection.__post_init__`, with those of its rules
abbrev pub is_valid_direction : Texts → FilterDirection → Bool
unfolding is_valid_rule
is_valid_direction x d = is_action d.policy && all_valid x d.rules

unfoldable pub is_valid_config : Texts → FilterConfig → Bool
unfolding is_valid_rule
is_valid_config x c =
    all_of (is_valid_direction x) c.egress && all_of (is_valid_direction x) c.ingress

-- `separator.join(parts)`
abbrev pub join_from : String → String → List String → String
join_from separator part [] = part
join_from separator part (p ∷ ps) = part +++ (separator +++ join_from separator p ps)

abbrev pub match_both : String → String → String
match_both iif oif = "        iifname \"" +++ (iif +++ ("\" oifname \"" +++ (oif +++ "\"")))

abbrev pub part_of : String → Option String → List String
part_of label none = []
part_of label (some value) = (label +++ value) ∷ []

abbrev pub port_part : Texts → Option ℕ → List String
port_part x none = []
port_part x (some port) = ("dport " +++ x.printed port) ∷ []

-- Which of its addresses a rule is rendered with, `addr_field`.
pub data AddrField : Type 0 where
  destination source : AddrField

abbrev pub addr_part : AddrField → FilterRule → List String
addr_part destination r = part_of "ip daddr " r.destination
addr_part source r = part_of "ip saddr " r.source

-- `_render_filter_rule`
unfoldable pub render_filter_rule : Texts → String → String → AddrField → FilterRule → String
render_filter_rule x iif oif field r =
    join_from " " (match_both iif oif)
      (addr_part field r ++ (part_of "" r.protocol ++ (port_part x r.port ++ r.action ∷ [])))

abbrev pub render_rules : Texts → String → String → AddrField → List FilterRule → List String
unfolding render_filter_rule
render_rules x iif oif field [] = []
render_rules x iif oif field (r ∷ rs) =
    render_filter_rule x iif oif field r ∷ render_rules x iif oif field rs

-- The rules of a direction and its policy, `accept` where it is not there.
abbrev pub direction_lines :
    Texts → String → String → AddrField → Option FilterDirection → List String
unfolding render_filter_rule
direction_lines x iif oif field none = (match_both iif oif +++ " accept") ∷ []
direction_lines x iif oif field (some d) =
    render_rules x iif oif field d.rules ++ (match_both iif oif +++ (" " +++ d.policy)) ∷ []

-- The lines after the head of the chain.
unfoldable pub forward_lines :
    Texts → String → String → Option FilterConfig → List String → List String
unfolding render_filter_rule
forward_lines x interface upstream none extras =
    (match_both interface upstream +++ " accept")
    ∷ (match_both upstream interface +++ " ct state related,established accept")
    ∷ (extras ++ "    }" ∷ [])
forward_lines x interface upstream (some c) extras =
    "        ct state related,established accept"
    ∷ (direction_lines x interface upstream destination c.egress
        ++ (extras ++ (direction_lines x upstream interface source c.ingress ++ "    }" ∷ [])))

-- `_build_forward_chain`
unfoldable pub build_forward_chain :
    Texts → String → String → Option FilterConfig → List String → String
unfolding forward_lines
build_forward_chain x interface upstream filter_config extras =
    join_from "\n" "    chain forward {" (
      "        type filter hook forward priority filter; policy accept;"
      ∷ forward_lines x interface upstream filter_config extras)
