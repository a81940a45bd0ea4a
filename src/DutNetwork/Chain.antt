-- ===== src/DutNetwork/Chain.antt =====
-- The lines of the rendered chain.
use Prim.Native.Char.{Char, code}
use text.Mathlib.TextLemmas.{nil-append, cons-append}
use Prim.Native.String.{◌++◌ as ◌+++◌}
use jumpstarter.DutNetwork.{
  join_from, part_of, is_action, is_protocol, all_of, match_both, Texts, render_rules,
  direction_lines, render_filter_rule, is_valid_rule, all_valid, AddrField, is_valid_direction,
  port_part, FilterDirection, FilterRule, FilterConfig, addr_part, destination, source,
}
use jumpstarter.Common.{
  Bool, true, false, ◌||◌, Option, none, some, List, [], ◌∷◌, ◌++◌, String, str_eq, ◌==◌,
  if◌then◌else◌, ◌≡◌, refl, ◌∙◌, ap, arith, Bool-cases, inl, inr, str_eq_eq, ℕ,
}

-- Whether a text has the character that ends a line, and the lines of a text.
abbrev pub has_newline : String → Bool
has_newline String.[] = false
has_newline (String.◌∷◌ c cs) = let rest = has_newline cs in code c == 10 || rest

abbrev pub to_first : Char → List String → List String
to_first c [] = String.◌∷◌ c "" ∷ []
to_first c (l ∷ ls) = String.◌∷◌ c l ∷ ls

abbrev pub split_lines : String → List String
split_lines String.[] = "" ∷ []
split_lines (String.◌∷◌ c cs) =
    let rest = split_lines cs in if code c == 10 then "" ∷ rest else to_first c rest

abbrev pub any_newline : List String → Bool
any_newline [] = false
any_newline (l ∷ ls) = let rest = any_newline ls in has_newline l || rest

pub has_newline-append : (a b : String) → has_newline (a +++ b) ≡ (has_newline a || has_newline b)
has_newline-append String.[] b = ap has_newline (nil-append b)
has_newline-append (String.◌∷◌ c cs) b =
    ap has_newline (cons-append c cs b) ∙ ground (arith, has_newline-append cs b)

pub any_newline-append :
    (a b : List String) → any_newline (a ++ b) ≡ (any_newline a || any_newline b)
any_newline-append [] b = refl
any_newline-append (l ∷ ls) b = ground (arith, any_newline-append ls b)

split_one : (a : String) → has_newline a ≡ false → split_lines a ≡ a ∷ []
split_one String.[] h = refl
split_one (String.◌∷◌ c cs) h =
    let other : (code c == 10) ≡ false = ground (arith, h) in
    rw (other, split_one cs (ground (arith, h))) refl

abbrev newline : Char
newline = "\n"

split_first :
    (a b : String) → has_newline a ≡ false → split_lines (a +++ ("\n" +++ b)) ≡ a ∷ split_lines b
split_first String.[] b h =
    ap split_lines (nil-append ("\n" +++ b) ∙ cons-append newline "" b)
    ∙ ap (λ t. "" ∷ split_lines t) (nil-append b)
split_first (String.◌∷◌ c cs) b h =
    let other : (code c == 10) ≡ false = ground (arith, h) in
    ap split_lines (cons-append c cs ("\n" +++ b))
    ∙ rw (other, split_first cs b (ground (arith, h))) refl

pub split-join :
    (l : String) (ls : List String)
    → any_newline (l ∷ ls) ≡ false
    → split_lines (join_from "\n" l ls) ≡ l ∷ ls
split-join l [] h = split_one l (ground (arith, h))
split-join l (m ∷ ms) h =
    split_first l (join_from "\n" m ms) (ground (arith, h))
    ∙ ap (λ ls. l ∷ ls) (split-join m ms (ground (arith, h)))

join-clean :
    (p : String) (ps : List String)
    → any_newline (p ∷ ps) ≡ false
    → has_newline (join_from " " p ps) ≡ false
join-clean p [] h = ground (arith, h)
join-clean p (q ∷ qs) h = ground (
  arith,
  h,
  has_newline-append p (" " +++ join_from " " q qs),
  has_newline-append " " (join_from " " q qs),
  join-clean q qs,
)

action-clean : (a : String) → is_action a ≡ true → has_newline a ≡ false
action-clean a h = elim (Bool-cases (str_eq a "accept")) [
  | inl accept ↦ ap has_newline (str_eq_eq a "accept" accept)
  | inr other ↦ ap has_newline (str_eq_eq a "drop" (ground (arith, h, other)))
]

protocol-clean :
    (p : Option String) → all_of is_protocol p ≡ true → any_newline (part_of "" p) ≡ false
protocol-clean none h = refl
protocol-clean (some p) h = elim (Bool-cases (str_eq p "tcp")) [
  | inl tcp ↦ ap (λ q. has_newline q || false) (nil-append p ∙ str_eq_eq p "tcp" tcp)
  | inr other ↦
      ap (λ q. has_newline q || false) (nil-append p ∙ str_eq_eq p "udp" (ground (arith, h, other)))
]

-- What is asked of printed numbers: they stand on one line.
abbrev pub OneLine : Texts → Type 0
OneLine x = (n : ℕ) → has_newline (x.printed n) ≡ false

-- Whether an address of a rule has a newline. That a network is valid does not exclude it:
-- `ipaddress` takes any text but `%` and `/` for the scope of an IPv6 address.
abbrev pub address_breaks : Option String → Bool
address_breaks none = false
address_breaks (some t) = has_newline t

abbrev pub rule_breaks : FilterRule → Bool
rule_breaks r = address_breaks r.destination || address_breaks r.source

abbrev pub any_breaks : List FilterRule → Bool
any_breaks [] = false
any_breaks (r ∷ rs) = let rest = any_breaks rs in rule_breaks r || rest

abbrev pub direction_breaks : Option FilterDirection → Bool
direction_breaks none = false
direction_breaks (some d) = any_breaks d.rules

abbrev pub config_breaks : Option FilterConfig → Bool
config_breaks none = false
config_breaks (some c) = direction_breaks c.egress || direction_breaks c.ingress

pub match-clean :
    (iif oif : String)
    → has_newline iif ≡ false
    → has_newline oif ≡ false
    → has_newline (match_both iif oif) ≡ false
match-clean iif oif h g = ground (
  arith,
  h,
  g,
  has_newline-append "        iifname \"" (iif +++ ("\" oifname \"" +++ (oif +++ "\""))),
  has_newline-append iif ("\" oifname \"" +++ (oif +++ "\"")),
  has_newline-append "\" oifname \"" (oif +++ "\""),
  has_newline-append oif "\"",
)

module _ (x : Texts) (one_line : OneLine x) where
  part-clean :
      (label : String) (o : Option String)
      → has_newline label ≡ false
      → address_breaks o ≡ false
      → any_newline (part_of label o) ≡ false
  part-clean label none l h = refl
  part-clean label (some t) l h = ground (arith, l, h, has_newline-append label t)

  port-clean : (o : Option ℕ) → any_newline (port_part x o) ≡ false
  port-clean none = refl
  port-clean (some n) = ground (arith, has_newline-append "dport " (x.printed n), one_line n)

  addr-clean :
      (field : AddrField) (r : FilterRule)
      → rule_breaks r ≡ false
      → any_newline (addr_part field r) ≡ false
  addr-clean destination r h = part-clean "ip daddr " r.destination refl (ground (arith, h))
  addr-clean source r h = part-clean "ip saddr " r.source refl (ground (arith, h))

  module _ (iif oif : String) (names : (has_newline iif ≡ false) × (has_newline oif ≡ false)) where
    rule-clean :
        (field : AddrField) (r : FilterRule)
        → is_valid_rule x r ≡ true
        → rule_breaks r ≡ false
        → has_newline (render_filter_rule x iif oif field r) ≡ false
    unfolding render_filter_rule is_valid_rule
    rule-clean field r h whole =
        let protocol = part_of "" r.protocol in
        let port = port_part x r.port in
        join-clean (match_both iif oif) (addr_part field r ++ (protocol ++ (port ++ r.action ∷ [])))
          (ground (
            arith,
            match-clean iif oif names.0 names.1,
            addr-clean field r whole,
            protocol-clean r.protocol (ground (arith, h)),
            port-clean r.port,
            action-clean r.action (ground (arith, h)),
            any_newline-append (addr_part field r) (protocol ++ (port ++ r.action ∷ [])),
            any_newline-append protocol (port ++ r.action ∷ []),
            any_newline-append port (r.action ∷ []),
          ))

    rules-clean :
        (field : AddrField) (rs : List FilterRule)
        → all_valid x rs ≡ true
        → any_breaks rs ≡ false
        → any_newline (render_rules x iif oif field rs) ≡ false
    unfolding render_rules all_valid
    rules-clean field [] h whole = refl
    rules-clean field (r ∷ rs) h whole = ground (
      arith,
      rule-clean field r (ground (arith, h)) (ground (arith, whole)),
      rules-clean field rs (ground (arith, h)) (ground (arith, whole)),
    )

    pub direction-clean :
        (field : AddrField) (d : Option FilterDirection)
        → all_of (is_valid_direction x) d ≡ true
        → direction_breaks d ≡ false
        → any_newline (direction_lines x iif oif field d) ≡ false
    unfolding direction_lines is_valid_direction
    direction-clean field none h whole = ground (
      arith,
      match-clean iif oif names.0 names.1,
      has_newline-append (match_both iif oif) " accept",
    )
    direction-clean field (some d) h whole =
        let policy = match_both iif oif +++ (" " +++ d.policy) in
        ground (
          arith,
          match-clean iif oif names.0 names.1,
          rules-clean field d.rules (ground (arith, h)) whole,
          action-clean d.policy (ground (arith, h)),
          has_newline-append (match_both iif oif) (" " +++ d.policy),
          has_newline-append " " d.policy,
          any_newline-append (render_rules x iif oif field d.rules) (policy ∷ []),
        )
